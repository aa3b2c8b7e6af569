-- ===== src/Friends/Handlers.antt =====
-- What the two friend handlers do to the table.
use Prim.Native.String.{String}
use text.Mathlib.Text.{◌==◌ as str_eq}
use nexusroom.Base.{
  ℕ, ◌≡◌, ◌≢◌, refl, subst, inl, inr, Bool, true, false, not, ◌&&◌, Option, none, some, ◌==◌,
  if◌then◌else◌, count, All, All-middle, count-filter-not, count_of_filter-nil, arith, Option-cases,
  Bool-cases,
}
use nexusroom.Orm.{Table, Found, found, not_found, failed}
use nexusroom.Friends.{
  Friendship, User, same_friendship, keep_id, between, find_by_users, update_status,
  delete_friendship, create_request, on_existing, send_to, send_request, handled, handle_found,
  handle_request, sent,
}
use nexusroom.Friends.Pairs.{Inv, IsStatus, IsSound, add-Inv, remove-Inv, restatus-Inv}

abbrev pub keyed : Friendship → Friendship → Bool
keyed f g = g.requester_id == f.requester_id && g.addressee_id == f.addressee_id

module _ (F : Table Friendship keep_id same_friendship) (find_by_id : ℕ → Option User)
    (find_by_display_id : String → Option User) where
  open F use {
    State, rows, create, create_ok, create_failed, delete_where, delete_ok, update_where, update_ok,
    update_failed, first_where, first_found, first_not_found,
  }

  sent-state :
      (u t : ℕ) (r : Option Friendship × State)
      → (sent F find_by_id find_by_display_id u t r).state ≡ r.1
  sent-state u t (none, s) = refl
  sent-state u t (some f, s) = refl

  between_new :
      (u t : ℕ) (status : String)
      → between u t (record { requester_id = u; addressee_id = t; status = status }) ≡ true
  between_new u t status = ground arith

  create_request-Inv :
      (u t : ℕ) (s : State)
      → Inv (rows s)
      → u ≢ t
      → count (between u t) (rows s) ≡ 0
      → Inv (rows (create_request F find_by_id find_by_display_id u t s).state)
  unfolding create_request
  create_request-Inv u t s v apart absent =
      let row : Friendship = record { requester_id = u; addressee_id = t; status = "pending" } in
      rw (sent-state u t (create row s)) (elim (Option-cases (create row s).0) [
        | inl e ↦ rw (create_failed row s e) v
        | inr (row', e) ↦
            let (_, same, _, added) = create_ok row s row' e in
            rw (added, same)
              (add-Inv u t row (rows s) (between_new u t "pending") (inl refl, apart) v absent)
      ])

  -- What the handlers assume of a query and of a deletion whose errors they ignore.
  module _ (queries_work : (p : Friendship → Bool) (s : State) → first_where p s ≢ failed)
      (deletions_work : (p : Friendship → Bool) (s : State) → (delete_where p s).0 ≡ true) where
    on_existing-Inv :
        (u t : ℕ) (r : Found Friendship) (s : State)
        → find_by_users F u t s ≡ r
        → Inv (rows s)
        → u ≢ t
        → Inv (rows (on_existing F find_by_id find_by_display_id u t r s).state)
    unfolding on_existing find_by_users delete_friendship
    on_existing-Inv u t (found f) s e v apart =
        let (before, after, same, _) = first_found (between u t) s f e in
        let sound = All-middle IsSound before f after (subst (All IsSound) same v.sound) in
        let gone = delete_ok (between u t) s (deletions_work (between u t) s) in
        elim sound.0 [
          | inl pending ↦ rw pending v
          | inr (inl accepted) ↦ rw accepted v
          | inr (inr rejected) ↦ rw rejected (
              create_request-Inv u t (delete_where (between u t) s).1
                (rw gone (remove-Inv (λ g. not (between u t g)) (rows s) v)) apart
                (rw gone (count-filter-not (between u t) (rows s))))
        ]
    on_existing-Inv u t not_found s e v apart =
        create_request-Inv u t s v apart
          (count_of_filter-nil (between u t) (rows s) (first_not_found (between u t) s e))
    on_existing-Inv u t failed s e v apart = absurd (queries_work (between u t) s e)

    pub send_request-Inv :
        (bound : Option String) (u : ℕ) (s : State)
        → Inv (rows s)
        → Inv (rows (send_request F find_by_id find_by_display_id bound u s).state)
    unfolding send_request send_to
    send_request-Inv none u s v = v
    send_request-Inv (some d) u s v = elim (Option-cases (find_by_display_id d)) [
      | inl e ↦ rw e v
      | inr (target, e) ↦ rw e (elim (Bool-cases (target.id == u)) [
        | inl self ↦ rw self v
        | inr other ↦
            rw other
              (on_existing-Inv u target.id (find_by_users F u target.id s) s refl v (ground arith))
      ])
    ]

  answer-IsStatus :
      (action : String) → IsStatus (if str_eq action "accept" then "accepted" else "rejected")
  answer-IsStatus action = elim (Bool-cases (str_eq action "accept")) [
    | inl e ↦ rw e (inr (inl refl))
    | inr e ↦ rw e (inr (inr refl))
  ]

  pub handled-state :
      (r u : ℕ) (status : String) (x : Bool × State)
      → (handled F find_by_id find_by_display_id r u status x).state ≡ x.1
  handled-state r u status (false, s) = refl
  handled-state r u status (true, s) = refl

  update_status-Inv :
      (f : Friendship) (status : String) (s : State)
      → IsStatus status
      → Inv (rows s)
      → Inv (rows (update_status F f.requester_id f.addressee_id status s).1)
  unfolding update_status
  update_status-Inv f status s known v =
      elim (Bool-cases (update_where (keyed f) (λ g. record g { status = status }) s).0) [
        | inl e ↦ rw (update_ok (keyed f) _ s e) (restatus-Inv (keyed f) status known (rows s) v)
        | inr e ↦ rw (update_failed (keyed f) _ s e) v
      ]

  handle_found-Inv :
      (r : ℕ) (action : String) (u : ℕ) (x : Found Friendship) (s : State)
      → Inv (rows s)
      → Inv (rows (handle_found F find_by_id find_by_display_id r action u x s).state)
  unfolding handle_found
  handle_found-Inv r action u not_found s v = v
  handle_found-Inv r action u failed s v = v
  handle_found-Inv r action u (found f) s v = elim (Bool-cases (f.addressee_id == u)) [
    | inr e ↦ rw e v
    | inl e ↦ rw e (elim (Bool-cases (str_eq f.status "pending")) [
      | inr e' ↦ rw e' v
      | inl e' ↦
          rw (e', handled-state r u (if str_eq action "accept" then "accepted" else "rejected"))
            (update_status-Inv f _ s (answer-IsStatus action) v)
    ])
  ]

  pub handle_request-Inv :
      (requester : Option ℕ) (action : Option String) (u : ℕ) (s : State)
      → Inv (rows s)
      → Inv (rows (handle_request F find_by_id find_by_display_id requester action u s).state)
  unfolding handle_request
  handle_request-Inv none action u s v = v
  handle_request-Inv (some r) none u s v = v
  handle_request-Inv (some r) (some action) u s v =
      handle_found-Inv r action u (find_by_users F r u s) s v
