-- ===== src/Friends/Answers.antt =====
-- What the answers of the two friend handlers mean, and the invariant along any run.
use Prim.Native.String.{String}
use text.Mathlib.Text.{◌==◌ as str_eq}
use text.Mathlib.TextEquality.{eq_iff}
use nexusroom.Base.{
  ℕ, ◌≤◌, ◌<◌, ◌≡◌, ◌≢◌, refl, subst, inl, inr, Bool, true, false, not, ◌&&◌, Option, some, List,
  [], ◌∷◌, ◌++◌, map, ◌==◌, if◌then◌else◌, count, All, All-middle, count-append,
  count_of_filter-nil, arith, Bool-cases,
}
use nexusroom.Orm.{Table, Found, found, not_found, failed}
use nexusroom.Friends.{
  Friendship, User, same_friendship, keep_id, between, find_by_users, update_status, on_existing,
  send_to, send_request, handled, handle_found, handle_request, success, error, refuse,
}
use nexusroom.Friends.Handlers.{keyed, handled-state, send_request-Inv, handle_request-Inv}
use nexusroom.Friends.Pairs.{Inv, IsSound, restatus}

module _ (F : Table Friendship keep_id same_friendship) (find_by_id : ℕ → Option User)
    (find_by_display_id : String → Option User) where
  open F use {
    State, rows, create, create_ok, create_failed, delete_where, delete_ok, update_where, update_ok,
    update_failed, first_where, first_found, first_not_found,
  }

  handled-success :
      (r u : ℕ) (status : String) (x : Bool × State)
      → (handled F find_by_id find_by_display_id r u status x).answer ≡ success
      → x.0 ≡ true
  handled-success r u status (false, s) e = cc
  handled-success r u status (true, s) e = refl

  abbrev pub Handles : ℕ → String → ℕ → State → State → Type 0
  Handles r action u s s' =
      (f : Friendship) × (before after : List Friendship) × (rows s ≡ before ++ f ∷ after)
      × (f.requester_id ≡ r)
      × (f.addressee_id ≡ u)
      × (f.status ≡ "pending")
      × (rows s'
          ≡ map (restatus (keyed f) (if str_eq action "accept" then "accepted" else "rejected"))
              (rows s))

  handle_found-Handles :
      (r : ℕ) (action : String) (u : ℕ) (x : Found Friendship) (s : State)
      → find_by_users F r u s ≡ x
      → (handle_found F find_by_id find_by_display_id r action u x s).answer ≡ success
      → Handles r action u s (handle_found F find_by_id find_by_display_id r action u x s).state
  unfolding handle_found find_by_users update_status
  handle_found-Handles r action u not_found s q e = cc
  handle_found-Handles r action u failed s q e = cc
  handle_found-Handles r action u (found f) s q e =
      let (before, after, same, link) = first_found (between r u) s f q in
      elim (Bool-cases (f.addressee_id == u)) [
        | inr e₁ ↦ cc
        | inl e₁ ↦ elim (Bool-cases (str_eq f.status "pending")) [
          | inr e₂ ↦ cc (rw (e₁, e₂) at e)
          | inl e₂ ↦
              let done = handled-success r u _ _ (rw (e₁, e₂) at e) in
              (
                f,
                before,
                after,
                same,
                ground arith,
                ground arith,
                (eq_iff f.status "pending").0 e₂,
                rw (e₁, e₂, handled-state F find_by_id find_by_display_id)
                    (update_ok (keyed f) _ s done),
              )
        ]
      ]

-- One request to a handler, with what the framework has bound of it, and who sends it.
pub data Call : Type 0 where
  sends : Option String → ℕ → Call
  handles : Option ℕ → Option String → ℕ → Call

-- A relation that keeps a new request out: pending or accepted, in either direction.
abbrev pub is_active : ℕ → ℕ → Friendship → Bool
is_active a b f = between a b f && not (str_eq f.status "rejected")

count-is_active :
    (a b : ℕ) (rows : List Friendship) → count (is_active a b) rows ≤ count (between a b) rows
unfolding count
count-is_active a b [] = omega arith
count-is_active a b (f ∷ rows) = ground (arith, count-is_active a b rows)

found_active :
    (a b : ℕ) (before after : List Friendship) (f : Friendship)
    → between a b f ≡ true
    → count (between a b) (before ++ f ∷ after) ≤ 1
    → 0 < count (is_active a b) (before ++ f ∷ after)
    → str_eq f.status "rejected" ≡ false
unfolding count
found_active a b before after f link one active = elim (Bool-cases (str_eq f.status "rejected")) [
  | inr e ↦ e
  | inl e ↦ absurd (
      ground (
        arith,
        count-append (between a b) before (f ∷ after),
        count-append (is_active a b) before (f ∷ after),
        count-is_active a b before,
        count-is_active a b after,
      ))
]

module _ (F : Table Friendship keep_id same_friendship) (find_by_id : ℕ → Option User)
    (find_by_display_id : String → Option User) where
  open F use {State, rows, delete_where, first_where, first_found, first_not_found}

  unfoldable pub step : Call → State → State
  step (sends bound u) s = (send_request F find_by_id find_by_display_id bound u s).state
  step (handles requester action u) s =
      (handle_request F find_by_id find_by_display_id requester action u s).state

  unfoldable pub run : List Call → State → State
  unfolding step
  run [] s = s
  run (c ∷ cs) s = run cs (step c s)

  -- On a table whose queries and deletions do not fail, any sequence of friend requests and
  -- answers, by anybody, keeps the invariant: at most one row for two users, whichever asked,
  -- statuses among the three of the program, and nobody his own friend.
  pub run-Inv :
      ((p : Friendship → Bool) (s : State) → first_where p s ≢ failed)
      → ((p : Friendship → Bool) (s : State) → (delete_where p s).0 ≡ true)
      → (cs : List Call) (s : State) → Inv (rows s)
      → Inv (rows (run cs s))
  unfolding run
  run-Inv queries deletions [] s v = v
  run-Inv queries deletions (sends bound u ∷ cs) s v =
      run-Inv queries deletions cs _
        (send_request-Inv F find_by_id find_by_display_id queries deletions bound u s v)
  run-Inv queries deletions (handles requester action u ∷ cs) s v =
      run-Inv queries deletions cs _
        (handle_request-Inv F find_by_id find_by_display_id requester action u s v)

  -- Where the answer to a friend request succeeds, there was a pending row from the named
  -- requester to the one who answers, and the table differs from before just in the status of the
  -- rows under that row's key: accepted if the action was "accept", else rejected.
  pub handle_request-Handles :
      (requester : ℕ) (action : String) (u : ℕ) (s : State)
      → (handle_request F find_by_id find_by_display_id (some requester) (some action) u s).answer
        ≡ success
      → Handles F find_by_id find_by_display_id requester action u s
          (handle_request F find_by_id find_by_display_id (some requester) (some action) u s).state
  unfolding handle_request
  handle_request-Handles requester action u s e =
      handle_found-Handles F find_by_id find_by_display_id requester action u
        (find_by_users F requester u s) s refl e

  active_refused :
      (u t : ℕ) (x : Found Friendship) (s : State)
      → find_by_users F u t s ≡ x
      → ((p : Friendship → Bool) → first_where p s ≢ failed)
      → Inv (rows s)
      → 0 < count (is_active u t) (rows s)
      → on_existing F find_by_id find_by_display_id u t x s ≡ refuse F 40901 s
  unfolding on_existing find_by_users
  active_refused u t not_found s q queries v h = absurd (
      omega (
        arith,
        count-is_active u t (rows s),
        count_of_filter-nil (between u t) (rows s) (first_not_found (between u t) s q),
      ))
  active_refused u t failed s q queries v h = absurd (queries (between u t) q)
  active_refused u t (found f) s q queries v h =
      let (before, after, same, link) = first_found (between u t) s f q in
      let sound = All-middle IsSound before f after (subst (All IsSound) same v.sound) in
      let open_row =
        found_active u t before after f link (rw same at (v.unique u t)) (rw same at h) in
      elim sound.0 [
        | inl pending ↦ rw pending
        | inr (inl accepted) ↦ rw accepted
        | inr (inr rejected) ↦ cc (rw rejected at open_row)
      ]

  -- Let the table satisfy the invariant, let none of its queries fail, and let the display id be that
  -- of another user. While a request between the two is pending or accepted, in either direction, a
  -- new request to him is answered with 40901 (a conflict), changes nothing and notifies nobody.
  pub send_request_conflict :
      (display_id : String) (u : ℕ) (target : User) (s : State)
      → ((p : Friendship → Bool) → first_where p s ≢ failed)
      → find_by_display_id display_id ≡ some target
      → target.id ≢ u
      → Inv (rows s)
      → 0 < count (is_active u target.id) (rows s)
      → send_request F find_by_id find_by_display_id (some display_id) u s
        ≡ record { answer = error 40901; events = []; state = s }
  unfolding send_request send_to
  send_request_conflict display_id u target s queries known other v h =
      let apart : (target.id == u) ≡ false = ground arith in
      rw (known, apart)
        (active_refused u target.id (find_by_users F u target.id s) s refl queries v h)
