-- ===== src/Voice/Users.antt =====
-- `LeaveUser`: the engine stays well-formed, and the user is in no room.
use nexusroom.Base.{
  ℕ, ◌≡◌, refl, sym, ap, ◌∙◌, inl, inr, true, ◌&&◌, none, some, List, [], ◌∷◌, ◌==◌, if◌then◌else◌,
  any, Bool-cases, Option-cases, arith,
}
use nexusroom.Base.Maps.{lookup}
use nexusroom.Voice.{Room, Engine, Rtc, member, find_peer, peer_in}
use nexusroom.Voice.Rooms.{leave, is_there, rooms_of, leave_each, leave_user}
use nexusroom.Voice.Invariant.{Inv}
use nexusroom.Voice.Departed.{leave-Inv, find_peer-leave}

module _ (x : Rtc) (u : ℕ) where
  leave_each-Inv : (ks : List ℕ) (e : Engine) → Inv e → Inv (leave_each x u ks e)
  unfolding leave_each
  leave_each-Inv [] e i = i
  leave_each-Inv (k ∷ ks) e i = leave_each-Inv ks (leave x k u e) (leave-Inv x k u e i)

  find_peer-leave_each :
      (ks : List ℕ) (j v : ℕ) (e : Engine)
      → find_peer j v (leave_each x u ks e)
        ≡ (if (u == v) && member j ks then none else find_peer j v e)
  unfolding leave_each member any
  find_peer-leave_each [] j v e = elim (Bool-cases (u == v)) [
    | inl h ↦ rw h refl
    | inr h ↦ rw h refl
  ]
  find_peer-leave_each (k ∷ ks) j v e =
      rw (find_peer-leave_each ks j v (leave x k u e), find_peer-leave x k u j v e)
        (elim (Bool-cases (u == v)) [
          | inr h ↦ rw h (elim (Bool-cases (k == j)) [ inl f ↦ rw f refl | inr f ↦ rw f refl ])
          | inl h ↦ rw h (elim (Bool-cases (k == j)) [
            | inr f ↦ rw f refl
            | inl f ↦
                rw f (elim (Bool-cases (member j ks)) [ inl g ↦ rw g refl | inr g ↦ rw g refl ])
          ])
        ])

  rooms_of_all :
      (j p : ℕ) (rooms : List (ℕ × Room))
      → peer_in (lookup j rooms) u ≡ some p
      → member j (rooms_of u rooms) ≡ true
  unfolding rooms_of member any lookup peer_in
  rooms_of_all j p [] h = cc
  rooms_of_all j p ((k, r) ∷ rooms) h = elim (Bool-cases (k == j)) [
    | inl f ↦ rw (rw f at h, f) refl
    | inr f ↦
        let rest = rooms_of_all j p rooms (rw f at h) in
        elim (Bool-cases (is_there (lookup u r.peers))) [
          | inl g ↦ rw (g, f) rest
          | inr g ↦ rw g rest
        ]
  ]

  pub leave_user-Inv : (e : Engine) → Inv e → Inv (leave_user x u e)
  unfolding leave_user
  leave_user-Inv e i = leave_each-Inv (rooms_of u e.rooms) e i

  -- LeaveUser takes the user out of every room: a look-up finds nobody for that user, whatever the
  -- room, and for every other user what it found before.
  pub find_peer-leave_user :
      (j v : ℕ) (e : Engine)
      → find_peer j v (leave_user x u e) ≡ (if u == v then none else find_peer j v e)
  unfolding leave_user find_peer
  find_peer-leave_user j v e =
      find_peer-leave_each (rooms_of u e.rooms) j v e ∙ elim (Bool-cases (u == v)) [
        | inr h ↦ rw h refl
        | inl h ↦ elim (Bool-cases (member j (rooms_of u e.rooms))) [
          | inl g ↦ rw (h, g) refl
          | inr g ↦ elim (Option-cases (find_peer j u e)) [
            | inr (p, f) ↦ cc (rooms_of_all j p e.rooms f, g)
            | inl f ↦
                let same : u ≡ v = ground arith in
                rw (h, g) (ap (λ (n : ℕ). find_peer j n e) (sym same) ∙ f)
          ]
        ]
      ]
