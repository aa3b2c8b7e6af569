-- ===== src/Voice/Leaving.antt =====
-- `Leave`: what becomes of the peer, of its room and of the peers that stay.
use nexusroom.Base.{
  ℕ, ◌≡◌, ◌≢◌, refl, sym, ap, ◌∙◌, inl, inr, true, false, not, none, some, List, [], ◌∷◌, ◌==◌,
  if◌then◌else◌, any, filter, Bool-cases, Option-cases, arith, All, All_imp, ==-refl,
}
use nexusroom.Base.Maps.{lookup, lookup-erase, lookup-insert}
use nexusroom.Voice.{
  Room, Engine, Rtc, put, member, find_peer, peer_in, broadcast_participants, renegotiate,
}
use nexusroom.Voice.Rooms.{
  is_empty, without, put_room, taken_out, drop_senders, leave, leave_peer, leave_room,
}
use nexusroom.Voice.Soft.{
  Alike, Evolves, Never, still, Evolves-trans, put-Evolves, renegotiate-Evolves, broadcast-Evolves,
}
use nexusroom.Voice.Invariant.{find_peer-some}

pub lookup-put_room :
    (k j : ℕ) (r : Room) (rooms : List (ℕ × Room))
    → lookup j (put_room k r rooms)
      ≡ (if k == j then (if is_empty r.peers then none else some r) else lookup j rooms)
unfolding put_room
lookup-put_room k j r rooms = elim (Bool-cases (is_empty r.peers)) [
  | inl e ↦ rw (e, lookup-erase k j rooms) refl
  | inr e ↦ rw (e, lookup-insert k j r rooms) refl
]

member-filter :
    (i j : ℕ) (is : List ℕ)
    → member i (filter (λ (k : ℕ). not (k == j)) is) ≡ true
    → (member i is ≡ true) × (i ≢ j)
unfolding member filter any
member-filter i j [] m = cc
member-filter i j (k ∷ is) m = elim (Bool-cases (k == j)) [
  | inl e ↦ let (inside, apart) = member-filter i j is (rw e at m) in (ground arith, apart)
  | inr e ↦ elim (Bool-cases (k == i)) [
    | inl f ↦ (ground arith, ground arith)
    | inr f ↦ let (inside, apart) = member-filter i j is (rw (e, f) at m) in (ground arith, apart)
  ]
]

-- No listed peer sends the track of the one who left.
abbrev Clean : ℕ → Engine → ℕ × ℕ → Type 0
Clean u e entry = member u (e.store entry.1).senders ≡ false

module _ (x : Rtc) (u : ℕ) where
  abbrev dropped : ℕ → Engine → Engine
  dropped q e = renegotiate x q (
      put q (record (e.store q) { senders = filter (λ (s : ℕ). not (s == u)) (e.store q).senders })
        e)

  abbrev filtered : ℕ → Engine → Engine
  filtered q e =
      put q (record (e.store q) { senders = filter (λ (s : ℕ). not (s == u)) (e.store q).senders })
        e

  dropped-Evolves : (q : ℕ) (e : Engine) → Evolves Never e (dropped q e)
  dropped-Evolves q e =
      Evolves-trans Never
        (put-Evolves Never q _ e
          (record { user_id = refl; room_id = refl; muted = refl; speaking = refl; closed = refl })
          (λ s m. inl (member-filter s u (e.store q).senders m).0))
        (renegotiate-Evolves Never x q (filtered q e))

  dropped-Clean : (v q : ℕ) (e : Engine) → Clean u (dropped q e) (v, q)
  dropped-Clean v q e = elim (Bool-cases (member u ((dropped q e).store q).senders)) [
    | inr e' ↦ e'
    | inl m ↦ elim ((renegotiate-Evolves Never x q (filtered q e)).senders q u m) [
      | inr g ↦ absurd g
      | inl m' ↦ absurd ((member-filter u u (e.store q).senders (rw (==-refl q) at m')).1 refl)
    ]
  ]

  pub drop_senders-Evolves :
      (ps : List (ℕ × ℕ)) (e : Engine) → Evolves Never e (drop_senders x u ps e)
  unfolding drop_senders
  drop_senders-Evolves [] e = still Never e
  drop_senders-Evolves ((v, q) ∷ ps) e =
      Evolves-trans Never (dropped-Evolves q e) (drop_senders-Evolves ps (dropped q e))

  keeps_Clean :
      (e e' : Engine) (entry : ℕ × ℕ) → Evolves Never e e' → Clean u e entry → Clean u e' entry
  keeps_Clean e e' entry v c = elim (Bool-cases (member u (e'.store entry.1).senders)) [
    | inr f ↦ f
    | inl m ↦ elim (v.senders entry.1 u m) [ inr g ↦ absurd g | inl m' ↦ cc (m', c) ]
  ]

  pub drop_senders-Clean :
      (ps : List (ℕ × ℕ)) (e : Engine) → All (Clean u (drop_senders x u ps e)) ps
  unfolding drop_senders
  drop_senders-Clean [] e = tt
  drop_senders-Clean ((v, q) ∷ ps) e = (
    keeps_Clean (dropped q e) _ (v, q) (drop_senders-Evolves ps (dropped q e))
        (dropped-Clean v q e),
    drop_senders-Clean ps (dropped q e),
  )

-- What `Leave` of a peer that is there comes to.
pub record Left (k u p : ℕ) (r : Room) (e e' : Engine) : Type 0 where
  pub rooms : e'.rooms ≡ put_room k (without u r) e.rooms
  pub count : e'.count ≡ e.count
  pub closed : (e'.store p).closed ≡ true
  pub muted : (q : ℕ) → (e'.store q).muted ≡ (e.store q).muted
  pub speaking : (q : ℕ) → (e'.store q).speaking ≡ (e.store q).speaking
  pub others : (q : ℕ) → q ≢ p → Alike (e.store q) (e'.store q)
  pub senders :
      (q s : ℕ) → member s (e'.store q).senders ≡ true → member s (e.store q).senders ≡ true
  pub clean : All (Clean u e') (without u r).peers

taken-Left :
    (x : Rtc) (k u p : ℕ) (r : Room) (e : Engine) → Left k u p r e (leave_peer x k u r (some p) e)
unfolding taken_out leave_peer
taken-Left x k u p r e =
    let e₁ = taken_out k u r p e in
    let ps = (without u r).peers in
    let e₂ = drop_senders x u ps e₁ in
    let e₃ = broadcast_participants k e₂ in
    let v₂ = drop_senders-Evolves x u ps e₁ in
    let v₃ = broadcast-Evolves Never k e₂ in
    let v = Evolves-trans Never v₂ v₃ in
    record {
      rooms = v.rooms;
      count = v.count;
      closed = (v.same p).closed ∙ rw (==-refl p) refl;
      muted = λ q. (v.same q).muted ∙ elim (Bool-cases (p == q)) [
        | inr other ↦ rw other refl
        | inl here ↦
            let same : p ≡ q = ground arith in rw here (ap (λ (n : ℕ). (e.store n).muted) same)
      ];
      speaking = λ q. (v.same q).speaking ∙ elim (Bool-cases (p == q)) [
        | inr other ↦ rw other refl
        | inl here ↦
            let same : p ≡ q = ground arith in rw here (ap (λ (n : ℕ). (e.store n).speaking) same)
      ];
      others = λ q apart.
          let other : p == q ≡ false = ground (arith, apart) in
          let a = v.same q in
          record {
            user_id = a.user_id ∙ rw other refl;
            room_id = a.room_id ∙ rw other refl;
            muted = a.muted ∙ rw other refl;
            speaking = a.speaking ∙ rw other refl;
            closed = a.closed ∙ rw other refl;
          };
      senders = λ q s m. elim (v.senders q s m) [
        | inr g ↦ absurd g
        | inl m' ↦ elim (Bool-cases (p == q)) [
          | inr other ↦ rw other at m'
          | inl here ↦
              let same : p ≡ q = ground arith in
              ap (λ (n : ℕ). member s (e.store n).senders) (sym same) ∙ (rw here at m')
        ]
      ];
      clean =
          All_imp (Clean u e₂) (Clean u e₃) ps (λ entry c. keeps_Clean x u e₂ e₃ entry v₃ c)
            (drop_senders-Clean x u ps e₁);
    }

pub leave_lem :
    (x : Rtc) (k u p : ℕ) (e : Engine)
    → find_peer k u e ≡ some p
    → (r : Room) × (lookup k e.rooms ≡ some r)
      × (lookup u r.peers ≡ some p)
      × Left k u p r e (leave x k u e)
unfolding leave leave_room
leave_lem x k u p e f =
    let (r, h, g) = find_peer-some k u p e f in (r, h, g, rw (h, g) (taken-Left x k u p r e))

pub leave_absent : (x : Rtc) (k u : ℕ) (e : Engine) → find_peer k u e ≡ none → leave x k u e ≡ e
unfolding leave find_peer leave_room leave_peer peer_in
leave_absent x k u e f = elim (Option-cases (lookup k e.rooms)) [
  | inl h ↦ rw h refl
  | inr (r, h) ↦ rw (h, (rw h at f)) refl
]
