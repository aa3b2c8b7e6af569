-- ===== src/Voice/Forwarding.antt =====
-- `forwardAudio` keeps the engine well-formed: the track becomes known and is sent to the room.
use nexusroom.Base.{
  ℕ, ◌≡◌, refl, sym, ap, subst, ◌∙◌, ◌⊎◌, inl, inr, some, ◌==◌, Bool-cases, Option-cases, arith,
  All, All_imp, ==-refl,
}
use nexusroom.Base.Maps.{lookup, insert, lookup-insert, All-lookup}
use nexusroom.Voice.{Room, Engine, Rtc}
use nexusroom.Voice.Methods.{send_track, forward_in, forward_audio}
use nexusroom.Voice.Soft.{send_track-Evolves}
use nexusroom.Voice.Invariant.{IsLive, Inv, Evolves-Inv}

module _ (p track : ℕ) (r : Room) (e : Engine) (i : Inv e)
    (h : lookup (e.store p).room_id e.rooms ≡ some r)
    (g : lookup (e.store p).user_id r.peers ≡ some p) where
  abbrev k : ℕ
  k = (e.store p).room_id

  abbrev u : ℕ
  u = (e.store p).user_id

  abbrev known : Room
  known = record r { tracks = insert u track r.tracks }

  abbrev e₁ : Engine
  e₁ = record e { rooms = insert k known e.rooms }

  known_at :
      (j : ℕ) (r' : Room)
      → lookup j e₁.rooms ≡ some r'
      → ((k ≡ j) × (known ≡ r')) ⊎ (lookup j e.rooms ≡ some r')
  known_at j r' f =
      let at = sym (lookup-insert k j known e.rooms) ∙ f in
      elim (Bool-cases (k == j)) [
        | inr other ↦ inr (rw other at at)
        | inl here ↦ inl (ground arith, ground (arith, (rw here at at)))
      ]

  known_track :
      (s t : ℕ) → lookup s r.tracks ≡ some t → (t' : ℕ) × (lookup s known.tracks ≡ some t')
  known_track s t f = elim (Bool-cases (u == s)) [
    | inl here ↦ (track, rw (lookup-insert u s track r.tracks, here) refl)
    | inr other ↦ (t, rw (lookup-insert u s track r.tracks, other) f)
  ]

  its_track : (t' : ℕ) × (lookup u known.tracks ≡ some t')
  its_track = (track, rw (lookup-insert u u track r.tracks, ==-refl u) refl)

  known_peer : (v t : ℕ) → lookup v known.tracks ≡ some t → (q : ℕ) × (lookup v r.peers ≡ some q)
  known_peer v t f =
      let at = sym (lookup-insert u v track r.tracks) ∙ f in
      elim (Bool-cases (u == v)) [
        | inr other ↦ i.tracks k v t r h (rw other at at)
        | inl here ↦
            let same : u ≡ v = ground arith in (p, ap (λ (n : ℕ). lookup n r.peers) (sym same) ∙ g)
      ]

  published-Inv : Inv e₁
  published-Inv = record {
    listed = λ j r' f. elim (known_at j r' f) [
      | inr f' ↦
          All_imp (IsLive j e) (IsLive j e₁) r'.peers
            (λ y l. record {
              user_id = l.user_id;
              room_id = l.room_id;
              closed = l.closed;
              made = l.made;
            })
            (i.listed j r' f')
      | inl (here, is) ↦ rw (← is) (
          subst (λ (n : ℕ). All (IsLive n e₁) r.peers) here
            (All_imp (IsLive k e) (IsLive k e₁) r.peers
              (λ y l. record {
                user_id = l.user_id;
                room_id = l.room_id;
                closed = l.closed;
                made = l.made;
              })
              (i.listed k r h)))
    ];
    tracks = λ j v t r' f l. elim (known_at j r' f) [
      | inr f' ↦ i.tracks j v t r' f' l
      | inl (_, is) ↦ rw (← is) (known_peer v t (rw (← is) at l))
    ];
    senders = λ j v q s r' f l m. elim (known_at j r' f) [
      | inr f' ↦ i.senders j v q s r' f' l m
      | inl (_, is) ↦
          let (t, l') = i.senders k v q s r h (rw (← is) at l) m in rw (← is) (known_track s t l')
    ];
    voices = i.voices;
    nonempty = λ j r' f. elim (known_at j r' f) [
      | inr f' ↦ i.nonempty j r' f'
      | inl (_, is) ↦ rw (← is) (i.nonempty k r h)
    ];
  }

  sent-Inv : (x : Rtc) → Inv (send_track x u r.peers e₁)
  sent-Inv x =
      let G : ℕ → ℕ → Type 0 = λ q s. (s ≡ u) × ((e.store q).room_id ≡ k) in
      Evolves-Inv G e₁ _
        (send_track-Evolves G x u r.peers e₁ (
          All_imp (IsLive k e) (λ (y : ℕ × ℕ). G y.1 u) r.peers (λ y l. (refl, l.room_id))
            (i.listed k r h)))
        (λ j v q s r' f l (same, room).
          let live = All-lookup (IsLive j e₁) v q r'.peers (published-Inv.listed j r' f) l in
          let there : k ≡ j = sym room ∙ live.room_id in
          let is : known ≡ r' =
            ground (arith, f, there, lookup-insert k k known e.rooms, ==-refl k) in
          rw (same, ← is) its_track)
        published-Inv

pub forward_audio-Inv :
    (x : Rtc) (p track : ℕ) (e : Engine) → Inv e → Inv (forward_audio x p track e)
unfolding forward_audio forward_in
forward_audio-Inv x p track e i = elim (Option-cases (lookup (e.store p).room_id e.rooms)) [
  | inl h ↦ rw h i
  | inr (r, h) ↦ elim (Option-cases (lookup (e.store p).user_id r.peers)) [
    | inl g ↦ rw (h, g) i
    | inr (q, g) ↦ elim (Bool-cases (q == p)) [
      | inr other ↦ rw (h, g, other) i
      | inl here ↦
          let same : q ≡ p = ground arith in
          rw (h, g, here) (sent-Inv p track r e i h (g ∙ ap (λ (n : ℕ). some n) same) x)
    ]
  ]
]
