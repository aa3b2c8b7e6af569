-- ===== src/Voice/Joins.antt =====
-- Joining a room keeps the engine well-formed.
use nexusroom.Base.{
  ℕ, ◌+◌, ◌<◌, ◌≡◌, refl, sym, subst, ◌∙◌, ◌⊎◌, inl, inr, true, false, some, ◌==◌, any, Bool-cases,
  Option-cases, arith, All, All_imp, ==-refl,
}
use nexusroom.Base.Maps.{lookup, erase, insert, lookup-insert, All-erase}
use nexusroom.Voice.{Room, Engine, set, member}
use nexusroom.Voice.Rooms.{room_or_new, new_peer, join}
use nexusroom.Voice.Invariant.{IsLive, Inv}

module _ (k u : ℕ) (e : Engine) (i : Inv e) where
  abbrev joined_room : Room
  joined_room = room_or_new (lookup k e.rooms)

  abbrev e₁ : Engine
  e₁ = record e {
    rooms = insert k (record joined_room { peers = insert u e.count joined_room.peers }) e.rooms;
    store = set e.store e.count (new_peer k u);
    count = e.count + 1;
  }

  moved : (j : ℕ) (y : ℕ × ℕ) → IsLive j e y → IsLive j e₁ y
  moved j y l =
      let made : y.1 < e.count = l.made in
      let other : e.count == y.1 ≡ false = ground arith in
      record {
        user_id = rw other l.user_id;
        room_id = rw other l.room_id;
        closed = rw other l.closed;
        made = omega (arith, made);
      }

  room_listed : All (IsLive k e) joined_room.peers
  room_listed = elim (Option-cases (lookup k e.rooms)) [
    | inl h ↦ rw h tt
    | inr (r, h) ↦ rw h (i.listed k r h)
  ]

  room_tracks :
      (v t : ℕ)
      → lookup v joined_room.tracks ≡ some t
      → (q : ℕ) × (lookup v joined_room.peers ≡ some q)
  unfolding lookup
  room_tracks v t g = elim (Option-cases (lookup k e.rooms)) [
    | inl h ↦ cc (rw h at g)
    | inr (r, h) ↦ rw h (i.tracks k v t r h (rw h at g))
  ]

  room_senders :
      (v q s : ℕ)
      → lookup v joined_room.peers ≡ some q
      → member s (e.store q).senders ≡ true
      → (t : ℕ) × (lookup s joined_room.tracks ≡ some t)
  unfolding lookup
  room_senders v q s g m = elim (Option-cases (lookup k e.rooms)) [
    | inl h ↦ cc (rw h at g)
    | inr (r, h) ↦ rw h (i.senders k v q s r h (rw h at g) m)
  ]

  room_at :
      (j : ℕ) (r : Room)
      → lookup j e₁.rooms ≡ some r
      → ((k ≡ j) × (record joined_room { peers = insert u e.count joined_room.peers } ≡ r))
        ⊎ ((k == j ≡ false) × (lookup j e.rooms ≡ some r))
  room_at j r h =
      let new : Room = record joined_room { peers = insert u e.count joined_room.peers } in
      let at = sym (lookup-insert k j new e.rooms) ∙ h in
      elim (Bool-cases (k == j)) [
        | inr other ↦ inr (other, rw other at at)
        | inl here ↦ inl (ground arith, ground (arith, (rw here at at)))
      ]

  peer_at :
      (v q : ℕ)
      → lookup v (insert u e.count joined_room.peers) ≡ some q
      → ((u ≡ v) × (e.count ≡ q)) ⊎ (lookup v joined_room.peers ≡ some q)
  peer_at v q h =
      let at = sym (lookup-insert u v e.count joined_room.peers) ∙ h in
      elim (Bool-cases (u == v)) [
        | inr other ↦ inr (rw other at at)
        | inl here ↦ inl (ground arith, ground (arith, (rw here at at)))
      ]

  old_senders :
      (q s : ℕ) → member s (e₁.store q).senders ≡ true → member s (e.store q).senders ≡ true
  unfolding member any
  old_senders q s m = elim (Bool-cases (e.count == q)) [
    | inr other ↦ rw other at m
    | inl here ↦ cc (rw here at m)
  ]

  new_listed : All (IsLive k e₁) (insert u e.count joined_room.peers)
  unfolding insert
  new_listed = (
    record {
      user_id = rw (==-refl e.count) refl;
      room_id = rw (==-refl e.count) refl;
      closed = rw (==-refl e.count) refl;
      made = omega arith;
    },
    All_imp (IsLive k e) (IsLive k e₁) (erase u joined_room.peers) (moved k)
        (All-erase (IsLive k e) u joined_room.peers room_listed),
  )

  new_tracks :
      (v t : ℕ)
      → lookup v joined_room.tracks ≡ some t
      → (q : ℕ) × (lookup v (insert u e.count joined_room.peers) ≡ some q)
  new_tracks v t g = elim (Bool-cases (u == v)) [
    | inl here ↦ (e.count, rw (lookup-insert u v e.count joined_room.peers, here) refl)
    | inr other ↦
        let (q, g') = room_tracks v t g in
        (q, rw (lookup-insert u v e.count joined_room.peers, other) g')
  ]

  new_senders :
      (v q s : ℕ)
      → lookup v (insert u e.count joined_room.peers) ≡ some q
      → member s (e₁.store q).senders ≡ true
      → (t : ℕ) × (lookup s joined_room.tracks ≡ some t)
  unfolding member any
  new_senders v q s g m = elim (peer_at v q g) [
    | inr g' ↦ room_senders v q s g' (old_senders q s m)
    | inl (_, same) ↦ cc (rw (← same, ==-refl e.count) at m)
  ]

  pub join-Inv : Inv (join k u e)
  unfolding join insert
  join-Inv = record {
    listed = λ j r h. elim (room_at j r h) [
      | inr (_, h') ↦ All_imp (IsLive j e) (IsLive j e₁) r.peers (moved j) (i.listed j r h')
      | inl (here, is) ↦ rw (← is) (
          subst (λ (n : ℕ). All (IsLive n e₁) (insert u e.count joined_room.peers)) here new_listed)
    ];
    tracks = λ j v t r h g. elim (room_at j r h) [
      | inr (_, h') ↦ i.tracks j v t r h' g
      | inl (_, is) ↦ rw (← is) (new_tracks v t (rw (← is) at g))
    ];
    senders = λ j v q s r h g m. elim (room_at j r h) [
      | inr (_, h') ↦ i.senders j v q s r h' g (old_senders q s m)
      | inl (_, is) ↦ rw (← is) (new_senders v q s (rw (← is) at g) m)
    ];
    voices = λ q. elim (Bool-cases (e.count == q)) [
      | inl here ↦ rw here refl
      | inr other ↦ rw other (i.voices q)
    ];
    nonempty = λ j r h. elim (room_at j r h) [
      | inr (_, h') ↦ i.nonempty j r h'
      | inl (_, is) ↦ rw (← is) refl
    ];
  }
