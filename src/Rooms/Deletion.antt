-- ===== src/Rooms/Deletion.antt =====
-- `RoomRepository.Delete`: one transaction over five tables.
use nexusroom.Base.{
  ℕ, ◌≡◌, refl, sym, ap, subst, ◌∙◌, ◌⊎◌, inl, inr, Bool, true, false, not, ◌==◌, filter,
  Bool-cases,
}
use nexusroom.Rooms.{
  Room, RoomMember, RoomIngress, Tables, Db, and_also, transaction, delete_members, delete_messages,
  delete_ingresses, delete_peers, delete_row, delete_room,
}
use nexusroom.Ws.Chat.{Message}
use nexusroom.Wg.{WgPeer}

module _ (T : Tables) where
  -- The rows of the room are gone from all five tables, and the others are still there.
  pub record IsDeleted (id : ℕ) (d d' : Db T) : Type 0 where
    pub rooms :
        T.rooms.rows d'.rooms ≡ filter (λ (r : Room). not (r.id == id)) (T.rooms.rows d.rooms)
    pub members :
        T.members.rows d'.members
        ≡ filter (λ (m : RoomMember). not (m.room_id == id)) (T.members.rows d.members)
    pub messages :
        T.messages.rows d'.messages
        ≡ filter (λ (m : Message). not (m.room_id == id)) (T.messages.rows d.messages)
    pub ingresses :
        T.ingresses.rows d'.ingresses
        ≡ filter (λ (i : RoomIngress). not (i.room_id == id)) (T.ingresses.rows d.ingresses)
    pub peers :
        T.peers.rows d'.peers
        ≡ filter (λ (p : WgPeer). not (p.room_id == id)) (T.peers.rows d.peers)

  and_also-true :
      (r : Bool × Db T) (k : Db T → Bool × Db T)
      → (and_also T r k).0 ≡ true
      → (r.0 ≡ true) × (and_also T r k ≡ k r.1)
  and_also-true (true, d) k e = (refl, refl)
  and_also-true (false, d) k e = cc

  transaction-false : (d : Db T) (r : Bool × Db T) → r.0 ≡ false → transaction T d r ≡ (false, d)
  transaction-false d (true, d') e = cc
  transaction-false d (false, d') e = refl

  transaction-true : (d : Db T) (r : Bool × Db T) → r.0 ≡ true → transaction T d r ≡ r
  transaction-true d (true, d') e = refl
  transaction-true d (false, d') e = cc

  abbrev body : ℕ → Db T → Bool × Db T
  body id d = and_also T (delete_members T id d) (λ d₁. and_also T (delete_messages T id d₁) (λ d₂.
      and_also T (delete_ingresses T id d₂)
        (λ d₃. and_also T (delete_peers T id d₃) (λ d₄. delete_row T id d₄))))

  body-IsDeleted : (id : ℕ) (d : Db T) → (body id d).0 ≡ true → IsDeleted id d (body id d).1
  body-IsDeleted id d e =
      let k₃ = λ (x : Db T). delete_row T id x in
      let k₂ = λ (x : Db T). and_also T (delete_peers T id x) k₃ in
      let k₁ = λ (x : Db T). and_also T (delete_ingresses T id x) k₂ in
      let k₀ = λ (x : Db T). and_also T (delete_messages T id x) k₁ in
      let d₁ = (delete_members T id d).1 in
      let d₂ = (delete_messages T id d₁).1 in
      let d₃ = (delete_ingresses T id d₂).1 in
      let d₄ = (delete_peers T id d₃).1 in
      let (ok₀, s₀) = and_also-true (delete_members T id d) k₀ e in
      let e₁ : (k₀ d₁).0 ≡ true = ap (λ (r : Bool × Db T). r.0) (sym s₀) ∙ e in
      let (ok₁, s₁) = and_also-true (delete_messages T id d₁) k₁ e₁ in
      let e₂ : (k₁ d₂).0 ≡ true = ap (λ (r : Bool × Db T). r.0) (sym s₁) ∙ e₁ in
      let (ok₂, s₂) = and_also-true (delete_ingresses T id d₂) k₂ e₂ in
      let e₃ : (k₂ d₃).0 ≡ true = ap (λ (r : Bool × Db T). r.0) (sym s₂) ∙ e₂ in
      let (ok₃, s₃) = and_also-true (delete_peers T id d₃) k₃ e₃ in
      let e₄ : (k₃ d₄).0 ≡ true = ap (λ (r : Bool × Db T). r.0) (sym s₃) ∙ e₃ in
      let whole : (body id d).1 ≡ (delete_row T id d₄).1 =
        ap (λ (r : Bool × Db T). r.1) (s₀ ∙ s₁ ∙ s₂ ∙ s₃) in
      subst (IsDeleted id d) (sym whole) (record {
        rooms = T.rooms.delete_ok (λ r. r.id == id) d.rooms e₄;
        members = T.members.delete_ok (λ m. m.room_id == id) d.members ok₀;
        messages = T.messages.delete_ok (λ m. m.room_id == id) d.messages ok₁;
        ingresses = T.ingresses.delete_ok (λ i. i.room_id == id) d.ingresses ok₂;
        peers = T.peers.delete_ok (λ p. p.room_id == id) d.peers ok₃;
      })

  -- The deletion of a room either succeeds, and then exactly the room's rows are gone from the five
  -- tables, or it fails, whichever of its statements does, and then the whole database is as it was.
  pub delete_room-IsDeleted :
      (id : ℕ) (d : Db T)
      → (((delete_room T id d).0 ≡ true) × IsDeleted id d (delete_room T id d).1)
        ⊎ (((delete_room T id d).0 ≡ false) × ((delete_room T id d).1 ≡ d))
  unfolding delete_room
  delete_room-IsDeleted id d = elim (Bool-cases (body id d).0) [
    | inl e ↦
        let whole = transaction-true d (body id d) e in
        inl (
          ap (λ (r : Bool × Db T). r.0) whole ∙ e,
          subst (IsDeleted id d) (ap (λ (r : Bool × Db T). r.1) (sym whole))
              (body-IsDeleted id d e),
        )
    | inr e ↦
        let whole = transaction-false d (body id d) e in
        inr (ap (λ (r : Bool × Db T). r.0) whole, ap (λ (r : Bool × Db T). r.1) whole)
  ]
