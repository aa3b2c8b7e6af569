-- ===== src/Ws/Registration.antt =====
-- The hub's map: one entry for a user, its address a connection of that user.
use Prim.Native.String.{String}
use nexusroom.Base.{
  ℕ, ◌≤◌, ◌≡◌, ◌≢◌, refl, sym, ap, ◌∙◌, inl, inr, none, some, List, [], ◌∷◌, ◌==◌, if◌then◌else◌,
  length, All, arith, Bool-cases, Option-cases,
}
use nexusroom.Ws.{Client, Payload, capacity}
use nexusroom.Ws.Hub.{Hub, lookup, erase, deliver_all, broadcast_to_room}
use nexusroom.Ws.Delivery.{deliver_all-Keeps, Distinct}

abbrev pub DistinctKeys : List (ℕ × ℕ) → Type 0
DistinctKeys [] = Unit {0}
DistinctKeys ((u, p) ∷ m) = All (λ (e : ℕ × ℕ). e.0 ≢ u) m × DistinctKeys m

-- A user has one entry, which holds a connection of his; no queue is over its capacity.
pub record Inv (h : Hub) : Type 0 where
  pub keys : DistinctKeys h.clients
  pub owners : All (λ (e : ℕ × ℕ). (h.store e.1).user_id ≡ e.0) h.clients
  pub bounded : (q : ℕ) → length (h.store q).queue ≤ capacity

module _ (P : ℕ × ℕ → Type 0) where
  pub All-erase : (u : ℕ) (m : List (ℕ × ℕ)) → All P m → All P (erase u m)
  unfolding erase
  All-erase u [] h = tt
  All-erase u ((v, p) ∷ m) (h, hs) = elim (Bool-cases (v == u)) [
    | inl e ↦ rw e (All-erase u m hs)
    | inr e ↦ rw e (h, All-erase u m hs)
  ]

pub erase-DistinctKeys : (u : ℕ) (m : List (ℕ × ℕ)) → DistinctKeys m → DistinctKeys (erase u m)
unfolding erase
erase-DistinctKeys u [] d = tt
erase-DistinctKeys u ((v, p) ∷ m) (apart, d) = elim (Bool-cases (v == u)) [
  | inl e ↦ rw e (erase-DistinctKeys u m d)
  | inr e ↦ rw e (All-erase (λ e. e.0 ≢ v) u m apart, erase-DistinctKeys u m d)
]

pub erase_absent : (u : ℕ) (m : List (ℕ × ℕ)) → All (λ (e : ℕ × ℕ). e.0 ≢ u) (erase u m)
unfolding erase
erase_absent u [] = tt
erase_absent u ((v, p) ∷ m) = elim (Bool-cases (v == u)) [
  | inl e ↦ rw e (erase_absent u m)
  | inr e ↦ rw e (ground arith, erase_absent u m)
]

pub lookup-erase :
    (u v : ℕ) (m : List (ℕ × ℕ)) → lookup v (erase u m) ≡ (if u == v then none else lookup v m)
unfolding lookup erase
lookup-erase u v [] = ground arith
lookup-erase u v ((w, p) ∷ m) = ground (arith, lookup-erase u v m)

-- In a hub that meets the invariant no address is listed twice.
owners-apart :
    (store : ℕ → Client) (u p : ℕ) (m : List (ℕ × ℕ))
    → (store p).user_id ≡ u
    → All (λ (e : ℕ × ℕ). (store e.1).user_id ≡ e.0) m
    → All (λ (e : ℕ × ℕ). e.0 ≢ u) m
    → All (λ (e : ℕ × ℕ). e.1 ≢ p) m
owners-apart store u p [] own owners apart = tt
owners-apart store u p ((v, q) ∷ m) own (o, os) (a, as') = (
  (λ e. a (sym o ∙ ap (λ (r : ℕ). (store r).user_id) e ∙ own)),
  owners-apart store u p m own os as',
)

owners-Distinct :
    (store : ℕ → Client) (m : List (ℕ × ℕ))
    → All (λ (e : ℕ × ℕ). (store e.1).user_id ≡ e.0) m
    → DistinctKeys m
    → Distinct m
owners-Distinct store [] os d = tt
owners-Distinct store ((u, p) ∷ m) (o, os) (a, d) =
    (owners-apart store u p m o os a, owners-Distinct store m os d)

pub Inv-Distinct : {h : Hub} → Inv h → Distinct h.clients
Inv-Distinct {h} v = owners-Distinct h.store h.clients v.owners v.keys

pub owners-Keeps :
    (s t : ℕ → Client) (m : List (ℕ × ℕ))
    → ((q : ℕ) → (t q).user_id ≡ (s q).user_id)
    → All (λ (e : ℕ × ℕ). (s e.1).user_id ≡ e.0) m
    → All (λ (e : ℕ × ℕ). (t e.1).user_id ≡ e.0) m
owners-Keeps s t [] same os = tt
owners-Keeps s t ((u, p) ∷ m) same (o, os) = (same p ∙ o, owners-Keeps s t m same os)

-- A change of the store that keeps the users and the bounds of the queues.
pub store-Inv :
    (h h' : Hub)
    → h'.clients ≡ h.clients
    → ((q : ℕ) → (h'.store q).user_id ≡ (h.store q).user_id)
    → ((q : ℕ) → length (h'.store q).queue ≤ capacity)
    → Inv h
    → Inv h'
store-Inv h h' same users bounds v = record {
  keys = rw same v.keys;
  owners = rw same (owners-Keeps h.store h'.store h.clients users v.owners);
  bounded = bounds;
}

pub broadcast_to_room-Inv :
    (room_id : ℕ) (event : String) (payload : Payload) (exclude : ℕ) (h h' : Hub)
    → broadcast_to_room room_id event payload exclude h ≡ some h'
    → Inv h
    → Inv h'
unfolding broadcast_to_room
broadcast_to_room-Inv room_id event payload exclude h h' e v =
    elim (Option-cases (deliver_all room_id event payload exclude h.clients h.store)) [
      | inl f ↦ cc (rw f at e)
      | inr (store', f) ↦
          let k = deliver_all-Keeps room_id event payload exclude h.clients h.store store' f in
          let same : h' ≡ record h { store = store' } = sym (ground (arith, rw f at e)) in
          rw same (
            store-Inv h (record h { store = store' }) refl k.users (λ q. k.bounded q (v.bounded q))
              v)
    ]
