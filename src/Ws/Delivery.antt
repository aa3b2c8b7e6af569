-- ===== src/Ws/Delivery.antt =====
-- The loop of a broadcast over the hub's map, connection by connection.
use Prim.Native.String.{String}
use nexusroom.Base.{
  ℕ, ◌<◌, ◌≤◌, ◌≡◌, ◌≢◌, refl, ap, subst, ◌∙◌, inl, inr, Bool, true, false, not, ◌&&◌, Option, none,
  some, List, [], ◌∷◌, ◌++◌, ◌==◌, if◌then◌else◌, any, length, length-append, All, arith,
  Bool-cases,
}
use nexusroom.Ws.{Client, Envelope, Payload, capacity, is_in_room, send_event_to_room}
use nexusroom.Ws.Hub.{Hub, update, deliver, deliver_all, broadcast_to_room, and_then}

abbrev pub enqueue : Client → String → Payload → ℕ → Client
enqueue c event payload room_id = record c {
  queue = c.queue ++ record { event = event; room_id = room_id; payload = payload } ∷ [];
}

abbrev pub HasSpace : Client → Type 0
HasSpace c = (c.closed ≡ false) × (length c.queue < capacity)

-- No two entries of the map hold one address.
abbrev pub Distinct : List (ℕ × ℕ) → Type 0
Distinct [] = Unit {0}
Distinct ((u, p) ∷ m) = All (λ (e : ℕ × ℕ). e.1 ≢ p) m × Distinct m

-- The entry holds address q, and its user is in the room and not excluded.
abbrev pub addressed : ℕ → ℕ → (ℕ → Client) → ℕ → ℕ × ℕ → Bool
addressed room_id exclude store q (u, p) =
    p == q && (not (u == exclude) && is_in_room (store p) room_id)

pub and_then-some {ℓ} :
    {A : Type ℓ} (m : Option A) (k : A → Option A) (b : A)
    → and_then m k ≡ some b
    → (a : A) × (m ≡ some a) × (k a ≡ some b)
and_then-some none k b e = cc
and_then-some (some a) k b e = (a, refl, e)

module _ (room_id : ℕ) (event : String) (payload : Payload) (exclude : ℕ) where
  abbrev pub step : ℕ × ℕ → (ℕ → Client) → Option (ℕ → Client)
  step = deliver room_id event payload exclude

  -- What a delivery leaves as it was.
  pub record Keeps (store store' : ℕ → Client) : Type 0 where
    pub rooms : (q : ℕ) → (store' q).rooms ≡ (store q).rooms
    pub users : (q : ℕ) → (store' q).user_id ≡ (store q).user_id
    pub closed : (q : ℕ) → (store q).closed ≡ true → (store' q).closed ≡ true
    pub grows : (q : ℕ) → length (store q).queue ≤ length (store' q).queue
    pub bounded : (q : ℕ) → length (store q).queue ≤ capacity → length (store' q).queue ≤ capacity

  pub deliver-Keeps :
      (entry : ℕ × ℕ) (store store' : ℕ → Client)
      → step entry store ≡ some store'
      → Keeps store store'
  unfolding deliver send_event_to_room
  deliver-Keeps (u, p) store store' e = record {
    rooms = λ q. ground arith;
    users = λ q. ground arith;
    closed = λ q c. ground arith;
    grows = λ q. ground (arith, length-append (store p).queue (message ∷ []));
    bounded = λ q b. ground (arith, length-append (store p).queue (message ∷ []));
  }
    where
      message : Envelope
      message = record { event = event; room_id = room_id; payload = payload }

  Keeps-trans : {s t u : ℕ → Client} → Keeps s t → Keeps t u → Keeps s u
  Keeps-trans h k = record {
    rooms = λ q. k.rooms q ∙ h.rooms q;
    users = λ q. k.users q ∙ h.users q;
    closed = λ q c. k.closed q (h.closed q c);
    grows = λ q. omega (arith, h.grows q, k.grows q);
    bounded = λ q b. k.bounded q (h.bounded q b);
  }

  pub deliver_all-Keeps :
      (entries : List (ℕ × ℕ)) (store store' : ℕ → Client)
      → deliver_all room_id event payload exclude entries store ≡ some store'
      → Keeps store store'
  unfolding deliver_all
  deliver_all-Keeps [] store store' e =
      let same : store' ≡ store = ground arith in
      record {
        rooms = λ q. ap (λ (s : ℕ → Client). (s q).rooms) same;
        users = λ q. ap (λ (s : ℕ → Client). (s q).user_id) same;
        closed = λ q c. ap (λ (s : ℕ → Client). (s q).closed) same ∙ c;
        grows = λ q. omega (arith, ap (λ (s : ℕ → Client). length (s q).queue) same);
        bounded = λ q b. omega (arith, ap (λ (s : ℕ → Client). length (s q).queue) same);
      }
  deliver_all-Keeps (entry ∷ entries) store store' e =
      let (mid, first, rest) =
        and_then-some (step entry store) (deliver_all room_id event payload exclude entries) store'
          e in
      Keeps-trans (deliver-Keeps entry store mid first) (deliver_all-Keeps entries mid store' rest)

  abbrev after : ℕ × ℕ → (ℕ → Client) → ℕ → Client
  after (u, p) store =
      if not (u == exclude) && is_in_room (store p) room_id
      then update store p (enqueue (store p) event payload room_id)
      else store

  deliver_space :
      (u p : ℕ) (store : ℕ → Client)
      → HasSpace (store p)
      → step (u, p) store ≡ some (after (u, p) store)
  unfolding deliver send_event_to_room
  deliver_space u p store h = ground arith

  addressed-after :
      (e : ℕ × ℕ) (store : ℕ → Client) (q : ℕ) (entries : List (ℕ × ℕ))
      → any (addressed room_id exclude (after e store) q) entries
        ≡ any (addressed room_id exclude store q) entries
  unfolding any is_in_room
  addressed-after e store q [] = refl
  addressed-after (u, p) store q ((v, r) ∷ entries) =
      ground (arith, addressed-after (u, p) store q entries)

  not_addressed :
      (store : ℕ → Client) (q : ℕ) (entries : List (ℕ × ℕ))
      → All (λ (e : ℕ × ℕ). e.1 ≢ q) entries
      → any (addressed room_id exclude store q) entries ≡ false
  unfolding any
  not_addressed store q [] h = refl
  not_addressed store q ((v, r) ∷ entries) (apart, h) =
      ground (arith, not_addressed store q entries h)

  space-after :
      (u p : ℕ) (store : ℕ → Client) (entries : List (ℕ × ℕ))
      → All (λ (e : ℕ × ℕ). e.1 ≢ p) entries
      → All (λ (e : ℕ × ℕ). HasSpace (store e.1)) entries
      → All (λ (e : ℕ × ℕ). HasSpace (after (u, p) store e.1)) entries
  space-after u p store [] d h = tt
  space-after u p store ((v, r) ∷ entries) (apart, d) (space, h) =
      (ground arith, space-after u p store entries d h)

  -- What each address holds after a broadcast.
  abbrev pub received : List (ℕ × ℕ) → (ℕ → Client) → ℕ → Client
  received entries store q =
      if any (addressed room_id exclude store q) entries
      then enqueue (store q) event payload room_id
      else store q

  received-after :
      (u p : ℕ) (store : ℕ → Client) (entries : List (ℕ × ℕ)) (q : ℕ)
      → All (λ (e : ℕ × ℕ). e.1 ≢ p) entries
      → received entries (after (u, p) store) q ≡ received ((u, p) ∷ entries) store q
  unfolding any
  received-after u p store entries q d = elim (Bool-cases (p == q)) [
    | inl same ↦
        let e : p ≡ q = ground arith in
        let none_left =
          not_addressed store q entries
            (subst (λ (r : ℕ). All (λ (e : ℕ × ℕ). e.1 ≢ r) entries) e d) in
        rw (addressed-after (u, p) store q entries, none_left) (ground arith)
    | inr apart ↦ rw (addressed-after (u, p) store q entries) (ground arith)
  ]

  deliver_all_space :
      (entries : List (ℕ × ℕ)) (store : ℕ → Client)
      → Distinct entries
      → All (λ (e : ℕ × ℕ). HasSpace (store e.1)) entries
      → (store' : ℕ → Client) × (deliver_all room_id event payload exclude entries store
          ≡ some store')
        × ((q : ℕ) → store' q ≡ received entries store q)
  unfolding deliver_all any
  deliver_all_space [] store d h = (store, refl, λ q. refl)
  deliver_all_space ((u, p) ∷ entries) store (apart, d) (space, h) =
      let (store', done, same) =
        deliver_all_space entries (after (u, p) store) d (space-after u p store entries apart h) in
      (
        store',
        rw (deliver_space u p store space) done,
        λ q. same q ∙ received-after u p store entries q apart,
      )

-- Let the map hold each address once, and let every listed connection be open with room in its
-- queue. Then a broadcast succeeds, each address of a user in the room who is not excluded has the
-- message at the end of its queue once, every other connection is as it was, and so is the rest of
-- the hub.
pub broadcast_to_room_delivers :
    (room_id : ℕ) (event : String) (payload : Payload) (exclude : ℕ) (h : Hub)
    → Distinct h.clients
    → All (λ (e : ℕ × ℕ). HasSpace (h.store e.1)) h.clients
    → (store' : ℕ → Client) × (broadcast_to_room room_id event payload exclude h
        ≡ some (record h { store = store' }))
      × ((q : ℕ) → store' q ≡ received room_id event payload exclude h.clients h.store q)
unfolding broadcast_to_room
broadcast_to_room_delivers room_id event payload exclude h d space =
    let (store', done, same) =
      deliver_all_space room_id event payload exclude h.clients h.store d space in
    (store', rw done, same)
