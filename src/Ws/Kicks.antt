-- ===== src/Ws/Kicks.antt =====
-- `KickUserFromRoom`: what the hub tells the target and the room, and what it changes.
use Prim.Native.String.{String}
use nexusroom.Base.{
  ℕ, ◌≡◌, refl, subst, ap, ◌∙◌, ◌⊎◌, inl, inr, Bool, true, false, not, ◌&&◌, Option, none, some,
  List, [], ◌∷◌, ◌++◌, ◌==◌, if◌then◌else◌, ltb, any, filter, length, arith, Bool-cases,
  Option-cases, ==-refl,
}
use nexusroom.Ws.{
  Client, Envelope, Payload, kicked, member_leave, is_in_room, leave_room, send_event_to_room,
}
use nexusroom.Ws.Hub.{
  Hub, lookup, put, put?, post, drop_room, and_then, send_to_user, kick_user_from_room,
}

-- The queue and whether the channel is closed, after one message more.
abbrev pub queue_after : Client → Envelope → List Envelope × Bool
queue_after c m = if ltb (length c.queue) 256 then (c.queue ++ m ∷ [], false) else (c.queue, true)

-- A connection that was told of the kick: it has the message behind its queue, or was closed where
-- that was full; it is in the rooms that it was in but for that one.
pub record IsParted (room_id : ℕ) (reason : String) (c c' : Client) : Type 0 where
  pub was_open : c.closed ≡ false
  pub user : c'.user_id ≡ c.user_id
  pub rooms : (r : ℕ) → is_in_room c' r ≡ (not (r == room_id) && is_in_room c r)
  pub notified :
      (c'.queue, c'.closed)
      ≡ queue_after c (record { event = "room.kicked"; room_id = 0; payload = kicked reason })

-- The room waits to be told of the leave, without the target. A target that is offline is not told;
-- of one that is online the connection is parted. No other connection is changed.
pub record IsKicked (room_id target : ℕ) (reason : String) (h h' : Hub) : Type 0 where
  pub clients : h'.clients ≡ h.clients
  pub calls : h'.calls ≡ h.calls
  pub waiting :
      h'.waiting
      ≡ h.waiting
        ++ record {
          room_id = room_id;
          event = "room.member_leave";
          payload = member_leave target room_id;
          exclude_user_id = target;
        }
          ∷ []
  pub connections :
      ((lookup target h.clients ≡ none) × ((q : ℕ) → h'.store q ≡ h.store q))
      ⊎ ((p : ℕ) × (lookup target h.clients ≡ some p)
          × IsParted room_id reason (h.store p) (h'.store p)
          × ((q : ℕ) → (q ≡ p) ⊎ (h'.store q ≡ h.store q)))

any-filter :
    (room_id r : ℕ) (rs : List ℕ)
    → any (λ (s : ℕ). s == r) (filter (λ (s : ℕ). not (s == room_id)) rs)
      ≡ (not (r == room_id) && any (λ (s : ℕ). s == r) rs)
unfolding any filter
any-filter room_id r [] = ground arith
any-filter room_id r (s ∷ rs) = ground (arith, any-filter room_id r rs)

sent_lem :
    (c c' : Client) (event : String) (payload : Payload)
    → send_event_to_room c event payload 0 ≡ some c'
    → (c.closed ≡ false)
      × (c'.user_id ≡ c.user_id)
      × (c'.rooms ≡ c.rooms)
      × ((c'.queue, c'.closed)
          ≡ queue_after c (record { event = event; room_id = 0; payload = payload }))
unfolding send_event_to_room
sent_lem c c' event payload e = (ground arith, ground arith, ground arith, ground arith)

leave_room-IsParted :
    (room_id : ℕ) (reason : String) (c c' : Client)
    → send_event_to_room c "room.kicked" (kicked reason) 0 ≡ some c'
    → IsParted room_id reason c (leave_room c' room_id)
unfolding leave_room is_in_room
leave_room-IsParted room_id reason c c' e =
    let (was_open, user, rooms, notified) = sent_lem c c' "room.kicked" (kicked reason) e in
    record {
      was_open = was_open;
      user = user;
      rooms = λ r.
          any-filter room_id r c'.rooms
          ∙ ap (λ (rs : List ℕ). not (r == room_id) && any (λ (s : ℕ). s == r) rs) rooms;
      notified = notified;
    }

abbrev value : Hub → Option Hub → Hub
value h none = h
value h (some h') = h'

module _ (room_id target : ℕ) (reason : String) (h : Hub) where
  abbrev posted : Hub → Hub
  posted h' = post room_id "room.member_leave" (member_leave target room_id) target h'

  offline : lookup target h.clients ≡ none → IsKicked room_id target reason h (posted h)
  unfolding post
  offline f = record {
    clients = refl;
    calls = refl;
    waiting = refl;
    connections = inl (f, λ q. refl);
  }

  -- The connection at p, after the message.
  online :
      (p : ℕ) (c' : Client)
      → lookup target h.clients ≡ some p
      → send_event_to_room (h.store p) "room.kicked" (kicked reason) 0 ≡ some c'
      → IsKicked room_id target reason h (drop_room room_id (some p) (posted (put h p c')))
  unfolding post
  online p c' f e = record {
    clients = refl;
    calls = refl;
    waiting = refl;
    connections = inr (
      p,
      f,
      rw (==-refl p) (leave_room-IsParted room_id reason (h.store p) c' e),
      λ q. elim (Bool-cases (p == q)) [
        | inl same ↦ inl (ground arith)
        | inr other ↦ inr (rw other refl)
      ],
    );
  }

  told :
      (p : ℕ) (o : Option Client) (h' : Hub)
      → lookup target h.clients ≡ some p
      → send_event_to_room (h.store p) "room.kicked" (kicked reason) 0 ≡ o
      → and_then
          (put? h p o)
          (λ h₁. some (drop_room room_id (lookup target (posted h₁).clients) (posted h₁)))
        ≡ some h'
      → IsKicked room_id target reason h h'
  unfolding post
  told p none h' f e k = cc
  told p (some c') h' f e k =
      let same : some (drop_room room_id (some p) (posted (put h p c'))) ≡ some h' = rw f at k in
      subst (IsKicked room_id target reason h) (ap (value h) same) (online p c' f e)

  absent :
      (h' : Hub)
      → lookup target h.clients ≡ none
      → some (drop_room room_id (lookup target (posted h).clients) (posted h)) ≡ some h'
      → IsKicked room_id target reason h h'
  unfolding post
  absent h' f k =
      let same : some (drop_room room_id none (posted h)) ≡ some h' = rw f at k in
      subst (IsKicked room_id target reason h) (ap (value h) same) (offline f)

  pub kick_user_from_room-IsKicked :
      (h' : Hub)
      → kick_user_from_room room_id target reason h ≡ some h'
      → IsKicked room_id target reason h h'
  unfolding kick_user_from_room send_to_user
  kick_user_from_room-IsKicked h' e = elim (Option-cases (lookup target h.clients)) [
    | inl f ↦ absent h' f (rw f at e)
    | inr (p, f) ↦ told p _ h' f refl (rw f at e)
  ]
