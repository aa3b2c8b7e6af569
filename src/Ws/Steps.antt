-- ===== src/Ws/Steps.antt =====
-- The hub's events, one after the other.
use Prim.Native.String.{String}
use nexusroom.Base.{ℕ, ◌≤◌, ◌≡◌, refl, Bool, Option, some, List, [], ◌∷◌, length, arith}
use nexusroom.Ws.{Client, Payload, Envelope, leave_room, join_room}
use nexusroom.Ws.Hub.{
  Hub, put, and_then, register, unregister, take_broadcast, run_cleanup, send_to_user,
  kick_user_from_room, post,
}
use nexusroom.Ws.Delivery.{and_then-some}
use nexusroom.Ws.Registration.{Inv}
use nexusroom.Ws.Cases.{
  some-Inv, register-Inv, unregister-Inv, take_from-Inv, cleanup-Inv, post-Inv, send_entry-Inv,
  kick-Inv, put-Inv, leave_room-Inv,
}

-- What happens to the hub: the cases of its loop, the end of a delayed cleanup, calls from other
-- goroutines, a connection that enters or leaves a room, and a write pump that takes a message.
pub data Event : Type 0 where
  registers unregisters : (p : ℕ) → Event
  takes : Event
  cleans : (room_id user_id : ℕ) (succeeds : Bool) → Event
  posts : (room_id : ℕ) (event : String) (payload : Payload) (exclude : ℕ) → Event
  sends : (user_id : ℕ) (event : String) (payload : Payload) (room_id : ℕ) → Event
  kicks : (room_id user_id : ℕ) (reason : String) → Event
  joins leaves : (p room_id : ℕ) → Event
  writes : (p : ℕ) → Event

abbrev pub tail_of : List Envelope → List Envelope
tail_of [] = []
tail_of (m ∷ ms) = ms

-- `WritePump` takes the first message of the queue.
unfoldable pub write_message : Client → Client
write_message c = record c { queue = tail_of c.queue }

unfoldable pub step : Event → Hub → Option Hub
unfolding register unregister take_broadcast run_cleanup post send_to_user kick_user_from_room
    join_room leave_room write_message
step (registers p) h = register p h
step (unregisters p) h = unregister p h
step takes h = take_broadcast h
step (cleans room_id user_id succeeds) h = run_cleanup room_id user_id succeeds h
step (posts room_id event payload exclude) h = some (post room_id event payload exclude h)
step (sends user_id event payload room_id) h = send_to_user user_id event payload room_id h
step (kicks room_id user_id reason) h = kick_user_from_room room_id user_id reason h
step (joins p room_id) h = some (put h p (join_room (h.store p) room_id))
step (leaves p room_id) h = some (put h p (leave_room (h.store p) room_id))
step (writes p) h = some (put h p (write_message (h.store p)))

join_room_keeps :
    (c : Client) (room_id : ℕ)
    → ((join_room c room_id).user_id ≡ c.user_id) × ((join_room c room_id).queue ≡ c.queue)
unfolding join_room
join_room_keeps c room_id = ground arith

length-tail_of : (ms : List Envelope) → length (tail_of ms) ≤ length ms
length-tail_of [] = omega arith
length-tail_of (m ∷ ms) = omega arith

step-Inv : (e : Event) (h h' : Hub) → step e h ≡ some h' → Inv h → Inv h'
unfolding step
step-Inv (registers p) h h' e v = register-Inv p h h' e v
step-Inv (unregisters p) h h' e v = unregister-Inv p h h' e v
step-Inv takes h h' e v = take_from-Inv h.waiting h h' e v
step-Inv (cleans room_id u succeeds) h h' e v = cleanup-Inv _ room_id u succeeds h h' e v
step-Inv (posts room_id event payload exclude) h h' e v =
    some-Inv _ h' e (post-Inv room_id event payload exclude h v)
step-Inv (sends u event payload room_id) h h' e v = send_entry-Inv _ event payload room_id h h' e v
step-Inv (kicks room_id u reason) h h' e v = kick-Inv room_id u reason h h' e v
step-Inv (joins p room_id) h h' e v =
    let (own, same) = join_room_keeps (h.store p) room_id in
    some-Inv _ h' e (put-Inv h p _ own (rw same (v.bounded p)) v)
step-Inv (leaves p room_id) h h' e v = some-Inv _ h' e (leave_room-Inv p room_id h v)
step-Inv (writes p) h h' e v = some-Inv _ h' e (
    put-Inv h p (write_message (h.store p)) refl
      (omega (arith, length-tail_of (h.store p).queue, v.bounded p)) v)

unfoldable pub run_events : List Event → Hub → Option Hub
run_events [] h = some h
run_events (e ∷ es) h = and_then (step e h) (run_events es)

-- Along any sequence of events of the hub that does not end in a panic, a user has one entry in
-- the map, the entry holds a connection of that user, and no queue is over its capacity.
pub run_events-Inv : (es : List Event) (h h' : Hub) → run_events es h ≡ some h' → Inv h → Inv h'
unfolding run_events
run_events-Inv [] h h' e v = some-Inv h h' e v
run_events-Inv (ev ∷ es) h h' e v =
    let (mid, first, rest) = and_then-some (step ev h) (run_events es) h' e in
    run_events-Inv es mid h' rest (step-Inv ev h mid first v)
