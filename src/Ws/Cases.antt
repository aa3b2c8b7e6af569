-- ===== src/Ws/Cases.antt =====
-- The cases of the hub's loop and its other operations, and the invariant of the hub's map.
use Prim.Native.String.{String}
use nexusroom.Base.{
  ℕ, ◌≤◌, ◌≡◌, refl, sym, subst, inl, inr, Bool, true, false, Option, none, some, List, [], ◌∷◌,
  ◌++◌, if◌then◌else◌, length, length-append, arith, Bool-cases, Option-cases,
}
use nexusroom.Ws.{Client, Payload, capacity, send_event_to_room, send_event, close_send, leave_room}
use nexusroom.Ws.Hub.{
  Hub, Call, voice_leave_user, lookup, erase, insert, put, put?, is_current, drop_room, register,
  unregister, notify_rooms, schedule_wg_peer_cleanup, BroadcastMessage, take_from, announce_cleanup,
  cleanup_if, send_entry, kick_user_from_room, post,
}
use nexusroom.Ws.Delivery.{and_then-some}
use nexusroom.Ws.Registration.{
  Inv, store-Inv, broadcast_to_room-Inv, All-erase, erase-DistinctKeys, erase_absent,
}

pub put-Inv :
    (h : Hub) (p : ℕ) (c : Client)
    → c.user_id ≡ (h.store p).user_id
    → length c.queue ≤ capacity
    → Inv h
    → Inv (put h p c)
put-Inv h p c own bound v =
    store-Inv h (put h p c) refl (λ q. ground arith) (λ q. ground (arith, v.bounded q)) v

send_keeps :
    (c c' : Client) (event : String) (payload : Payload) (room_id : ℕ)
    → send_event_to_room c event payload room_id ≡ some c'
    → length c.queue ≤ capacity
    → (c'.user_id ≡ c.user_id) × (length c'.queue ≤ capacity)
unfolding send_event_to_room
send_keeps c c' event payload room_id e b = ground (
  arith,
  length-append c.queue (record { event = event; room_id = room_id; payload = payload } ∷ []),
)

put?-Inv :
    (h h' : Hub) (p : ℕ) (event : String) (payload : Payload) (room_id : ℕ)
    → put? h p (send_event_to_room (h.store p) event payload room_id) ≡ some h'
    → Inv h
    → Inv h'
put?-Inv h h' p event payload room_id e v =
    elim (Option-cases (send_event_to_room (h.store p) event payload room_id)) [
      | inl f ↦ cc (rw f at e)
      | inr (c, f) ↦
          let (own, bound) = send_keeps (h.store p) c event payload room_id f (v.bounded p) in
          let same : h' ≡ put h p c = sym (ground (arith, rw f at e)) in
          rw same (put-Inv h p c own bound v)
    ]

insert-Inv :
    (h : Hub) (p : ℕ) → Inv h → Inv (record h { clients = insert (h.store p).user_id p h.clients })
unfolding insert
insert-Inv h p v = record {
  keys = (
    erase_absent (h.store p).user_id h.clients,
    erase-DistinctKeys (h.store p).user_id h.clients v.keys,
  );
  owners =
      (refl, All-erase (λ e. (h.store e.1).user_id ≡ e.0) (h.store p).user_id h.clients v.owners);
  bounded = v.bounded;
}

pub register-Inv : (p : ℕ) (h h' : Hub) → register p h ≡ some h' → Inv h → Inv h'
unfolding register send_event
register-Inv p h h' e v = put?-Inv _ h' p _ _ 0 e (insert-Inv h p v)

pub some-Inv : (h h' : Hub) → some h ≡ some h' → Inv h → Inv h'
some-Inv h h' e v = let same : h ≡ h' = ground arith in subst Inv same v

if-Inv : (b : Bool) (h k : Hub) → Inv h → Inv k → Inv (if b then h else k)
if-Inv true h k v w = v
if-Inv false h k v w = w

calls-Inv : (calls : List Call) (h : Hub) → Inv h → Inv (record h { calls = calls })
calls-Inv calls h v = record { keys = v.keys; owners = v.owners; bounded = v.bounded }

schedule-Inv : (room_id u : ℕ) (h : Hub) → Inv h → Inv (schedule_wg_peer_cleanup room_id u h)
unfolding schedule_wg_peer_cleanup
schedule-Inv room_id u h v = if-Inv h.has_wg _ h (calls-Inv _ h v) v

notify_rooms-Inv :
    (u : ℕ) (rooms : List ℕ) (h h' : Hub) → notify_rooms u rooms h ≡ some h' → Inv h → Inv h'
unfolding notify_rooms
notify_rooms-Inv u [] h h' e v = some-Inv h h' e v
notify_rooms-Inv u (room_id ∷ rooms) h h' e v =
    let (h₂, first, rest) = and_then-some _ (notify_rooms u rooms) h' e in
    let (h₁, sent, scheduled) = and_then-some _ _ h₂ first in
    notify_rooms-Inv u rooms h₂ h' rest (
      some-Inv (schedule_wg_peer_cleanup room_id u h₁) h₂ scheduled
        (schedule-Inv room_id u h₁ (broadcast_to_room-Inv room_id _ _ u h h₁ sent v)))

-- The hub before the connections of a user are told apart: his voice session is ended.
abbrev leave_voice : ℕ → Hub → Hub
leave_voice u h = if h.has_voice then record h { calls = h.calls ++ voice_leave_user u ∷ [] } else h

leave_voice-Inv : (u : ℕ) (h : Hub) → Inv h → Inv (leave_voice u h)
leave_voice-Inv u h v = if-Inv h.has_voice _ h (calls-Inv _ h v) v

close-Inv : (h : Hub) (p : ℕ) → Inv h → Inv (put h p (close_send (h.store p)))
close-Inv h p v = put-Inv h p (close_send (h.store p)) refl (v.bounded p) v

erase-Inv : (u : ℕ) (h : Hub) → Inv h → Inv (record h { clients = erase u h.clients })
erase-Inv u h v = record {
  keys = erase-DistinctKeys u h.clients v.keys;
  owners = All-erase (λ e. (h.store e.1).user_id ≡ e.0) u h.clients v.owners;
  bounded = v.bounded;
}

pub unregister-Inv : (p : ℕ) (h h' : Hub) → unregister p h ≡ some h' → Inv h → Inv h'
unfolding unregister
unregister-Inv p h h' e v =
    let u = (h.store p).user_id in
    let h₁ = leave_voice u h in
    let v₁ = leave_voice-Inv u h v in
    elim (Bool-cases (is_current (lookup u h₁.clients) p)) [
      | inl c ↦
          notify_rooms-Inv u (h₁.store p).rooms
            (record (put h₁ p (close_send (h₁.store p))) { clients = erase u h₁.clients }) h'
            (rw c at e) (erase-Inv u (put h₁ p (close_send (h₁.store p))) (close-Inv h₁ p v₁))
      | inr c ↦ some-Inv (put h₁ p (close_send (h₁.store p))) h' (rw c at e) (close-Inv h₁ p v₁)
    ]

pub take_from-Inv :
    (ms : List BroadcastMessage) (h h' : Hub) → take_from ms h ≡ some h' → Inv h → Inv h'
take_from-Inv [] h h' e v = some-Inv h h' e v
take_from-Inv (m ∷ ms) h h' e v =
    broadcast_to_room-Inv m.room_id m.event m.payload m.exclude_user_id (record h { waiting = ms })
      h' e (record { keys = v.keys; owners = v.owners; bounded = v.bounded })

announce-Inv :
    (room_id u : ℕ) (succeeds : Bool) (h h' : Hub)
    → announce_cleanup room_id u succeeds h ≡ some h'
    → Inv h
    → Inv h'
announce-Inv room_id u true h h' e v = broadcast_to_room-Inv room_id _ _ u h h' e v
announce-Inv room_id u false h h' e v = some-Inv h h' e v

pub cleanup-Inv :
    (b : Bool) (room_id u : ℕ) (succeeds : Bool) (h h' : Hub)
    → cleanup_if b room_id u succeeds h ≡ some h'
    → Inv h
    → Inv h'
cleanup-Inv true room_id u succeeds h h' e v = some-Inv h h' e v
cleanup-Inv false room_id u succeeds h h' e v =
    announce-Inv room_id u succeeds _ h' e (calls-Inv _ h v)

pub send_entry-Inv :
    (o : Option ℕ) (event : String) (payload : Payload) (room_id : ℕ) (h h' : Hub)
    → send_entry o event payload room_id h ≡ some h'
    → Inv h
    → Inv h'
send_entry-Inv none event payload room_id h h' e v = some-Inv h h' e v
send_entry-Inv (some p) event payload room_id h h' e v = put?-Inv h h' p event payload room_id e v

pub leave_room-Inv :
    (p room_id : ℕ) (h : Hub) → Inv h → Inv (put h p (leave_room (h.store p) room_id))
unfolding leave_room
leave_room-Inv p room_id h v = put-Inv h p (leave_room (h.store p) room_id) refl (v.bounded p) v

drop_room-Inv : (room_id : ℕ) (o : Option ℕ) (h : Hub) → Inv h → Inv (drop_room room_id o h)
drop_room-Inv room_id none h v = v
drop_room-Inv room_id (some p) h v = leave_room-Inv p room_id h v

pub post-Inv :
    (room_id : ℕ) (event : String) (payload : Payload) (exclude : ℕ) (h : Hub)
    → Inv h
    → Inv (post room_id event payload exclude h)
unfolding post
post-Inv room_id event payload exclude h v = record {
  keys = v.keys;
  owners = v.owners;
  bounded = v.bounded;
}

pub kick-Inv :
    (room_id u : ℕ) (reason : String) (h h' : Hub)
    → kick_user_from_room room_id u reason h ≡ some h'
    → Inv h
    → Inv h'
unfolding kick_user_from_room
kick-Inv room_id u reason h h' e v =
    let (h₁, sent, rest) = and_then-some _ _ h' e in
    let v₁ = send_entry-Inv (lookup u h.clients) _ _ 0 h h₁ sent v in
    some-Inv _ h' rest (drop_room-Inv room_id _ _ (post-Inv room_id _ _ u h₁ v₁))
