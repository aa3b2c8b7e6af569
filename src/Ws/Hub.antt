-- ===== src/Ws/Hub.antt =====
-- server/internal/ws/hub.go: the hub's map and its event loop. `none` is a panic of the loop's
-- goroutine, which ends the server. Other components are called by their names in a log.
use Prim.Native.String.{String}
use nexusroom.Base.{
  ℕ, Bool, true, false, Option, none, some, List, [], ◌∷◌, ◌++◌, ◌==◌, if◌then◌else◌, length,
}
use nexusroom.Ws.{
  Client, Payload, RtcClientConfig, connected, member_leave, vlan_leave, kicked, is_in_room,
  leave_room, close_send, send_event, send_event_to_room,
}

-- What the hub asks of the voice engine and of the WireGuard coordinator.
pub data Call : Type 0 where
  voice_leave_user : (user_id : ℕ) → Call
  voice_leave : (room_id user_id : ℕ) → Call
  voice_set_muted : (room_id user_id : ℕ) (muted : Bool) → Call
  voice_set_speaking : (room_id user_id : ℕ) (speaking : Bool) → Call
  voice_offer voice_answer voice_ice : (room_id user_id : ℕ) (text : String) → Call
  schedule_cleanup : (room_id user_id : ℕ) → Call
  unregister_peer : (room_id user_id : ℕ) → Call

pub record BroadcastMessage : Type 0 where
  pub room_id : ℕ
  pub event : String
  pub payload : Payload
  pub exclude_user_id : ℕ

-- `clients` lists the entries of the map, in the order in which a loop meets them; `store` holds the
-- connections by address; `waiting` the senders on the unbuffered channel `Broadcast`.
pub record Hub : Type 0 where
  pub clients : List (ℕ × ℕ)
  pub store : ℕ → Client
  pub waiting : List BroadcastMessage
  pub calls : List Call
  pub has_voice : Bool
  pub has_wg : Bool
  pub rtc_provider : Option RtcClientConfig
  pub rtc_config : RtcClientConfig

unfoldable pub lookup : ℕ → List (ℕ × ℕ) → Option ℕ
lookup u [] = none
lookup u ((v, p) ∷ m) = if v == u then some p else lookup u m

unfoldable pub erase : ℕ → List (ℕ × ℕ) → List (ℕ × ℕ)
erase u [] = []
erase u ((v, p) ∷ m) = if v == u then erase u m else (v, p) ∷ erase u m

-- h.Clients[u] = p
unfoldable pub insert : ℕ → ℕ → List (ℕ × ℕ) → List (ℕ × ℕ)
unfolding erase
insert u p m = (u, p) ∷ erase u m

abbrev pub update : (ℕ → Client) → ℕ → Client → ℕ → Client
update store p c q = if p == q then c else store q

abbrev pub put : Hub → ℕ → Client → Hub
put h p c = record h { store = update h.store p c }

abbrev pub put? : Hub → ℕ → Option Client → Option Hub
put? h p none = none
put? h p (some c) = some (put h p c)

unfoldable pub current_rtc_client_config : Hub → RtcClientConfig
current_rtc_client_config h = elim h.rtc_provider [ none ↦ h.rtc_config | some c ↦ c ]

-- One turn of the loop in `broadcastToRoom`.
unfoldable pub deliver : ℕ → String → Payload → ℕ → ℕ × ℕ → (ℕ → Client) → Option (ℕ → Client)
unfolding send_event_to_room is_in_room
deliver room_id event payload exclude (user_id, p) store =
    if user_id == exclude
    then some store
    else if is_in_room (store p) room_id
    then (elim (send_event_to_room (store p) event payload room_id) [
      | none ↦ none
      | some c ↦ some (update store p c)
    ])
    else some store

abbrev pub and_then {ℓ} : {A : Type ℓ} → Option A → (A → Option A) → Option A
and_then none k = none
and_then (some a) k = k a

unfoldable pub deliver_all :
    ℕ → String → Payload → ℕ → List (ℕ × ℕ) → (ℕ → Client) → Option (ℕ → Client)
deliver_all room_id event payload exclude [] store = some store
deliver_all room_id event payload exclude (entry ∷ entries) store =
    and_then (deliver room_id event payload exclude entry store)
      (deliver_all room_id event payload exclude entries)

abbrev pub with_store : Hub → Option (ℕ → Client) → Option Hub
with_store h none = none
with_store h (some store) = some (record h { store = store })

-- `broadcastToRoom`
unfoldable pub broadcast_to_room : ℕ → String → Payload → ℕ → Hub → Option Hub
unfolding deliver_all
broadcast_to_room room_id event payload exclude h =
    with_store h (deliver_all room_id event payload exclude h.clients h.store)

-- `BroadcastToRoom` puts the message on the channel, where the loop takes it.
unfoldable pub post : ℕ → String → Payload → ℕ → Hub → Hub
post room_id event payload exclude h = record h {
  waiting =
      h.waiting
      ++ record { room_id = room_id; event = event; payload = payload; exclude_user_id = exclude }
        ∷ [];
}

unfoldable pub schedule_wg_peer_cleanup : ℕ → ℕ → Hub → Hub
schedule_wg_peer_cleanup room_id user_id h =
    if h.has_wg then record h { calls = h.calls ++ schedule_cleanup room_id user_id ∷ [] } else h

-- The case `<-h.Register`
unfoldable pub register : ℕ → Hub → Option Hub
unfolding current_rtc_client_config insert
register p h =
    let h' = record h { clients = insert (h.store p).user_id p h.clients } in
    put? h' p (
      send_event (h'.store p) "connected"
        (connected (h.store p).user_id (current_rtc_client_config h')))

unfoldable pub notify_rooms : ℕ → List ℕ → Hub → Option Hub
notify_rooms user_id [] h = some h
notify_rooms user_id (room_id ∷ rooms) h =
    and_then
      (and_then
        (broadcast_to_room room_id "room.member_leave" (member_leave user_id room_id) user_id h)
        (λ h'. some (schedule_wg_peer_cleanup room_id user_id h')))
      (notify_rooms user_id rooms)

abbrev pub is_current : Option ℕ → ℕ → Bool
is_current none p = false
is_current (some q) p = q == p

-- The case `<-h.Unregister`
unfoldable pub unregister : ℕ → Hub → Option Hub
unfolding lookup erase
unregister p h =
    let user_id = (h.store p).user_id in
    let h₁ : Hub =
      if h.has_voice then record h { calls = h.calls ++ voice_leave_user user_id ∷ [] } else h in
    if is_current (lookup user_id h₁.clients) p
    then notify_rooms user_id (h₁.store p).rooms (record h₁ {
      clients = erase user_id h₁.clients;
      store = update h₁.store p (close_send (h₁.store p));
    })
    else some (put h₁ p (close_send (h₁.store p)))

abbrev pub take_from : List BroadcastMessage → Hub → Option Hub
take_from [] h = some h
take_from (m ∷ ms) h =
    broadcast_to_room m.room_id m.event m.payload m.exclude_user_id (record h { waiting = ms })

-- The case `<-h.Broadcast`
unfoldable pub take_broadcast : Hub → Option Hub
take_broadcast h = take_from h.waiting h

abbrev pub is_reconnected : Option ℕ → ℕ → Hub → Bool
is_reconnected none room_id h = false
is_reconnected (some p) room_id h = is_in_room (h.store p) room_id

abbrev pub announce_cleanup : ℕ → ℕ → Bool → Hub → Option Hub
announce_cleanup room_id user_id true h =
    broadcast_to_room room_id "vlan.peer_update" (vlan_leave user_id room_id) user_id h
announce_cleanup room_id user_id false h = some h

abbrev pub cleanup_if : Bool → ℕ → ℕ → Bool → Hub → Option Hub
cleanup_if true room_id user_id succeeds h = some h
cleanup_if false room_id user_id succeeds h =
    announce_cleanup room_id user_id succeeds
      (record h { calls = h.calls ++ unregister_peer room_id user_id ∷ [] })

-- The goroutine of `scheduleWGPeerCleanup` when its delay is over; the flag tells whether the
-- coordinator's `UnregisterPeer` succeeds.
unfoldable pub run_cleanup : ℕ → ℕ → Bool → Hub → Option Hub
unfolding lookup
run_cleanup room_id user_id succeeds h =
    cleanup_if (is_reconnected (lookup user_id h.clients) room_id h) room_id user_id succeeds h

unfoldable pub get_online_users_in_room : ℕ → Hub → List ℕ
get_online_users_in_room room_id h = go h.clients
  where
    go : List (ℕ × ℕ) → List ℕ
    go [] = []
    go ((user_id, p) ∷ m) = if is_in_room (h.store p) room_id then user_id ∷ go m else go m

unfoldable pub is_user_online : ℕ → Hub → Bool
unfolding lookup
is_user_online user_id h = elim (lookup user_id h.clients) [ none ↦ false | some p ↦ true ]

unfoldable pub online_count : Hub → ℕ
online_count h = length h.clients

abbrev pub send_entry : Option ℕ → String → Payload → ℕ → Hub → Option Hub
send_entry none event payload room_id h = some h
send_entry (some p) event payload room_id h =
    put? h p (send_event_to_room (h.store p) event payload room_id)

-- `SendToUser` and `SendMediaSignal`, which adds the room.
unfoldable pub send_to_user : ℕ → String → Payload → ℕ → Hub → Option Hub
unfolding lookup
send_to_user user_id event payload room_id h =
    send_entry (lookup user_id h.clients) event payload room_id h

abbrev pub drop_room : ℕ → Option ℕ → Hub → Hub
drop_room room_id none h = h
drop_room room_id (some p) h = put h p (leave_room (h.store p) room_id)

-- `KickUserFromRoom`
unfoldable pub kick_user_from_room : ℕ → ℕ → String → Hub → Option Hub
unfolding lookup send_to_user post
kick_user_from_room room_id user_id reason h =
    and_then (send_to_user user_id "room.kicked" (kicked reason) 0 h) (λ h₁.
      let h₂ = post room_id "room.member_leave" (member_leave user_id room_id) user_id h₁ in
      some (drop_room room_id (lookup user_id h₂.clients) h₂))
