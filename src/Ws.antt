-- ===== src/Ws.antt =====
-- server/internal/ws: the websocket connections (client.go), the hub (hub.go) and the messages
-- (message.go). A connection is a cell of a store, since the hub, its two pumps and the handlers
-- share it; a user's map entry is the address of his connection.
pub mod Hub
pub mod Chat
pub mod Messages
pub mod Dispatch
pub mod Admission
pub mod Handling
pub mod Delivery
pub mod Registration
pub mod Cases
pub mod Steps
pub mod Unregistration
pub mod Quiet
pub mod Follows
pub mod Sessions
pub mod Replaced
pub mod Kicks
pub mod Safety
pub mod Tests
use Prim.Native.String.{String}
use nexusroom.Base.{
  ℕ, ◌+◌, ◌≡◌, Bool, true, false, not, ◌&&◌, Option, none, some, List, [], ◌∷◌, ◌++◌, length, ltb,
  ◌==◌, if◌then◌else◌, any, filter,
}

pub record RtcIceServer : Type 0 where
  pub urls : List String
  pub username : String
  pub credential : String

abbrev pub RtcClientConfig : Type 0
RtcClientConfig = List RtcIceServer

pub record SenderInfo : Type 0 where
  pub id : ℕ
  pub nickname : String
  pub avatar_url : String

pub record ChatMessage : Type 0 where
  pub id : ℕ
  pub room_id : ℕ
  pub sender_id : ℕ
  pub kind : String
  pub content : String
  pub meta : Option String
  pub client_message_id : String
  pub sender : SenderInfo

-- The payloads of the events that the modelled code sends; times are left out.
pub data Payload : Type 0 where
  connected : (user_id : ℕ) (rtc : RtcClientConfig) → Payload
  empty : Payload
  room_joined : (room_id : ℕ) → Payload
  room_join_error : (room_id : ℕ) (reason : String) → Payload
  member_join : (user_id room_id : ℕ) (nickname avatar_url : String) → Payload
  member_leave : (user_id room_id : ℕ) → Payload
  chat_error : (room_id : ℕ) (reason client_message_id : String) → Payload
  chat_message : ChatMessage → Payload
  kicked : (reason : String) → Payload
  disbanded : (room_id : ℕ) → Payload
  voice_state : (user_id room_id : ℕ) (muted : Bool) → Payload
  rtc_error : (message : String) → Payload
  vlan_leave : (user_id room_id : ℕ) → Payload
  media : String → Payload

pub record Envelope : Type 0 where
  pub event : String
  pub room_id : ℕ
  pub payload : Payload

-- A connection: its user, the rooms it has joined, and the channel to its write pump, which holds
-- at most 256 messages and may be closed.
pub record Client : Type 0 where
  pub user_id : ℕ
  pub username : String
  pub rooms : List ℕ
  pub queue : List Envelope
  pub closed : Bool

abbrev pub capacity : ℕ
capacity = 256

unfoldable pub new_client : ℕ → String → Client
new_client user_id username = record {
  user_id = user_id;
  username = username;
  rooms = [];
  queue = [];
  closed = false;
}

unfoldable pub is_in_room : Client → ℕ → Bool
unfolding any
is_in_room c room_id = any (λ r. r == room_id) c.rooms

-- `c.rooms` is a set: a room that is there is not added again.
unfoldable pub join_room : Client → ℕ → Client
unfolding is_in_room
join_room c room_id = if is_in_room c room_id then c else record c { rooms = room_id ∷ c.rooms }

unfoldable pub leave_room : Client → ℕ → Client
unfolding filter
leave_room c room_id = record c { rooms = filter (λ r. not (r == room_id)) c.rooms }

-- `closeSend`: a `sync.Once` lets the channel be closed once.
abbrev pub close_send : Client → Client
close_send c = record c { closed = true }

-- `SendEventToRoom`. A send on a closed channel panics, also inside a `select`: `none`. A full
-- channel is closed instead.
unfoldable pub send_event_to_room : Client → String → Payload → ℕ → Option Client
send_event_to_room c event payload room_id =
    if c.closed
    then none
    else if ltb (length c.queue) capacity
    then some (record c {
      queue = c.queue ++ record { event = event; room_id = room_id; payload = payload } ∷ [];
    })
    else some (close_send c)

unfoldable pub send_event : Client → String → Payload → Option Client
unfolding send_event_to_room
send_event c event payload = send_event_to_room c event payload 0

-- `handleHeartbeat` sends without a `select`: it waits while the channel is full, and panics when
-- the channel is closed.
pub data Attempt : Type 0 where
  sent : Client → Attempt
  waits panics : Attempt

unfoldable pub handle_heartbeat : Client → Attempt
handle_heartbeat c =
    if c.closed
    then panics
    else if ltb (length c.queue) capacity
    then sent (record c {
      queue = c.queue ++ record { event = "pong"; room_id = 0; payload = empty } ∷ [];
    })
    else waits
