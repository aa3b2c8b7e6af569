-- ===== src/Ws/Chat.antt =====
-- `HandleChatSend` of hub.go. The repositories are parameters: the message table, the answer of
-- `IsMember` and the user query (`none` where it fails), and so are the two functions on texts of
-- Go's `strings`. Times are left out.
use Prim.Native.String
use Prim.Native.String.{String}
use text.Mathlib.Text.{◌==◌ as str_eq}
use nexusroom.Base.{ℕ, Bool, not, ◌||◌, Option, none, some, ◌==◌, if◌then◌else◌, ltb}
use nexusroom.Orm.{Table}
use nexusroom.Ws.{ChatMessage, chat_error, chat_message, is_in_room, send_event, send_event_to_room}
use nexusroom.Ws.Hub.{Hub, put?, post}

pub record ChatSendPayload : Type 0 where
  pub room_id : ℕ
  pub kind : String
  pub content : String
  pub meta : Option String
  pub client_message_id : String

pub record Message : Type 0 where
  pub id : ℕ
  pub room_id : ℕ
  pub sender_id : ℕ
  pub kind : String
  pub content : String
  pub meta : Option String

abbrev pub with_message_id : ℕ → Message → Message
with_message_id n m = record m { id = n }

abbrev pub same_message : Message → Message → Bool
same_message m n = m.id == n.id

pub record Profile : Type 0 where
  pub nickname : String
  pub avatar_url : String

-- Everything that `HandleChatSend` reads besides the hub and the message table.
pub record Context : Type 0 where
  pub trim_space : String → String
  pub to_lower : String → String
  pub is_member : ℕ → ℕ → Bool
  pub find_by_id : ℕ → Option Profile

-- The checks of the message itself, in their order: the reason of the first that fails. The
-- length counts bytes.
unfoldable pub fault : Context → String → String → Option String
fault x kind content =
    if not (str_eq kind "text" || (str_eq kind "image" || str_eq kind "file"))
    then some "unsupported_message_type"
    else if str_eq (x.trim_space content) ""
    then some "empty_content"
    else if ltb (if str_eq kind "text" then 8000 else 4096) (String.len content)
    then some "content_too_large"
    else none

module _ (M : Table Message with_message_id same_message) where
  open M use {State, create}

  abbrev pub with_messages : State → Option Hub → Option (Hub × State)
  with_messages s none = none
  with_messages s (some h) = some (h, s)

  -- `sendChatError`
  abbrev pub send_chat_error : ℕ → ChatSendPayload → String → Hub → State → Option (Hub × State)
  send_chat_error p payload reason h s = with_messages s (
      put? h p (
        send_event_to_room (h.store p) "chat.error"
          (chat_error payload.room_id reason payload.client_message_id) payload.room_id))

  abbrev pub chat_of : Message → ChatSendPayload → ℕ → Profile → ChatMessage
  chat_of row payload user_id profile = record {
    id = row.id;
    room_id = row.room_id;
    sender_id = row.sender_id;
    kind = row.kind;
    content = row.content;
    meta = payload.meta;
    client_message_id = payload.client_message_id;
    sender = record { id = user_id; nickname = profile.nickname; avatar_url = profile.avatar_url };
  }

  abbrev pub publish :
      ℕ → ChatSendPayload → Message → Option Profile → Hub → State → Option (Hub × State)
  publish p payload row none h s = send_chat_error p payload "sender_lookup_failed" h s
  publish p payload row (some profile) h s = some (
    post payload.room_id "chat.message"
        (chat_message (chat_of row payload (h.store p).user_id profile)) 0 h,
    s,
  )

  abbrev pub stored :
      Context → ℕ → ChatSendPayload → Hub → Option Message × State → Option (Hub × State)
  stored x p payload h (none, s) = send_chat_error p payload "persistence_failed" h s
  stored x p payload h (some row, s) = publish p payload row (x.find_by_id (h.store p).user_id) h s

  abbrev pub checked :
      Context → ℕ → ChatSendPayload → String → Option String → Hub → State → Option (Hub × State)
  checked x p payload kind (some reason) h s = send_chat_error p payload reason h s
  checked x p payload kind none h s = stored x p payload h (
      create
        (record {
          id = 0;
          room_id = payload.room_id;
          sender_id = (h.store p).user_id;
          kind = kind;
          content = payload.content;
          meta = payload.meta;
        })
        s)

  unfoldable pub handle_chat_send :
      Context → ℕ → ChatSendPayload → Hub → State → Option (Hub × State)
  unfolding fault
  handle_chat_send x p payload h s =
      let kind = x.to_lower (x.trim_space payload.kind) in
      if not (is_in_room (h.store p) payload.room_id)
      then with_messages s (
          put? h p (
            send_event (h.store p) "chat.error"
              (chat_error payload.room_id "not_in_room" payload.client_message_id)))
      else if not (x.is_member payload.room_id (h.store p).user_id)
      then send_chat_error p payload "not_a_member" h s
      else checked x p payload kind (fault x kind payload.content) h s
