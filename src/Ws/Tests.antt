-- ===== src/Ws/Tests.antt =====
-- The hub with two users in one room.
use nexusroom.Base.{
  ℕ, All, ◌≡◌, refl, ◌⊎◌, true, false, Option, none, some, List, [], ◌∷◌, ◌++◌, ◌==◌, if◌then◌else◌,
  zero, suc, arith, any,
}
use nexusroom.Orm.{Table}
use nexusroom.Orm.Memory.{memory}
use nexusroom.Ws.{
  Client, Envelope, empty, disbanded, is_in_room, join_room, send_event, send_event_to_room,
}
use nexusroom.Ws.Hub.{
  Hub, Call, voice_offer, register, insert, erase, lookup, put, broadcast_to_room, and_then,
  unregister, post,
}
use nexusroom.Ws.Delivery.{received, broadcast_to_room_delivers}
use nexusroom.Ws.Safety.{overflow_panics}
use nexusroom.Ws.Steps.{Event, takes, registers, unregisters, step, run_events}
use nexusroom.Ws.Follows.{users_of, sessions_of}
use nexusroom.Ws.Sessions.{sessions, run_events-Sessions}
use nexusroom.Ws.Replaced.{voice_call, voice_calls, replaced_lem}
use nexusroom.Voice.{Rtc, find_peer}
use nexusroom.Voice.Methods.{handle_offer, new_engine}
use nexusroom.Ws.Chat.{
  ChatSendPayload, Message, with_message_id, same_message, Context, handle_chat_send,
}
use nexusroom.Ws.Dispatch.{Incoming, handle_message, handle_room_join}
use nexusroom.Ws.Admission.{Admitted}
use nexusroom.Ws.Handling.{handle_message-Admitted}
use nexusroom.Ws.Messages.{Refused, Published, handle_chat_send-Published}

abbrev filled : ℕ → List Envelope
filled zero = []
filled (suc n) = record { event = "pong"; room_id = 0; payload = empty } ∷ filled n

abbrev willing : Rtc
willing = record {
  new_connection = true;
  set_remote = true;
  create_answer = true;
  set_local = true;
  add_ice = true;
  is_stable = λ p. true;
  makes_offer = λ p. true;
  add_track = λ p s. true;
}

abbrev ann : Client
ann = record { user_id = 1; username = "ann"; rooms = 7 ∷ []; queue = []; closed = false }

abbrev bob : Client
bob = record { user_id = 2; username = "bob"; rooms = 7 ∷ 9 ∷ []; queue = []; closed = false }

-- Address 10 is Ann's connection, 20 Bob's, and 21 an older one of Bob.
abbrev cells : ℕ → Client
cells p = if p == 10 then ann else bob

abbrev hub : Hub
hub = record {
  clients = (1, 10) ∷ (2, 20) ∷ [];
  store = cells;
  waiting = [];
  calls = [];
  has_voice = true;
  has_wg = false;
  rtc_provider = none;
  rtc_config = [];
}

abbrev slow_hub : Hub
slow_hub = put hub 20 (record bob { queue = filled 256 })

broadcast_to_room_delivers_example :
    (store' : ℕ → Client) × (broadcast_to_room 7 "room.disbanded" (disbanded 7) 1 hub
      ≡ some (record hub { store = store' }))
    × ((q : ℕ) → store' q ≡ received 7 "room.disbanded" (disbanded 7) 1 hub.clients hub.store q)
broadcast_to_room_delivers_example =
    broadcast_to_room_delivers 7 "room.disbanded" (disbanded 7) 1 hub (omega arith)
      ((refl, omega arith), ((refl, omega arith), tt))

overflow_panics_example :
    and_then (broadcast_to_room 7 "a" empty 0 slow_hub) (broadcast_to_room 7 "b" empty 0) ≡ none
unfolding is_in_room
overflow_panics_example =
    overflow_panics 7 2 20 "a" "b" empty empty 0 0 ((1, 10) ∷ []) [] slow_hub refl refl
      (omega arith) (omega arith) (omega arith)

abbrev hub_of : Option Hub → Hub
hub_of none = hub
hub_of (some h) = h

-- Bob's address 21 replaces 20, which is unregistered after that.
abbrev replacement : List Event
replacement = registers 21 ∷ unregisters 20 ∷ takes ∷ []

run_events-Sessions_example :
    ((u : ℕ)
      → sessions_of (hub_of (run_events replacement hub)) u
        ≡ sessions (users_of hub) replacement (sessions_of hub) u)
    × All (λ (p : ℕ). ((hub_of (run_events replacement hub)).store p).closed ≡ true) (20 ∷ [])
unfolding run_events step register unregister lookup insert erase send_event send_event_to_room
run_events-Sessions_example =
    run_events-Sessions replacement hub (hub_of (run_events replacement hub)) refl

-- Bob comes back by 21 and enters a voice room, and then his connection 20 ends.
abbrev offers : List Call
offers = voice_offer 7 2 "v=0" ∷ []

abbrev back : Hub
back = hub_of (register 21 hub)

abbrev ended : Hub
ended = hub_of (unregister 20 (record back { calls = back.calls ++ offers }))

replaced_lem_example :
    (lookup 2 ended.clients ≡ some 21)
    × (find_peer 7 2 (voice_calls willing ended.calls new_engine) ≡ (
        if 2 == 2
        then none
        else find_peer 7 2 (voice_calls willing (hub.calls ++ offers) new_engine)))
unfolding register unregister lookup insert erase send_event send_event_to_room
replaced_lem_example =
    replaced_lem willing 20 21 2 7 offers hub back ended new_engine refl (omega arith) refl refl
      refl

entered_test : find_peer 7 2 (voice_calls willing offers new_engine) ≡ some 0
unfolding voice_calls voice_call handle_offer find_peer new_engine
entered_test = refl

abbrev table : Table Message with_message_id same_message
table = memory with_message_id same_message

abbrev context : Context
context = record {
  trim_space = λ t. t;
  to_lower = λ t. t;
  is_member = λ room_id user_id. room_id == 7;
  find_by_id = λ user_id. some (record { nickname = "Ann"; avatar_url = "" });
}

abbrev hello : ChatSendPayload
hello = record {
  room_id = 7;
  kind = "text";
  content = "hello";
  meta = none;
  client_message_id = "c1";
}

abbrev pair_of : Option (Hub × List Message) → Hub × List Message
pair_of none = (hub, [])
pair_of (some r) = r

abbrev answer : Hub × List Message
answer = pair_of (handle_chat_send table context 10 hello hub [])

handle_chat_send-Published_example :
    Refused table context 10 hub answer.0 [] answer.1
    ⊎ Published table context 10 hello hub answer.0 [] answer.1
unfolding handle_chat_send is_in_room any
handle_chat_send-Published_example =
    handle_chat_send-Published table context 10 hello hub answer.0 [] answer.1 refl

stored_test :
    answer.1
    ≡ record { id = 1; room_id = 7; sender_id = 1; kind = "text"; content = "hello"; meta = none }
      ∷ []
unfolding handle_chat_send is_in_room any
stored_test = refl

abbrev join_message : Incoming
join_message = record {
  event = "room.join";
  room_id = 0;
  room_payload = some 9;
  chat_payload = none;
  mute_payload = none;
  speaking_payload = none;
  description = none;
  candidate = none;
}

abbrev open_context : Context
open_context = record context { is_member = λ room_id user_id. room_id == 9 }

abbrev after_join : Hub × List Message
after_join = pair_of (handle_message table open_context none 10 join_message hub [])

handle_message-Admitted_example : Admitted open_context hub after_join.0
unfolding handle_message handle_room_join is_in_room any send_event_to_room join_room
handle_message-Admitted_example =
    handle_message-Admitted table open_context none 10 join_message hub after_join.0 [] after_join.1
      refl

joined_test : is_in_room (after_join.0.store 10) 9 ≡ true
unfolding handle_message handle_room_join is_in_room any send_event_to_room join_room post
joined_test = refl
