-- ===== src/Rooms/Tests.antt =====
-- A room of three members on tables in memory.
use Prim.Native.String.{String}
use nexusroom.Base.{
  ℕ, ◌≡◌, refl, ◌⊎◌, true, false, Option, none, some, [], ◌∷◌, count, filter, any, arith,
}
use nexusroom.Orm.Memory.{memory}
use nexusroom.Friends.{error}
use nexusroom.Ws.{Client, send_event, send_event_to_room, leave_room}
use nexusroom.Ws.Hub.{Hub, post, lookup, kick_user_from_room, send_to_user}
use nexusroom.Ws.Chat.{with_message_id, same_message}
use nexusroom.Wg.{with_peer_id, same_peer}
use nexusroom.Rooms.{
  Room, RoomMember, with_room_id, same_room, keep_member, same_member, with_ingress_id,
  same_ingress, Tables, Db, find_by_id, is_member, delete_room, remove_member,
}
use nexusroom.Rooms.Requests.{Outcome, may_manage, kick_from, leave_from, handle_leave, handle_kick}
use nexusroom.Rooms.Preservation.{OwnedDb}
use nexusroom.Rooms.Invariant.{kicks, handle, handle-Owned}
use nexusroom.Rooms.Removal.{Left, handle_leave-Left, Kicked, handle_kick-Kicked}
use nexusroom.Rooms.Deletion.{IsDeleted, delete_room-IsDeleted}

abbrev tables : Tables
tables = record {
  rooms = memory with_room_id same_room;
  members = memory keep_member same_member;
  messages = memory with_message_id same_message;
  ingresses = memory with_ingress_id same_ingress;
  peers = memory with_peer_id same_peer;
}

abbrev den : Room
den = record {
  id = 1;
  room_code = "rm_a";
  invite_code = "AAAAAA";
  name = "den";
  owner_id = 1;
  media_room_name = "nexusroom_rm_a";
}

abbrev member : ℕ → String → RoomMember
member user_id role = record { room_id = 1; user_id = user_id; role = role }

abbrev db : Db tables
db = record {
  rooms = den ∷ [];
  members = member 1 "admin" ∷ member 2 "member" ∷ member 3 "member" ∷ [];
  messages = [];
  ingresses = [];
  peers = [];
}

abbrev client : Client
client = record { user_id = 2; username = "bob"; rooms = 1 ∷ []; queue = []; closed = false }

abbrev hub : Hub
hub = record {
  clients = (2, 20) ∷ [];
  store = λ p. client;
  waiting = [];
  calls = [];
  has_voice = true;
  has_wg = false;
  rtc_provider = none;
  rtc_config = [];
}

abbrev outcome_of : Option (Outcome tables) → Outcome tables
outcome_of none = record { answer = error 0; db = db; hub = hub }
outcome_of (some o) = o

db-OwnedDb : OwnedDb tables db
unfolding count any
db-OwnedDb = record { ids = λ n. ground arith; owners = (refl, tt) }

handle-Owned_example :
    OwnedDb tables (outcome_of (handle tables (kicks (some 1) (some 2) 1 "user") db hub)).db
unfolding handle handle_kick kick_from find_by_id may_manage remove_member kick_user_from_room
    send_to_user send_event send_event_to_room leave_room post lookup filter any
handle-Owned_example =
    handle-Owned tables (kicks (some 1) (some 2) 1 "user") db hub
      (outcome_of (handle tables (kicks (some 1) (some 2) 1 "user") db hub)) refl (λ c. refl)
      db-OwnedDb

handle_kick-Kicked_example :
    Kicked tables 1 2 1 "user" db
      (outcome_of (handle_kick tables (some 1) (some 2) 1 "user" db hub)).db
      hub
      (outcome_of (handle_kick tables (some 1) (some 2) 1 "user" db hub)).hub
unfolding handle_kick kick_from find_by_id may_manage remove_member kick_user_from_room send_to_user
    send_event send_event_to_room leave_room post lookup filter any
handle_kick-Kicked_example =
    handle_kick-Kicked tables 1 2 1 "user" db hub
      (outcome_of (handle_kick tables (some 1) (some 2) 1 "user" db hub)) refl refl

handle_leave-Left_example :
    Left tables 1 2 db
      (outcome_of (handle_leave tables (some 1) 2 db hub)).db
      hub
      (outcome_of (handle_leave tables (some 1) 2 db hub)).hub
    × ((outcome_of (handle_leave tables (some 1) 2 db hub)).hub.store ≡ hub.store)
unfolding handle_leave leave_from find_by_id is_member remove_member post filter any count
handle_leave-Left_example =
    handle_leave-Left tables 1 2 db hub (outcome_of (handle_leave tables (some 1) 2 db hub)) refl
      refl

delete_room-IsDeleted_example :
    (((delete_room tables 1 db).0 ≡ true) × IsDeleted tables 1 db (delete_room tables 1 db).1)
    ⊎ (((delete_room tables 1 db).0 ≡ false) × ((delete_room tables 1 db).1 ≡ db))
delete_room-IsDeleted_example = delete_room-IsDeleted tables 1 db
