-- ===== src/Rooms/Requests.antt =====
-- The handlers of server/internal/api/handler/room.go that change state.
use Prim.Native.String.{String}
use text.Mathlib.Text.{◌==◌ as str_eq}
use nexusroom.Base.{ℕ, Bool, true, false, not, ◌||◌, Option, none, some, ◌==◌, if◌then◌else◌}
use nexusroom.Orm.{Found, found, not_found, failed}
use nexusroom.Friends.{Answer, success, error}
use nexusroom.Ws.{member_leave, disbanded}
use nexusroom.Ws.Hub.{Hub, post, kick_user_from_room}
use nexusroom.Rooms.{
  Room, RoomMember, Tables, Db, find_by_id, find_by_invite_code, is_member, add_member,
  remove_member, create_room, update_room, delete_room,
}

-- The owner of the room, or a super administrator.
unfoldable pub may_manage : Room → ℕ → String → Bool
may_manage room user_id role = room.owner_id == user_id || str_eq role "super_admin"

module _ (T : Tables) where
  pub record Outcome : Type 0 where
    pub answer : Answer
    pub db : Db T
    pub hub : Hub

  abbrev pub refuse : ℕ → Db T → Hub → Option Outcome
  refuse code d h = some (record { answer = error code; db = d; hub = h })

  abbrev pub accept : Db T → Option Hub → Option Outcome
  accept d none = none
  accept d (some h) = some (record { answer = success; db = d; hub = h })

  abbrev pub added : Hub → Option RoomMember × Db T → Option Outcome
  added h (none, d) = refuse 50001 d h
  added h (some m, d) = accept d (some h)

  unfoldable pub room_created : ℕ → Hub → Option Room × Db T → Option Outcome
  unfolding add_member
  room_created user_id h (none, d) = refuse 50001 d h
  room_created user_id h (some room, d) = added h (add_member T room.id user_id "admin" d)

  -- POST /rooms
  unfoldable pub handle_create : String → String → Option String → ℕ → Db T → Hub → Option Outcome
  unfolding create_room room_created
  handle_create random invite none user_id d h = refuse 40001 d h
  handle_create random invite (some name) user_id d h =
      room_created user_id h (create_room T random invite name user_id d)

  unfoldable pub join_room_of : ℕ → Found Room → Db T → Hub → Option Outcome
  unfolding is_member add_member
  join_room_of user_id not_found d h = refuse 40401 d h
  join_room_of user_id failed d h = refuse 40401 d h
  join_room_of user_id (found room) d h =
      if is_member T room.id user_id d
      then refuse 40901 d h
      else added h (add_member T room.id user_id "member" d)

  -- POST /rooms/join
  unfoldable pub handle_join : Option String → ℕ → Db T → Hub → Option Outcome
  unfolding join_room_of find_by_invite_code
  handle_join none user_id d h = refuse 40001 d h
  handle_join (some code) user_id d h = join_room_of user_id (find_by_invite_code T code d) d h

  abbrev pub removed : Option Hub → Hub → Bool × Db T → Option Outcome
  removed notified h (false, d) = refuse 50001 d h
  removed notified h (true, d) = accept d notified

  unfoldable pub kick_from : ℕ → ℕ → ℕ → String → Found Room → Db T → Hub → Option Outcome
  unfolding remove_member kick_user_from_room may_manage
  kick_from room_id target user_id role not_found d h = refuse 40401 d h
  kick_from room_id target user_id role failed d h = refuse 40401 d h
  kick_from room_id target user_id role (found room) d h =
      if not (may_manage room user_id role)
      then refuse 40301 d h
      else if target == room.owner_id
      then refuse 40301 d h
      else removed (kick_user_from_room room_id target "你已被房主踢出房间" h) h
          (remove_member T room_id target d)

  -- DELETE /rooms/:roomId/members/:userId
  unfoldable pub handle_kick : Option ℕ → Option ℕ → ℕ → String → Db T → Hub → Option Outcome
  unfolding kick_from find_by_id
  handle_kick none target user_id role d h = refuse 40001 d h
  handle_kick (some room_id) none user_id role d h = refuse 40001 d h
  handle_kick (some room_id) (some target) user_id role d h =
      kick_from room_id target user_id role (find_by_id T room_id d) d h

  abbrev pub updated : Hub → Bool × Db T → Option Outcome
  updated h (false, d) = refuse 50001 d h
  updated h (true, d) = accept d (some h)

  unfoldable pub update_found : String → ℕ → String → Found Room → Db T → Hub → Option Outcome
  unfolding update_room may_manage
  update_found name user_id role not_found d h = refuse 40401 d h
  update_found name user_id role failed d h = refuse 40401 d h
  update_found name user_id role (found room) d h =
      if not (may_manage room user_id role)
      then refuse 40301 d h
      else updated h (update_room T (record room { name = name }) d)

  -- PATCH /rooms/:roomId
  unfoldable pub handle_update : Option ℕ → Option String → ℕ → String → Db T → Hub → Option Outcome
  unfolding update_found find_by_id
  handle_update none name user_id role d h = refuse 40001 d h
  handle_update (some room_id) none user_id role d h = refuse 40001 d h
  handle_update (some room_id) (some name) user_id role d h =
      update_found name user_id role (find_by_id T room_id d) d h

  unfoldable pub leave_from : ℕ → ℕ → Found Room → Db T → Hub → Option Outcome
  unfolding is_member remove_member post
  leave_from room_id user_id not_found d h = refuse 40401 d h
  leave_from room_id user_id failed d h = refuse 40401 d h
  leave_from room_id user_id (found room) d h =
      if not (is_member T room_id user_id d)
      then refuse 40401 d h
      else if room.owner_id == user_id
      then refuse 40301 d h
      else removed
          (some (post room_id "room.member_leave" (member_leave user_id room_id) user_id h)) h
          (remove_member T room_id user_id d)

  -- DELETE /rooms/:roomId/leave
  unfoldable pub handle_leave : Option ℕ → ℕ → Db T → Hub → Option Outcome
  unfolding leave_from find_by_id
  handle_leave none user_id d h = refuse 40001 d h
  handle_leave (some room_id) user_id d h = leave_from room_id user_id (find_by_id T room_id d) d h

  unfoldable pub delete_found : ℕ → ℕ → String → Found Room → Db T → Hub → Option Outcome
  unfolding delete_room post may_manage
  delete_found room_id user_id role not_found d h = refuse 40401 d h
  delete_found room_id user_id role failed d h = refuse 40401 d h
  delete_found room_id user_id role (found room) d h =
      if not (may_manage room user_id role)
      then refuse 40301 d h
      else (let h' = post room_id "room.disbanded" (disbanded room_id) 0 h in
          removed (some h') h' (delete_room T room_id d))

  -- DELETE /rooms/:roomId
  unfoldable pub handle_delete : Option ℕ → ℕ → String → Db T → Hub → Option Outcome
  unfolding delete_found find_by_id
  handle_delete none user_id role d h = refuse 40001 d h
  handle_delete (some room_id) user_id role d h =
      delete_found room_id user_id role (find_by_id T room_id d) d h
