-- ===== src/Rooms/Removal.antt =====
-- What the removal of a member takes, and what it does to his connection.
use Prim.Native.String.{String}
use nexusroom.Base.{
  ℕ, ◌≡◌, ◌≢◌, refl, sym, ap, ◌∙◌, inl, inr, Bool, true, false, not, Option, none, some, ◌==◌,
  filter, Bool-cases, arith,
}
use nexusroom.Orm.{Found, found, not_found, failed}
use nexusroom.Friends.{success}
use nexusroom.Ws.{member_leave}
use nexusroom.Ws.Hub.{Hub, post, kick_user_from_room}
use nexusroom.Ws.Kicks.{IsKicked, kick_user_from_room-IsKicked}
use nexusroom.Rooms.{Room, RoomMember, Tables, Db, member_of, find_by_id, is_member, remove_member}
use nexusroom.Rooms.Requests.{
  may_manage, Outcome, refuse, accept, removed, kick_from, handle_kick, leave_from, handle_leave,
}

module _ (T : Tables) where
  accept_lem :
      (d : Db T) (x : Option Hub) (o : Outcome T)
      → accept T d x ≡ some o
      → (x ≡ some o.hub) × (o.db ≡ d)
  accept_lem d none o e = cc
  accept_lem d (some h) o e = (
    ap (λ (y : Option (Outcome T)). elim y [ none ↦ some h | some z ↦ some z.hub ]) e,
    ap (λ (y : Option (Outcome T)). elim y [ none ↦ d | some z ↦ z.db ]) (sym e),
  )

  removed_lem :
      (x : Option Hub) (h : Hub) (r : Bool × Db T) (o : Outcome T)
      → removed T x h r ≡ some o
      → o.answer ≡ success
      → (r.0 ≡ true) × (x ≡ some o.hub) × (o.db ≡ r.1)
  removed_lem x h (true, d) o e s = let (told, same) = accept_lem d x o e in (refl, told, same)
  removed_lem x h (false, d) o e s = cc (e, s)

  refused_lem :
      {A : Type 0} (code : ℕ) (d : Db T) (h : Hub) (o : Outcome T)
      → refuse T code d h ≡ some o
      → o.answer ≡ success
      → A
  refused_lem code d h o e s = cc (e, s)

  -- The members but for the rows of the user in the room.
  abbrev pub IsWithout : ℕ → ℕ → Db T → Db T → Type 0
  IsWithout room_id user_id d d' =
      T.members.rows d'.members
      ≡ filter (λ (m : RoomMember). not (member_of room_id user_id m)) (T.members.rows d.members)

  removal_lem :
      (room_id user_id : ℕ) (d d' : Db T)
      → (remove_member T room_id user_id d).0 ≡ true
      → d' ≡ (remove_member T room_id user_id d).1
      → IsWithout room_id user_id d d'
  unfolding remove_member
  removal_lem room_id user_id d d' ok same =
      ap (λ (x : Db T). T.members.rows x.members) same
      ∙ T.members.delete_ok (member_of room_id user_id) d.members ok

  pub record Left (room_id user_id : ℕ) (d d' : Db T) (h h' : Hub) : Type 0 where
    pub room : Room
    pub stored : find_by_id T room_id d ≡ found room
    pub not_owner : room.owner_id ≢ user_id
    pub member : is_member T room_id user_id d ≡ true
    pub without : IsWithout room_id user_id d d'
    pub posted : h' ≡ post room_id "room.member_leave" (member_leave user_id room_id) user_id h

  leave_from-Left :
      (room_id user_id : ℕ) (x : Found Room) (d : Db T) (h : Hub) (o : Outcome T)
      → find_by_id T room_id d ≡ x
      → leave_from T room_id user_id x d h ≡ some o
      → o.answer ≡ success
      → Left room_id user_id d o.db h o.hub
  unfolding leave_from
  leave_from-Left room_id user_id not_found d h o f e s = refused_lem 40401 d h o e s
  leave_from-Left room_id user_id failed d h o f e s = refused_lem 40401 d h o e s
  leave_from-Left room_id user_id (found room) d h o f e s =
      elim (Bool-cases (is_member T room_id user_id d)) [
        | inr m ↦ refused_lem 40401 d h o (rw m at e) s
        | inl m ↦ elim (Bool-cases (room.owner_id == user_id)) [
          | inl own ↦ refused_lem 40301 d h o (rw (m, own) at e) s
          | inr other ↦
              let h' = post room_id "room.member_leave" (member_leave user_id room_id) user_id h in
              let (ok, same_hub, same_db) =
                removed_lem (some h') h (remove_member T room_id user_id d) o (rw (m, other) at e)
                  s in
              record {
                room = room;
                stored = f;
                not_owner = ground arith;
                member = m;
                without = removal_lem room_id user_id d o.db ok same_db;
                posted = ap (λ (y : Option Hub). elim y [ none ↦ h | some z ↦ z ]) (sym same_hub);
              }
        ]
      ]

  -- A member who leaves a room by a request that succeeds is not its owner; his rows in the room
  -- are removed and no others. The hub is asked to tell the others, and that is all: the rooms of
  -- every connection are as before, so his own connection still takes the room's broadcasts.
  pub handle_leave-Left :
      (room_id user_id : ℕ) (d : Db T) (h : Hub) (o : Outcome T)
      → handle_leave T (some room_id) user_id d h ≡ some o
      → o.answer ≡ success
      → Left room_id user_id d o.db h o.hub × (o.hub.store ≡ h.store)
  unfolding handle_leave post
  handle_leave-Left room_id user_id d h o e s =
      let left = leave_from-Left room_id user_id _ d h o refl e s in
      (left, ap (λ (x : Hub). x.store) left.posted)

  pub record Kicked (room_id target user_id : ℕ) (role : String) (d d' : Db T) (h h' : Hub)
      : Type 0 where
    pub room : Room
    pub stored : find_by_id T room_id d ≡ found room
    pub authority : may_manage room user_id role ≡ true
    pub not_owner : target ≢ room.owner_id
    pub without : IsWithout room_id target d d'
    pub told : IsKicked room_id target "你已被房主踢出房间" h h'

  kick_from-Kicked :
      (room_id target user_id : ℕ) (role : String) (x : Found Room) (d : Db T) (h : Hub)
      (o : Outcome T)
      → find_by_id T room_id d ≡ x
      → kick_from T room_id target user_id role x d h ≡ some o
      → o.answer ≡ success
      → Kicked room_id target user_id role d o.db h o.hub
  unfolding kick_from
  kick_from-Kicked room_id target user_id role not_found d h o f e s = refused_lem 40401 d h o e s
  kick_from-Kicked room_id target user_id role failed d h o f e s = refused_lem 40401 d h o e s
  kick_from-Kicked room_id target user_id role (found room) d h o f e s =
      elim (Bool-cases (may_manage room user_id role)) [
        | inr m ↦ refused_lem 40301 d h o (rw m at e) s
        | inl m ↦ elim (Bool-cases (target == room.owner_id)) [
          | inl own ↦ refused_lem 40301 d h o (rw (m, own) at e) s
          | inr other ↦
              let (ok, told, same_db) =
                removed_lem (kick_user_from_room room_id target "你已被房主踢出房间" h) h
                  (remove_member T room_id target d) o (rw (m, other) at e) s in
              record {
                room = room;
                stored = f;
                authority = m;
                not_owner = ground arith;
                without = removal_lem room_id target d o.db ok same_db;
                told = kick_user_from_room-IsKicked room_id target "你已被房主踢出房间" h o.hub told;
              }
        ]
      ]

  -- A kick that succeeds was asked by the room's owner or a super administrator, and not of the
  -- owner; the target's rows in the room are removed and no others. The room waits to be told by a
  -- broadcast that excludes the target. Of a target who is online the connection leaves the room and
  -- no other, and has the message of the kick behind its queue, or is closed where that was full; a
  -- target who is offline is not told, and no connection changes.
  pub handle_kick-Kicked :
      (room_id target user_id : ℕ) (role : String) (d : Db T) (h : Hub) (o : Outcome T)
      → handle_kick T (some room_id) (some target) user_id role d h ≡ some o
      → o.answer ≡ success
      → Kicked room_id target user_id role d o.db h o.hub
  unfolding handle_kick
  handle_kick-Kicked room_id target user_id role d h o e s =
      kick_from-Kicked room_id target user_id role _ d h o refl e s
