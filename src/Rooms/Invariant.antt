-- ===== src/Rooms/Invariant.antt =====
-- The requests to the rooms, one after the other.
use Prim.Native.String.{String}
use nexusroom.Base.{
  ℕ, ◌≡◌, refl, subst, inl, inr, false, Option, none, some, [], ◌∷◌, ◌++◌, ◌==◌, any, Bool-cases,
  Option-cases, arith, ==-refl,
}
use nexusroom.Orm.{Found, found, not_found, failed}
use nexusroom.Friends.{success}
use nexusroom.Ws.{member_leave, disbanded}
use nexusroom.Ws.Hub.{Hub, post, kick_user_from_room}
use nexusroom.Rooms.{
  Room, RoomMember, Tables, Db, same_room, find_by_id, is_member, add_member, remove_member,
  create_room, before_create, update_room, delete_room,
}
use nexusroom.Rooms.Requests.{
  may_manage, Outcome, added, room_created, handle_create, join_room_of, handle_join, kick_from,
  handle_kick, update_found, handle_update, leave_from, handle_leave, delete_found, handle_delete,
}
use nexusroom.Rooms.Owners.{create_room-Owned}
use nexusroom.Rooms.Preservation.{
  OwnedDb, Holds, removed-Holds, updated-Holds, added-Holds, add_member-Holds, removal_keeps,
  update_keeps, delete_keeps,
}

module _ (T : Tables) where
  join-Holds :
      (user_id : ℕ) (x : Found Room) (d : Db T) (h : Hub)
      → OwnedDb T d
      → Holds T (join_room_of T user_id x d h)
  unfolding join_room_of
  join-Holds user_id not_found d h v = v
  join-Holds user_id failed d h v = v
  join-Holds user_id (found room) d h v = elim (Bool-cases (is_member T room.id user_id d)) [
    | inl e ↦ rw e v
    | inr e ↦ rw e (
        added-Holds T h (add_member T room.id user_id "member" d)
          (add_member-Holds T room.id user_id "member" d v))
  ]

  kick-Holds :
      (room_id target user_id : ℕ) (role : String) (x : Found Room) (d : Db T) (h : Hub)
      → find_by_id T room_id d ≡ x
      → OwnedDb T d
      → Holds T (kick_from T room_id target user_id role x d h)
  unfolding kick_from
  kick-Holds room_id target user_id role not_found d h e v = v
  kick-Holds room_id target user_id role failed d h e v = v
  kick-Holds room_id target user_id role (found room) d h e v =
      elim (Bool-cases (may_manage room user_id role)) [
        | inr m ↦ rw m v
        | inl m ↦ elim (Bool-cases (target == room.owner_id)) [
          | inl own ↦ rw (m, own) v
          | inr other ↦
              rw (m, other)
                (removed-Holds T (kick_user_from_room room_id target "你已被房主踢出房间" h) h
                  (remove_member T room_id target d)
                  (removal_keeps T room_id d room e target (ground arith) v))
        ]
      ]

  update-Holds :
      (room_id : ℕ) (name : String) (user_id : ℕ) (role : String) (x : Found Room) (d : Db T)
      (h : Hub)
      → find_by_id T room_id d ≡ x
      → OwnedDb T d
      → Holds T (update_found T name user_id role x d h)
  unfolding update_found
  update-Holds room_id name user_id role not_found d h e v = v
  update-Holds room_id name user_id role failed d h e v = v
  update-Holds room_id name user_id role (found room) d h e v =
      elim (Bool-cases (may_manage room user_id role)) [
        | inr m ↦ rw m v
        | inl m ↦ rw m (
            updated-Holds T h (update_room T (record room { name = name }) d)
              (update_keeps T room_id d room e name v))
      ]

  leave-Holds :
      (room_id user_id : ℕ) (x : Found Room) (d : Db T) (h : Hub)
      → find_by_id T room_id d ≡ x
      → OwnedDb T d
      → Holds T (leave_from T room_id user_id x d h)
  unfolding leave_from
  leave-Holds room_id user_id not_found d h e v = v
  leave-Holds room_id user_id failed d h e v = v
  leave-Holds room_id user_id (found room) d h e v =
      elim (Bool-cases (is_member T room_id user_id d)) [
        | inr m ↦ rw m v
        | inl m ↦ elim (Bool-cases (room.owner_id == user_id)) [
          | inl own ↦ rw (m, own) v
          | inr other ↦
              rw (m, other)
                (removed-Holds T
                  (some (post room_id "room.member_leave" (member_leave user_id room_id) user_id h))
                  h (remove_member T room_id user_id d)
                  (removal_keeps T room_id d room e user_id (ground arith) v))
        ]
      ]

  delete-Holds :
      (room_id user_id : ℕ) (role : String) (x : Found Room) (d : Db T) (h : Hub)
      → OwnedDb T d
      → Holds T (delete_found T room_id user_id role x d h)
  unfolding delete_found
  delete-Holds room_id user_id role not_found d h v = v
  delete-Holds room_id user_id role failed d h v = v
  delete-Holds room_id user_id role (found room) d h v =
      elim (Bool-cases (may_manage room user_id role)) [
        | inr m ↦ rw m v
        | inl m ↦
            let h' = post room_id "room.disbanded" (disbanded room_id) 0 h in
            rw m
              (removed-Holds T (some h') h' (delete_room T room_id d) (delete_keeps T room_id d v))
      ]

  abbrev pub OnSuccess : Option (Outcome T) → Type 0
  OnSuccess none = Unit
  OnSuccess (some o) = o.answer ≡ success → OwnedDb T o.db

  added-OnSuccess :
      (room : Room) (user_id : ℕ) (d d₁ : Db T) (h : Hub)
      → room.owner_id ≡ user_id
      → any (same_room room) (T.rooms.rows d.rooms) ≡ false
      → T.rooms.rows d₁.rooms ≡ T.rooms.rows d.rooms ++ room ∷ []
      → d₁.members ≡ d.members
      → OwnedDb T d
      → OnSuccess (added T h (add_member T room.id user_id "admin" d₁))
  unfolding add_member
  added-OnSuccess room user_id d d₁ h own fresh kept same v =
      let new : RoomMember = record { room_id = room.id; user_id = user_id; role = "admin" } in
      elim (Option-cases (T.members.create new d₁.members).0) [
        | inl f ↦ rw f (λ s. cc)
        | inr (row, f) ↦
            let (_, filled, _, stored) = T.members.create_ok new d₁.members row f in
            rw f (λ s.
              rw (kept, stored, same)
                (create_room-Owned room row (T.rooms.rows d.rooms) (T.members.rows d.members) fresh
                  (rw filled (ground (arith, ==-refl room.id, own))) v))
      ]

  create-OnSuccess :
      (random invite name : String) (user_id : ℕ) (d : Db T) (h : Hub)
      → OwnedDb T d
      → OnSuccess (room_created T user_id h (create_room T random invite name user_id d))
  unfolding create_room before_create room_created
  create-OnSuccess random invite name user_id d h v =
      let new : Room = before_create random invite (record {
        id = 0;
        room_code = "";
        invite_code = "";
        name = name;
        owner_id = user_id;
        media_room_name = "";
      }) in
      elim (Option-cases (T.rooms.create new d.rooms).0) [
        | inl f ↦ rw f (λ s. cc)
        | inr (room, f) ↦
            let (_, filled, fresh, kept) = T.rooms.create_ok new d.rooms room f in
            let d₁ : Db T = record d { rooms = (T.rooms.create new d.rooms).1 } in
            rw f (added-OnSuccess room user_id d d₁ h (rw filled refl) fresh kept refl v)
      ]

-- A request to the rooms, with what the framework has bound of it.
pub data Request : Type 0 where
  creates : (random invite : String) (name : Option String) (user_id : ℕ) → Request
  joins : (code : Option String) (user_id : ℕ) → Request
  kicks : (room_id target : Option ℕ) (user_id : ℕ) (role : String) → Request
  renames : (room_id : Option ℕ) (name : Option String) (user_id : ℕ) (role : String) → Request
  leaves : (room_id : Option ℕ) (user_id : ℕ) → Request
  deletes : (room_id : Option ℕ) (user_id : ℕ) (role : String) → Request

module _ (T : Tables) where
  unfoldable pub handle : Request → Db T → Hub → Option (Outcome T)
  unfolding handle_create handle_join handle_kick handle_update handle_leave handle_delete
  handle (creates random invite name u) d h = handle_create T random invite name u d h
  handle (joins code u) d h = handle_join T code u d h
  handle (kicks room_id target u role) d h = handle_kick T room_id target u role d h
  handle (renames room_id name u role) d h = handle_update T room_id name u role d h
  handle (leaves room_id u) d h = handle_leave T room_id u d h
  handle (deletes room_id u role) d h = handle_delete T room_id u role d h

  abbrev pub IsCreation : Request → Type 0
  IsCreation (creates random invite name u) = Unit
  IsCreation (joins code u) = ⊥
  IsCreation (kicks room_id target u role) = ⊥
  IsCreation (renames room_id name u role) = ⊥
  IsCreation (leaves room_id u) = ⊥
  IsCreation (deletes room_id u role) = ⊥

  some-Holds : (x : Option (Outcome T)) (o : Outcome T) → x ≡ some o → Holds T x → OwnedDb T o.db
  some-Holds x o e v = subst (Holds T) e v

  create-Owned :
      (random invite : String) (name : Option String) (u : ℕ) (d : Db T) (h : Hub) (o : Outcome T)
      → handle_create T random invite name u d h ≡ some o
      → o.answer ≡ success
      → OwnedDb T d
      → OwnedDb T o.db
  unfolding handle_create
  create-Owned random invite none u d h o e s v = cc (e, s)
  create-Owned random invite (some name) u d h o e s v =
      subst (OnSuccess T) e (create-OnSuccess T random invite name u d h v) s

  -- Where each room has its own id and its owner is a member, this is so after any request that
  -- is answered, whichever statements of the database fail, but for the creation of a room that
  -- is answered with an error.
  pub handle-Owned :
      (q : Request) (d : Db T) (h : Hub) (o : Outcome T)
      → handle q d h ≡ some o
      → (IsCreation q → o.answer ≡ success)
      → OwnedDb T d
      → OwnedDb T o.db
  unfolding handle handle_join handle_kick handle_update handle_leave handle_delete
  handle-Owned (creates random invite name u) d h o e s v =
      create-Owned random invite name u d h o e (s tt) v
  handle-Owned (joins none u) d h o e s v = some-Holds _ o e v
  handle-Owned (joins (some code) u) d h o e s v = some-Holds _ o e (join-Holds T u _ d h v)
  handle-Owned (kicks none target u role) d h o e s v = some-Holds _ o e v
  handle-Owned (kicks (some room_id) none u role) d h o e s v = some-Holds _ o e v
  handle-Owned (kicks (some room_id) (some target) u role) d h o e s v =
      some-Holds _ o e (kick-Holds T room_id target u role _ d h refl v)
  handle-Owned (renames none name u role) d h o e s v = some-Holds _ o e v
  handle-Owned (renames (some room_id) none u role) d h o e s v = some-Holds _ o e v
  handle-Owned (renames (some room_id) (some name) u role) d h o e s v =
      some-Holds _ o e (update-Holds T room_id name u role _ d h refl v)
  handle-Owned (leaves none u) d h o e s v = some-Holds _ o e v
  handle-Owned (leaves (some room_id) u) d h o e s v =
      some-Holds _ o e (leave-Holds T room_id u _ d h refl v)
  handle-Owned (deletes none u role) d h o e s v = some-Holds _ o e v
  handle-Owned (deletes (some room_id) u role) d h o e s v =
      some-Holds _ o e (delete-Holds T room_id u role _ d h v)
