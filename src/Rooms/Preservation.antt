-- ===== src/Rooms/Preservation.antt =====
-- The changes of the tables of rooms and members, and the owners of the rooms.
use Prim.Native.String.{String}
use nexusroom.Base.{
  ℕ, ◌≡◌, ◌≢◌, refl, sym, subst, inl, inr, Bool, true, false, Option, none, some, List, ◌∷◌, ◌++◌,
  ◌==◌, All, All-middle, Bool-cases, Option-cases, arith,
}
use nexusroom.Orm.{found}
use nexusroom.Ws.Hub.{Hub}
use nexusroom.Rooms.{
  Room, RoomMember, Tables, Db, member_of, find_by_id, add_member, remove_member, update_room,
  delete_room,
}
use nexusroom.Rooms.Requests.{Outcome, accept, added, removed, updated}
use nexusroom.Rooms.Owners.{
  Owned, HasOwner, add_member-Owned, remove_member-Owned, delete_room-Owned, update_room-Owned,
}
use nexusroom.Rooms.Deletion.{delete_room-IsDeleted}

module _ (T : Tables) where
  abbrev pub OwnedDb : Db T → Type 0
  OwnedDb d = Owned (T.rooms.rows d.rooms) (T.members.rows d.members)

  abbrev pub Holds : Option (Outcome T) → Type 0
  Holds none = Unit
  Holds (some o) = OwnedDb o.db

  accept-Holds : (d : Db T) (h : Option Hub) → OwnedDb d → Holds (accept T d h)
  accept-Holds d none v = tt
  accept-Holds d (some h) v = v

  pub removed-Holds :
      (notified : Option Hub) (h : Hub) (r : Bool × Db T)
      → OwnedDb r.1
      → Holds (removed T notified h r)
  removed-Holds notified h (true, d) v = accept-Holds d notified v
  removed-Holds notified h (false, d) v = v

  pub updated-Holds : (h : Hub) (r : Bool × Db T) → OwnedDb r.1 → Holds (updated T h r)
  updated-Holds h (true, d) v = v
  updated-Holds h (false, d) v = v

  pub added-Holds : (h : Hub) (r : Option RoomMember × Db T) → OwnedDb r.1 → Holds (added T h r)
  added-Holds h (none, d) v = v
  added-Holds h (some m, d) v = v

  pub add_member-Holds :
      (room_id user_id : ℕ) (role : String) (d : Db T)
      → OwnedDb d
      → OwnedDb (add_member T room_id user_id role d).1
  unfolding add_member
  add_member-Holds room_id user_id role d v =
      let new : RoomMember = record { room_id = room_id; user_id = user_id; role = role } in
      elim (Option-cases (T.members.create new d.members).0) [
        | inl f ↦ rw (T.members.create_failed new d.members f) v
        | inr (row, f) ↦
            let (_, _, _, kept) = T.members.create_ok new d.members row f in
            rw kept (add_member-Owned (T.rooms.rows d.rooms) (T.members.rows d.members) row v)
      ]

  -- The room that a query by id has found.
  module _ (room_id : ℕ) (d : Db T) (room : Room) (e : find_by_id T room_id d ≡ found room) where
    found_split :
        (before after : List Room) × (T.rooms.rows d.rooms ≡ before ++ room ∷ after)
        × (room.id ≡ room_id)
    unfolding find_by_id
    found_split =
        let (before, after, split, hit) =
          T.rooms.first_found (λ r. r.id == room_id) d.rooms room e in
        (before, after, split, ground arith)

    pub removal_keeps :
        (u : ℕ) → u ≢ room.owner_id → OwnedDb d → OwnedDb (remove_member T room_id u d).1
    unfolding remove_member
    removal_keeps u other v =
        let (before, after, split, same) = found_split in
        elim (Bool-cases (T.members.delete_where (member_of room_id u) d.members).0) [
          | inr f ↦ rw (T.members.delete_failed (member_of room_id u) d.members f) v
          | inl f ↦
              rw (T.members.delete_ok (member_of room_id u) d.members f, split, ← same)
                (remove_member-Owned room u before after (T.members.rows d.members) other
                  (rw split at v))
        ]

    pub update_keeps :
        (name : String) → OwnedDb d → OwnedDb (update_room T (record room { name = name }) d).1
    unfolding update_room
    update_keeps name v =
        let (before, after, split, same) = found_split in
        let new : Room = record room { name = name } in
        let p = λ (r : Room). r.id == room.id in
        let f = λ (r : Room). new in
        let owner : HasOwner (T.members.rows d.members) room =
          All-middle (HasOwner (T.members.rows d.members)) before room after
            (subst (All (HasOwner (T.members.rows d.members))) split v.owners) in
        elim (Bool-cases (T.rooms.update_where p f d.rooms).0) [
          | inr e' ↦ rw (T.rooms.update_failed p f d.rooms e') v
          | inl e' ↦ rw (T.rooms.update_ok p f d.rooms e') (
              update_room-Owned room new refl (T.rooms.rows d.rooms) (T.members.rows d.members)
                owner v)
        ]

  pub delete_keeps : (id : ℕ) (d : Db T) → OwnedDb d → OwnedDb (delete_room T id d).1
  delete_keeps id d v = elim (delete_room-IsDeleted T id d) [
    | inr (_, same) ↦ subst OwnedDb (sym same) v
    | inl (_, gone) ↦
        rw (gone.rooms, gone.members)
          (delete_room-Owned id (T.rooms.rows d.rooms) (T.members.rows d.members) v)
  ]
