-- ===== src/Rooms.antt =====
-- server/internal/repository/room.go and server/internal/api/handler/room.go: rooms, their members
-- and the requests that change them. A request comes with what the framework has bound of it
-- (`none` where binding, validation or the parsing of a path parameter fails), and is answered with
-- a code and the new state; the texts and the fields of the answers are left out. `none` is a panic
-- of the hub's queue. The random parts of a room's codes are parameters.
pub mod Requests
pub mod Owners
pub mod Preservation
pub mod Invariant
pub mod Removal
pub mod Deletion
pub mod Tests
use Prim.Native.String.{String, ◌++◌ as append}
use text.Mathlib.Text.{◌==◌ as str_eq}
use nexusroom.Base.{
  ℕ, Bool, true, false, not, ◌&&◌, ◌||◌, Option, none, some, ◌==◌, ltb, if◌then◌else◌,
}
use nexusroom.Orm.{Table, Found, found, not_found, failed}
use nexusroom.Wg.{WgPeer, with_peer_id, same_peer}
use nexusroom.Ws.Chat.{Message, with_message_id, same_message}

pub record Room : Type 0 where
  pub id : ℕ
  pub room_code : String
  pub invite_code : String
  pub name : String
  pub owner_id : ℕ
  pub media_room_name : String

pub record RoomMember : Type 0 where
  pub room_id : ℕ
  pub user_id : ℕ
  pub role : String

pub record RoomIngress : Type 0 where
  pub id : ℕ
  pub room_id : ℕ
  pub ingress_id : String
  pub stream_key : String

abbrev pub with_room_id : ℕ → Room → Room
with_room_id n r = record r { id = n }

-- The primary key and the three unique columns.
abbrev pub same_room : Room → Room → Bool
same_room r q =
    r.id == q.id
    || (str_eq r.room_code q.room_code
        || (str_eq r.invite_code q.invite_code || str_eq r.media_room_name q.media_room_name))

-- The primary key of `room_members` is the pair of columns; no key is generated.
abbrev pub keep_member : ℕ → RoomMember → RoomMember
keep_member n m = m

abbrev pub same_member : RoomMember → RoomMember → Bool
same_member m q = m.room_id == q.room_id && m.user_id == q.user_id

abbrev pub with_ingress_id : ℕ → RoomIngress → RoomIngress
with_ingress_id n i = record i { id = n }

abbrev pub same_ingress : RoomIngress → RoomIngress → Bool
same_ingress i j =
    i.id == j.id || (str_eq i.ingress_id j.ingress_id || str_eq i.stream_key j.stream_key)

-- The columns that are empty are filled from the random texts before a room is stored.
unfoldable pub before_create : String → String → Room → Room
before_create random invite r =
    let code = if str_eq r.room_code "" then append "rm_" random else r.room_code in
    record r {
      room_code = code;
      invite_code = if str_eq r.invite_code "" then invite else r.invite_code;
      media_room_name =
          if str_eq r.media_room_name "" then append "nexusroom_" code else r.media_room_name;
    }

abbrev pub member_of : ℕ → ℕ → RoomMember → Bool
member_of room_id user_id m = m.room_id == room_id && m.user_id == user_id

abbrev pub positive : Option ℕ → Bool
positive none = false
positive (some n) = ltb 0 n

-- The tables that the handlers reach.
pub record Tables : Type 1 where
  pub rooms : Table Room with_room_id same_room
  pub members : Table RoomMember keep_member same_member
  pub messages : Table Message with_message_id same_message
  pub ingresses : Table RoomIngress with_ingress_id same_ingress
  pub peers : Table WgPeer with_peer_id same_peer

module _ (T : Tables) where
  pub record Db : Type 0 where
    pub rooms : T.rooms.State
    pub members : T.members.State
    pub messages : T.messages.State
    pub ingresses : T.ingresses.State
    pub peers : T.peers.State

  unfoldable pub find_by_id : ℕ → Db → Found Room
  find_by_id id d = T.rooms.first_where (λ r. r.id == id) d.rooms

  unfoldable pub find_by_invite_code : String → Db → Found Room
  find_by_invite_code code d = T.rooms.first_where (λ r. str_eq r.invite_code code) d.rooms

  -- An error of the query leaves the count at 0.
  unfoldable pub is_member : ℕ → ℕ → Db → Bool
  is_member room_id user_id d =
      positive (T.members.count_where (member_of room_id user_id) d.members)

  abbrev pub members_after {ℓ} : {A : Type ℓ} → Db → A × T.members.State → A × Db
  members_after d (a, s) = (a, record d { members = s })

  unfoldable pub add_member : ℕ → ℕ → String → Db → Option RoomMember × Db
  add_member room_id user_id role d =
      members_after d
        (T.members.create (record { room_id = room_id; user_id = user_id; role = role }) d.members)

  unfoldable pub remove_member : ℕ → ℕ → Db → Bool × Db
  remove_member room_id user_id d =
      members_after d (T.members.delete_where (member_of room_id user_id) d.members)

  abbrev pub rooms_after {ℓ} : {A : Type ℓ} → Db → A × T.rooms.State → A × Db
  rooms_after d (a, s) = (a, record d { rooms = s })

  unfoldable pub create_room : String → String → String → ℕ → Db → Option Room × Db
  unfolding before_create
  create_room random invite name user_id d = rooms_after d (
      T.rooms.create
        (before_create random invite (record {
          id = 0;
          room_code = "";
          invite_code = "";
          name = name;
          owner_id = user_id;
          media_room_name = "";
        }))
        d.rooms)

  -- `Save` writes every column of the row with the room's id.
  unfoldable pub update_room : Room → Db → Bool × Db
  update_room room d =
      rooms_after d (T.rooms.update_where (λ r. r.id == room.id) (λ r. room) d.rooms)

  abbrev pub and_also : Bool × Db → (Db → Bool × Db) → Bool × Db
  and_also (false, d) k = (false, d)
  and_also (true, d) k = k d

  abbrev pub delete_messages : ℕ → Db → Bool × Db
  delete_messages id d =
      let (ok, s) = T.messages.delete_where (λ m. m.room_id == id) d.messages in
      (ok, record d { messages = s })

  abbrev pub delete_ingresses : ℕ → Db → Bool × Db
  delete_ingresses id d =
      let (ok, s) = T.ingresses.delete_where (λ i. i.room_id == id) d.ingresses in
      (ok, record d { ingresses = s })

  abbrev pub delete_peers : ℕ → Db → Bool × Db
  delete_peers id d =
      let (ok, s) = T.peers.delete_where (λ p. p.room_id == id) d.peers in
      (ok, record d { peers = s })

  abbrev pub delete_members : ℕ → Db → Bool × Db
  delete_members id d = members_after d (T.members.delete_where (λ m. m.room_id == id) d.members)

  abbrev pub delete_row : ℕ → Db → Bool × Db
  delete_row id d = rooms_after d (T.rooms.delete_where (λ r. r.id == id) d.rooms)

  -- A transaction whose body fails is rolled back.
  abbrev pub transaction : Db → Bool × Db → Bool × Db
  transaction d (false, d') = (false, d)
  transaction d (true, d') = (true, d')

  unfoldable pub delete_room : ℕ → Db → Bool × Db
  delete_room id d = transaction d (
      and_also (delete_members id d) (λ d₁. and_also (delete_messages id d₁) (λ d₂.
        and_also (delete_ingresses id d₂)
          (λ d₃. and_also (delete_peers id d₃) (λ d₄. delete_row id d₄)))))
