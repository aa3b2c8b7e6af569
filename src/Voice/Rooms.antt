-- ===== src/Voice/Rooms.antt =====
-- server/internal/media/voice/engine.go: who is in which room, and leaving.
use nexusroom.Base.{
  ℕ, ◌+◌, Bool, true, false, not, Option, none, some, List, [], ◌∷◌, ◌==◌, if◌then◌else◌, filter,
}
use nexusroom.Base.Maps.{lookup, erase, insert}
use nexusroom.Voice.{Peer, Room, Engine, Rtc, put, set, broadcast_participants, renegotiate}

abbrev pub is_empty : List (ℕ × ℕ) → Bool
is_empty [] = true
is_empty (x ∷ xs) = false

unfoldable pub without : ℕ → Room → Room
unfolding erase
without user_id r = record { peers = erase user_id r.peers; tracks = erase user_id r.tracks }

-- A room is dropped with its last peer.
unfoldable pub put_room : ℕ → Room → List (ℕ × Room) → List (ℕ × Room)
unfolding erase insert
put_room room_id r rooms = if is_empty r.peers then erase room_id rooms else insert room_id r rooms

unfoldable pub drop_senders : Rtc → ℕ → List (ℕ × ℕ) → Engine → Engine
unfolding renegotiate filter
drop_senders x user_id [] e = e
drop_senders x user_id ((v, q) ∷ ps) e =
    let c = e.store q in
    drop_senders x user_id ps (
      renegotiate x q (put q (record c { senders = filter (λ s. not (s == user_id)) c.senders }) e))

-- The peer's place in the maps is given up, and the peer is closed.
unfoldable pub taken_out : ℕ → ℕ → Room → ℕ → Engine → Engine
unfolding put_room without
taken_out room_id user_id r p e = record e {
  rooms = put_room room_id (without user_id r) e.rooms;
  store = set e.store p (record (e.store p) { closed = true });
}

unfoldable pub leave_peer : Rtc → ℕ → ℕ → Room → Option ℕ → Engine → Engine
unfolding taken_out drop_senders broadcast_participants without
leave_peer x room_id user_id r none e = e
leave_peer x room_id user_id r (some p) e =
    broadcast_participants room_id
      (drop_senders x user_id (without user_id r).peers (taken_out room_id user_id r p e))

unfoldable pub leave_room : Rtc → ℕ → ℕ → Option Room → Engine → Engine
unfolding leave_peer lookup
leave_room x room_id user_id none e = e
leave_room x room_id user_id (some r) e = leave_peer x room_id user_id r (lookup user_id r.peers) e

unfoldable pub leave : Rtc → ℕ → ℕ → Engine → Engine
unfolding leave_room lookup
leave x room_id user_id e = leave_room x room_id user_id (lookup room_id e.rooms) e

abbrev pub is_there : Option ℕ → Bool
is_there none = false
is_there (some p) = true

unfoldable pub rooms_of : ℕ → List (ℕ × Room) → List ℕ
unfolding lookup
rooms_of user_id [] = []
rooms_of user_id ((k, r) ∷ rooms) =
    if is_there (lookup user_id r.peers) then k ∷ rooms_of user_id rooms else rooms_of user_id rooms

unfoldable pub leave_each : Rtc → ℕ → List ℕ → Engine → Engine
unfolding leave
leave_each x user_id [] e = e
leave_each x user_id (k ∷ ks) e = leave_each x user_id ks (leave x k user_id e)

unfoldable pub leave_user : Rtc → ℕ → Engine → Engine
unfolding rooms_of leave_each
leave_user x user_id e = leave_each x user_id (rooms_of user_id e.rooms) e

-- A new peer starts muted.
abbrev pub new_peer : ℕ → ℕ → Peer
new_peer room_id user_id = record {
  user_id = user_id;
  room_id = room_id;
  senders = [];
  muted = true;
  speaking = false;
  closed = false;
  renegotiate_pending = false;
}

abbrev pub room_or_new : Option Room → Room
room_or_new none = record { peers = []; tracks = [] }
room_or_new (some r) = r

unfoldable pub join : ℕ → ℕ → Engine → Engine
unfolding insert lookup
join room_id user_id e =
    let r = room_or_new (lookup room_id e.rooms) in
    record e {
      rooms = insert room_id (record r { peers = insert user_id e.count r.peers }) e.rooms;
      store = set e.store e.count (new_peer room_id user_id);
      count = e.count + 1;
    }
