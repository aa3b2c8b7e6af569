-- ===== src/Voice.antt =====
-- server/internal/media/voice/engine.go: the voice rooms. A peer is a cell of a store, shared by the
-- map of its room and the callbacks of its connection. The WebRTC library is a parameter: a record
-- of what its calls return while one method runs. What is sent to the clients is a log. A method
-- runs here without interruption; the goroutines that callbacks start are steps of their own.
pub mod Rooms
pub mod Methods
pub mod Soft
pub mod Invariant
pub mod Leaving
pub mod Departed
pub mod Users
pub mod Joins
pub mod Calls
pub mod Forwarding
pub mod Runs
pub mod Offers
pub mod Tests
use Prim.Native.String.{String}
use text.Mathlib.Text.{◌==◌ as str_eq}
use nexusroom.Base.{
  ℕ, ◌+◌, Bool, true, false, not, ◌&&◌, ◌||◌, Option, none, some, List, [], ◌∷◌, ◌++◌, map, ◌==◌,
  if◌then◌else◌, any, filter,
}
use nexusroom.Base.Maps.{lookup, erase, insert}

-- `senders` lists the publishers whose track the peer's connection sends.
pub record Peer : Type 0 where
  pub user_id : ℕ
  pub room_id : ℕ
  pub senders : List ℕ
  pub muted : Bool
  pub speaking : Bool
  pub closed : Bool
  pub renegotiate_pending : Bool

pub record Participant : Type 0 where
  pub user_id : ℕ
  pub muted : Bool
  pub speaking : Bool

-- The map of the peers gives their addresses; a track is a number.
pub record Room : Type 0 where
  pub peers : List (ℕ × ℕ)
  pub tracks : List (ℕ × ℕ)

-- What `emit` hands to the hub.
pub data Signal : Type 0 where
  answer : (user_id room_id : ℕ) → Signal
  offer : (user_id room_id : ℕ) → Signal
  participants : (user_id room_id : ℕ) → List Participant → Signal
  state : (user_id room_id : ℕ) (name : String) → Signal

pub record Engine : Type 0 where
  pub rooms : List (ℕ × Room)
  pub store : ℕ → Peer
  pub count : ℕ
  pub signals : List Signal

-- What the calls of the WebRTC library return, by the address of the peer where one method makes
-- the call for several.
pub record Rtc : Type 0 where
  pub new_connection : Bool
  pub set_remote : Bool
  pub create_answer : Bool
  pub set_local : Bool
  pub add_ice : Bool
  pub is_stable : ℕ → Bool
  pub makes_offer : ℕ → Bool
  pub add_track : ℕ → ℕ → Bool

abbrev pub set : (ℕ → Peer) → ℕ → Peer → ℕ → Peer
set store p c q = if p == q then c else store q

abbrev pub put : ℕ → Peer → Engine → Engine
put p c e = record e { store = set e.store p c }

abbrev pub emit : Signal → Engine → Engine
emit s e = record e { signals = e.signals ++ s ∷ [] }

unfoldable pub member : ℕ → List ℕ → Bool
unfolding any
member i is = any (λ j. j == i) is

unfoldable pub peer_in : Option Room → ℕ → Option ℕ
unfolding lookup
peer_in none user_id = none
peer_in (some r) user_id = lookup user_id r.peers

-- `findPeer`
unfoldable pub find_peer : ℕ → ℕ → Engine → Option ℕ
unfolding lookup peer_in
find_peer room_id user_id e = peer_in (lookup room_id e.rooms) user_id

abbrev pub participant : (ℕ → Peer) → ℕ × ℕ → Participant
participant store (user_id, p) = record {
  user_id = (store p).user_id;
  muted = (store p).muted;
  speaking = (store p).speaking;
}

unfoldable pub tell_all : ℕ → List Participant → List (ℕ × ℕ) → Engine → Engine
tell_all room_id all [] e = e
tell_all room_id all ((user_id, p) ∷ ps) e =
    tell_all room_id all ps (emit (participants (e.store p).user_id room_id all) e)

unfoldable pub broadcast_in : ℕ → Option Room → Engine → Engine
unfolding tell_all
broadcast_in room_id none e = e
broadcast_in room_id (some r) e = tell_all room_id (map (participant e.store) r.peers) r.peers e

unfoldable pub broadcast_participants : ℕ → Engine → Engine
unfolding lookup broadcast_in
broadcast_participants room_id e = broadcast_in room_id (lookup room_id e.rooms) e

unfoldable pub renegotiate : Rtc → ℕ → Engine → Engine
renegotiate x p e =
    let c = e.store p in
    if c.closed
    then e
    else if not (x.is_stable p)
    then put p (record c { renegotiate_pending = true }) e
    else if x.makes_offer p
    then emit (offer c.user_id c.room_id) e
    else e

-- `addTrack` and `addTrackLocked`
unfoldable pub add_track : Rtc → ℕ → ℕ → Engine → Engine
unfolding member
add_track x publisher p e =
    let c = e.store p in
    if c.closed || member publisher c.senders
    then e
    else if x.add_track p publisher
    then put p (record c { senders = publisher ∷ c.senders }) e
    else e

unfoldable pub add_tracks : Rtc → List (ℕ × ℕ) → ℕ → ℕ → Engine → Engine
unfolding add_track
add_tracks x [] user_id p e = e
add_tracks x ((publisher, track) ∷ ts) user_id p e =
    add_tracks x ts user_id p (if publisher == user_id then e else add_track x publisher p e)

unfoldable pub add_tracks_of : Rtc → Option Room → ℕ → Engine → Engine
unfolding add_tracks
add_tracks_of x none p e = e
add_tracks_of x (some r) p e = add_tracks x r.tracks (e.store p).user_id p e

unfoldable pub add_existing_tracks : Rtc → ℕ → Engine → Engine
unfolding lookup add_tracks_of
add_existing_tracks x p e = add_tracks_of x (lookup (e.store p).room_id e.rooms) p e
