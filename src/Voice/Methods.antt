-- ===== src/Voice/Methods.antt =====
-- server/internal/media/voice/engine.go: the methods of the engine besides leaving.
use Prim.Native.String.{String}
use text.Mathlib.Text.{◌==◌ as str_eq}
use nexusroom.Base.{
  ℕ, Bool, true, false, not, ◌&&◌, ◌||◌, Option, none, some, List, [], ◌∷◌, ◌++◌, map, ◌==◌,
  if◌then◌else◌,
}
use nexusroom.Base.Maps.{lookup, insert}
use nexusroom.Voice.{
  Peer, Room, Engine, Rtc, answer, state, put, emit, find_peer, broadcast_participants, renegotiate,
  add_track, add_existing_tracks,
}
use nexusroom.Voice.Rooms.{leave, new_peer, join}

-- The outcome of `ensurePeer`: the peer, whether it is new, and the engine; `none` is an error.
unfoldable pub ensure_peer : Rtc → ℕ → ℕ → Engine → Option (ℕ × Bool × Engine)
unfolding find_peer join
ensure_peer x room_id user_id e = elim (find_peer room_id user_id e) [
  | some p ↦ some (p, false, e)
  | none ↦ if x.new_connection then some (e.count, true, join room_id user_id e) else none
]

unfoldable pub answered : Rtc → ℕ → ℕ → Engine → Bool × Engine
unfolding broadcast_participants
answered x room_id user_id e =
    if not x.create_answer
    then (false, e)
    else if not x.set_local
    then (false, e)
    else (true, broadcast_participants room_id (emit (answer user_id room_id) e))

unfoldable pub offered : Rtc → ℕ → ℕ → Option (ℕ × Bool × Engine) → Engine → Bool × Engine
unfolding answered leave add_existing_tracks
offered x room_id user_id none e₀ = (false, e₀)
offered x room_id user_id (some (p, created, e)) e₀ =
    if (e.store p).closed
    then (false, e)
    else if not x.set_remote
    then (false, if created then leave x room_id user_id e else e)
    else answered x room_id user_id (if created then add_existing_tracks x p e else e)

-- `HandleOffer`; the flag tells whether there was no error.
unfoldable pub handle_offer : Rtc → ℕ → ℕ → String → Engine → Bool × Engine
unfolding offered ensure_peer
handle_offer x room_id user_id sdp e =
    if str_eq sdp ""
    then (false, e)
    else offered x room_id user_id (ensure_peer x room_id user_id e) e

-- A pending renegotiation is started by a goroutine of its own: the flag tells whether one is.
abbrev pub answer_taken : Rtc → Option ℕ → Engine → Bool × Bool × Engine
answer_taken x none e = (false, false, e)
answer_taken x (some p) e =
    let c = e.store p in
    if c.closed
    then (false, false, e)
    else if not x.set_remote
    then (false, false, e)
    else (true, c.renegotiate_pending, put p (record c { renegotiate_pending = false }) e)

unfoldable pub handle_answer : Rtc → ℕ → ℕ → Engine → Bool × Bool × Engine
unfolding find_peer
handle_answer x room_id user_id e = answer_taken x (find_peer room_id user_id e) e

unfoldable pub change : (Peer → Peer) → ℕ → Option ℕ → Engine → Engine
unfolding broadcast_participants
change f room_id none e = e
change f room_id (some p) e = broadcast_participants room_id (put p (f (e.store p)) e)

abbrev pub with_state : Bool → Bool → Peer → Peer
with_state muted speaking c = record c { muted = muted; speaking = speaking && not muted }

abbrev pub with_muted : Bool → Peer → Peer
with_muted muted c = record c { muted = muted; speaking = if muted then false else c.speaking }

abbrev pub with_speaking : Bool → Peer → Peer
with_speaking speaking c = record c { speaking = speaking && not c.muted }

unfoldable pub set_voice_state : ℕ → ℕ → Bool → Bool → Engine → Engine
unfolding find_peer change
set_voice_state room_id user_id muted speaking e =
    change (with_state muted speaking) room_id (find_peer room_id user_id e) e

unfoldable pub set_muted : ℕ → ℕ → Bool → Engine → Engine
unfolding find_peer change
set_muted room_id user_id muted e =
    change (with_muted muted) room_id (find_peer room_id user_id e) e

unfoldable pub set_speaking : ℕ → ℕ → Bool → Engine → Engine
unfolding find_peer change
set_speaking room_id user_id speaking e =
    change (with_speaking speaking) room_id (find_peer room_id user_id e) e

unfoldable pub send_track : Rtc → ℕ → List (ℕ × ℕ) → Engine → Engine
unfolding add_track renegotiate
send_track x publisher [] e = e
send_track x publisher ((v, q) ∷ ps) e =
    send_track x publisher ps
      (if v == publisher then e else renegotiate x q (add_track x publisher q e))

abbrev pub is_here : Option ℕ → ℕ → Bool
is_here none p = false
is_here (some q) p = q == p

unfoldable pub forward_in : Rtc → ℕ → ℕ → Option Room → Engine → Engine
unfolding lookup insert send_track
forward_in x p track none e = e
forward_in x p track (some r) e =
    let c = e.store p in
    if is_here (lookup c.user_id r.peers) p
    then send_track x c.user_id r.peers (record e {
      rooms = insert c.room_id (record r { tracks = insert c.user_id track r.tracks }) e.rooms;
    })
    else e

-- `forwardAudio` from the made track to its loop: the publisher's track becomes known to its room.
unfoldable pub forward_audio : Rtc → ℕ → ℕ → Engine → Engine
unfolding forward_in lookup
forward_audio x p track e = forward_in x p track (lookup (e.store p).room_id e.rooms) e

-- The loop of `forwardAudio`: whether a packet of the publisher is passed on.
unfoldable pub passes : Peer → Bool
passes c = not c.closed && not c.muted

-- The callback on a connection's new state, with the goroutine that leaves.
unfoldable pub on_state_change : Rtc → ℕ → String → Engine → Engine
unfolding leave
on_state_change x p name e =
    let c = e.store p in
    let told = emit (state c.user_id c.room_id name) e in
    if str_eq name "failed" || str_eq name "closed" then leave x c.room_id c.user_id told else told

abbrev pub addresses : List (ℕ × Room) → List ℕ
addresses [] = []
addresses ((k, r) ∷ rooms) = map (λ (y : ℕ × ℕ). y.1) r.peers ++ addresses rooms

unfoldable pub leave_peers : Rtc → List ℕ → Engine → Engine
unfolding leave
leave_peers x [] e = e
leave_peers x (p ∷ ps) e = leave_peers x ps (leave x (e.store p).room_id (e.store p).user_id e)

unfoldable pub close : Rtc → Engine → Engine
unfolding leave_peers
close x e = leave_peers x (addresses e.rooms) e

-- `AddICECandidate` changes no state of the engine: the flag tells whether there was no error.
unfoldable pub add_ice_candidate : Rtc → ℕ → ℕ → Engine → Bool
unfolding find_peer
add_ice_candidate x room_id user_id e = elim (find_peer room_id user_id e) [
  | none ↦ false
  | some p ↦ x.add_ice
]

-- `New` starts without rooms; no address is used yet.
unfoldable pub new_engine : Engine
new_engine = record { rooms = []; store = λ p. new_peer 0 0; count = 0; signals = [] }
