-- ===== src/Playback.antt =====
-- server/internal/media/rtcplay/engine.go: a browser that watches a stream. The WebRTC library is a
-- parameter: what its calls return while one offer is answered. Decode times are not negative here.
pub mod Subscribers
pub mod Answers
pub mod Samples
pub mod Tests
use Prim.Native.String.{String}
use text.Mathlib.Text.{◌==◌ as str_eq}
use nexusroom.Base.{
  ℕ, ◌+◌, ◌-◌, ◌/◌, ◌%◌, Bool, true, false, not, ◌&&◌, ◌||◌, Option, none, some, List, [], ◌∷◌,
  ◌++◌, ◌==◌, if◌then◌else◌, ltb,
}
use nexusroom.Flv.{Frame}
use nexusroom.Stream.{Subscription, chain}
use nexusroom.Stream.Streams.{Registry, find, subscribe_at, close_at}

-- How the wait for the candidates ends.
pub data Gathering : Type 0 where
  complete cancelled timed_out : Gathering

-- Whether each call succeeds, and how the wait for the candidates ends.
pub record Calls : Type 0 where
  pub new_peer_connection : Bool
  pub new_video_track : Bool
  pub add_video_track : Bool
  pub new_audio_track : Bool
  pub add_audio_track : Bool
  pub set_remote_description : Bool
  pub create_answer : Bool
  pub set_local_description : Bool
  pub gathering : Gathering
  pub has_local_description : Bool

-- An answer names the entry and the subscription that the loops of the playback read.
pub data Reply : Type 0 where
  refused : Reply
  playing : (p id : ℕ) → Reply

abbrev pub is_empty : List ℕ → Bool
is_empty [] = true
is_empty (b ∷ bs) = false

-- The peer connection that one call of `Answer` makes.
pub data Connection : Type 0 where
  absent opened closed : Connection

pub record Session : Type 0 where
  pub registry : Registry
  pub connection : Connection

abbrev pub with_registry : Session → Option Registry → Option Session
with_registry t none = none
with_registry t (some r) = some (record t { registry = r })

-- subscription.Close(); `none` is a panic.
unfoldable pub close_subscribed : (p id : ℕ) → Session → Option Session
unfolding close_at
close_subscribed p id t = with_registry t (close_at p id t.registry)

-- pc.Close()
unfoldable pub close_connection : Option Session → Option Session
close_connection none = none
close_connection (some t) = some (record t { connection = closed })

-- `closePeer`, at its first call.
unfoldable pub close_peer : (p id : ℕ) → Session → Option Session
unfolding close_subscribed close_connection
close_peer p id t = close_connection (close_subscribed p id t)

-- The return with an error.
abbrev pub refuse : Option Session → Option (Reply × Session)
refuse none = none
refuse (some t) = some (refused, t)

-- The select, and the local description after it.
unfoldable pub gathered : Calls → Gathering → (p id : ℕ) → Session → Option (Reply × Session)
unfolding close_peer
gathered x complete p id t =
    if x.has_local_description then some (playing p id, t) else refuse (close_peer p id t)
gathered x cancelled p id t = refuse (close_peer p id t)
gathered x timed_out p id t = refuse (close_peer p id t)

unfoldable pub negotiate : Calls → (p id : ℕ) → Session → Option (Reply × Session)
unfolding gathered close_peer
negotiate x p id t =
    if not x.set_remote_description
    then refuse (close_peer p id t)
    else if not x.create_answer
    then refuse (close_peer p id t)
    else if not x.set_local_description
    then refuse (close_peer p id t)
    else gathered x x.gathering p id t

-- The audio track, where the stream has one.
unfoldable pub with_audio : Calls → (p : ℕ) → Subscription → Session → Option (Reply × Session)
unfolding negotiate close_subscribed close_connection
with_audio x p s t =
    if s.has_opus
    then (if not x.new_audio_track
        then refuse (close_connection (close_subscribed p s.id t))
        else if not x.add_audio_track
        then refuse (close_connection (close_subscribed p s.id t))
        else negotiate x p s.id t)
    else negotiate x p s.id t

unfoldable pub with_video : Calls → (p : ℕ) → Subscription → Session → Option (Reply × Session)
unfolding with_audio close_subscribed close_connection
with_video x p s t =
    if not x.new_video_track
    then refuse (close_connection (close_subscribed p s.id t))
    else if not x.add_video_track
    then refuse (close_connection (close_subscribed p s.id t))
    else with_audio x p s t

unfoldable pub answer_subscribed :
    Calls → (p : ℕ) → Option Subscription × Registry → Option (Reply × Session)
unfolding with_video close_subscribed
answer_subscribed x p (none, r) = some (refused, record { registry = r; connection = absent })
answer_subscribed x p (some s, r) =
    let t : Session = record { registry = r; connection = absent } in
    if not (is_empty s.aac) && not s.has_opus
    then refuse (close_subscribed p s.id t)
    else if not x.new_peer_connection
    then refuse (close_subscribed p s.id t)
    else with_video x p s (record t { connection = opened })

unfoldable pub answer_at : Calls → Option ℕ → Registry → Option (Reply × Session)
unfolding answer_subscribed subscribe_at
answer_at x none r = some (refused, record { registry = r; connection = absent })
answer_at x (some p) r = answer_subscribed x p (subscribe_at (some p) r)

-- `Answer`, up to the start of its loops.
unfoldable pub answer :
    Calls → (stream_key offer_sdp : String) → Registry → Option (Reply × Session)
unfolding answer_at find
answer x stream_key offer_sdp r =
    if str_eq offer_sdp ""
    then some (refused, record { registry = r; connection = absent })
    else answer_at x (find stream_key r.streams) r

-- The units of a frame, each after a start code, with the parameter sets before a key frame.
unfoldable pub start_coded : List (List ℕ) → List ℕ
start_coded [] = []
start_coded (part ∷ parts) = 0 ∷ 0 ∷ 0 ∷ 1 ∷ part ++ start_coded parts

unfoldable pub annex_b : Frame → (sps pps : List ℕ) → List ℕ
unfolding start_coded
annex_b frame sps pps =
    start_coded (if frame.key_frame then sps ∷ pps ∷ frame.nalus else frame.nalus)

pub record Sample : Type 0 where
  pub payload : List ℕ
  pub duration : ℕ

-- A second / 30, in nanoseconds.
abbrev pub default_duration : ℕ
default_duration = 33333333

abbrev pub duration_after : Option ℕ → ℕ → ℕ
duration_after none dts = default_duration
duration_after (some last) dts = if ltb last dts then dts - last else default_duration

-- The loop of writeStream: the samples that are written, the last of which may fail.
-- `goes_on_after` tells whether the loop goes on after a write.
unfoldable pub write_frames :
    (goes_on_after : Sample → Bool) (sps pps : List ℕ) (started : Bool) (last : Option ℕ)
    → List Frame
    → List Sample
unfolding annex_b
write_frames ok sps pps started last [] = []
write_frames ok sps pps started last (frame ∷ frames) =
    let sample : Sample = record {
      payload = annex_b frame sps pps;
      duration = duration_after last frame.dts;
    } in
    let skipped = write_frames ok sps pps false last frames in
    let rest = write_frames ok sps pps true (some frame.dts) frames in
    if not started && not frame.key_frame
    then skipped
    else sample ∷ (if ok sample then rest else [])
