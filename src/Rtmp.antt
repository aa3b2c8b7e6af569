-- ===== src/Rtmp.antt =====
-- server/internal/media/rtmp/server.go: what a connection may publish, and its publication over the
-- registry of the streams. The RTMP library and the transcoder are parameters: what the library
-- read of the request and of the tracks, what it reads afterwards as events, and whether the
-- transcoder starts and takes what is written to it.
pub mod Admission
pub mod Events
pub mod Runs
pub mod Tests
use Prim.Native.String
use Prim.Native.String.{String, len}
use Prim.Native.Char.{Char, code}
use text.Mathlib.Text.{◌==◌ as str_eq}
use nexusroom.Base.{
  ℕ, ◌%◌, Bool, true, false, not, ◌&&◌, ◌||◌, Option, none, some, List, [], ◌∷◌, ◌++◌, ◌==◌,
  if◌then◌else◌, leb, ltb,
}
use nexusroom.Flv.{Frame, AudioFrame}
use nexusroom.Stream.{OpusFrame, chain}
use nexusroom.Stream.Streams.{
  Registry, find, start, stop, publish, publish_audio, publish_opus, set_opus_available,
}

-- The reasons for which a connection is refused before its tracks are read.
pub data Refusal : Type 0 where
  playback missing_key wrong_path invalid_key unauthorized already_publishing : Refusal

pub data Verdict : Type 0 where
  refused : Refusal → Verdict
  admitted : (stream_key : String) → Verdict

-- The accepted connection: whether it publishes, and the parts of its path between the slashes,
-- where there is a path besides slashes.
pub record Request : Type 0 where
  pub publishes : Bool
  pub parts : Option (List String)

abbrev pub is_allowed : Char → Bool
is_allowed c =
    leb 97 (code c) && leb (code c) 122
    || (leb 65 (code c) && leb (code c) 90
        || (leb 48 (code c) && leb (code c) 57 || (code c == 45 || code c == 95)))

unfoldable pub all_allowed : String → Bool
all_allowed String.[] = true
all_allowed (String.◌∷◌ c s) = if is_allowed c then all_allowed s else false

-- The length counts bytes.
unfoldable pub valid_stream_key : String → Bool
unfolding all_allowed
valid_stream_key key = if ltb (len key) 8 || ltb 128 (len key) then false else all_allowed key

abbrev pub is_active : Option ℕ → Bool
is_active none = false
is_active (some p) = true

abbrev pub allows : Option (String → Bool) → String → Bool
allows none key = true
allows (some authorize) key = authorize key

unfoldable pub admit_key : Option (String → Bool) → String → Registry → Verdict
unfolding valid_stream_key find
admit_key authorize key r =
    if not (valid_stream_key key)
    then refused invalid_key
    else if not (allows authorize key)
    then refused unauthorized
    else if is_active (find key r.streams)
    then refused already_publishing
    else admitted key

unfoldable pub admit_parts : Option (String → Bool) → List String → Registry → Verdict
unfolding admit_key
admit_parts authorize (app ∷ key ∷ []) r =
    if not (str_eq app "live") then refused wrong_path else admit_key authorize key r
admit_parts authorize parts r = refused wrong_path

unfoldable pub admit_path : Option (String → Bool) → Option (List String) → Registry → Verdict
unfolding admit_parts
admit_path authorize none r = refused missing_key
admit_path authorize (some parts) r = admit_parts authorize parts r

-- The checks of `handleInner` before the tracks are read.
unfoldable pub admit : Option (String → Bool) → Request → Registry → Verdict
unfolding admit_path
admit authorize q r = if not q.publishes then refused playback else admit_path authorize q.parts r

-- A track, with the encoded configuration of an AAC one where there is one.
pub data Track : Type 0 where
  h264 : (sps pps : List ℕ) → Track
  mpeg4_audio : (config : Option (List ℕ)) → Track
  other : Track

pub record Media : Type 0 where
  pub video : Option (List ℕ × List ℕ)
  pub audio : Option (List ℕ)

-- The loop over the tracks; a later track of a kind replaces an earlier one.
unfoldable pub choose : List Track → Media → Media
choose [] m = m
choose (h264 sps pps ∷ ts) m = choose ts (record m { video = some (sps, pps) })
choose (mpeg4_audio none ∷ ts) m = choose ts m
choose (mpeg4_audio (some config) ∷ ts) m = choose ts (record m { audio = some config })
choose (other ∷ ts) m = choose ts m

abbrev pub audio_config : Option (List ℕ) → List ℕ
audio_config none = []
audio_config (some config) = config

abbrev pub is_some : Option (List ℕ) → Bool
is_some none = false
is_some (some config) = true

-- A unit whose first byte has the type 5 in its lower five bits.
abbrev pub is_idr : List ℕ → Bool
is_idr [] = false
is_idr (b ∷ bs) = b % 32 == 5

unfoldable pub is_key_frame : List (List ℕ) → Bool
is_key_frame [] = false
is_key_frame (nalu ∷ nalus) = if is_idr nalu then true else is_key_frame nalus

-- The registry, and what `onState` has been told.
pub record Server : Type 0 where
  pub registry : Registry
  pub states : List (String × Bool)

abbrev pub with_registry : Server → Option (Bool × Registry) → Option Server
with_registry srv none = none
with_registry srv (some (ok, r)) = some (record srv { registry = r })

abbrev pub tell : String → Bool → Server → Server
tell key active srv = record srv { states = srv.states ++ (key, active) ∷ [] }

-- A transcoder runs if there is a configuration and it starts.
abbrev pub has_coder : List ℕ → Bool → Bool
has_coder [] starts = false
has_coder (b ∷ bs) starts = starts

abbrev pub with_coder : Bool → String → Server → Option Server
with_coder false key srv = some srv
with_coder true key srv = with_registry srv (set_opus_available key true srv.registry)

unfoldable pub begin : String → (sps pps config : List ℕ) → (coder : Bool) → Server → Option Server
unfolding start with_coder
begin key sps pps config coder srv =
    chain (start key sps pps config srv.registry) (λ r.
      chain (with_coder coder key (record srv { registry = r })) (λ s. some (tell key true s)))

-- What the reader and the transcoder call back.
pub data Event : Type 0 where
  video_unit : (pts dts : ℕ) (nalus : List (List ℕ)) → Event
  audio_unit : (pts : ℕ) (payload : List ℕ) (written : Bool) → Event
  opus_packet : OpusFrame → Event
  coder_failed : Event

abbrev pub not_written : Bool → String → Server → Option Server
not_written true key srv = some srv
not_written false key srv = with_registry srv (set_opus_available key false srv.registry)

-- Audio comes where an audio track was chosen, and packets where a transcoder runs.
unfoldable pub on_event : String → (audio coder : Bool) → Event → Server → Option Server
unfolding publish publish_audio publish_opus set_opus_available is_key_frame
on_event key audio coder (video_unit pts dts nalus) srv = with_registry srv (
    publish key (record { pts = pts; dts = dts; nalus = nalus; key_frame = is_key_frame nalus })
      srv.registry)
on_event key audio coder (audio_unit pts payload written) srv =
    if not audio
    then some srv
    else chain
        (with_registry srv
          (publish_audio key (record { pts = pts; payload = payload }) srv.registry))
        (not_written (written || not coder) key)
on_event key audio coder (opus_packet frame) srv =
    if not coder then some srv else with_registry srv (publish_opus key frame srv.registry)
on_event key audio coder coder_failed srv =
    if not coder then some srv else with_registry srv (set_opus_available key false srv.registry)

unfoldable pub on_events : String → (audio coder : Bool) → List Event → Server → Option Server
unfolding on_event
on_events key audio coder [] srv = some srv
on_events key audio coder (ev ∷ evs) srv =
    chain (on_event key audio coder ev srv) (on_events key audio coder evs)

-- The deferred function; the transcoder is closed first.
unfoldable pub finish : String → Server → Option Server
unfolding stop
finish key srv =
    chain (stop key srv.registry) (λ r. some (tell key false (record srv { registry = r })))

unfoldable pub publish_video :
    String
    → (List ℕ × List ℕ)
    → Option (List ℕ)
    → (starts : Bool) → List Event
    → Server
    → Option Server
unfolding begin on_events finish
publish_video key (sps, pps) audio starts evs srv =
    let config = audio_config audio in
    let coder = has_coder config starts in
    chain (begin key sps pps config coder srv)
      (λ s. chain (on_events key (is_some audio) coder evs s) (finish key))

-- `handleInner` from the tracks to its end, with the events that its reader reads until it fails; the
-- flag is false where the connection has no video.
unfoldable pub publication :
    String → List Track → (starts : Bool) → List Event → Server → Option (Bool × Server)
unfolding choose publish_video
publication key tracks starts evs srv =
    let m = choose tracks (record { video = none; audio = none }) in
    elim m.video [
      | none ↦ some (false, srv)
      | some v ↦ chain (publish_video key v m.audio starts evs srv) (λ s. some (true, s))
    ]
