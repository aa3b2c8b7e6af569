-- ===== src/Rtmp/Tests.antt =====
-- A camera that publishes to an empty registry.

use nexusroom.Base.{◌≡◌, refl, true, false, none, some, List, [], ◌∷◌}
use nexusroom.Flv.{Frame}
use nexusroom.Stream.{chain}
use nexusroom.Stream.Streams.{find, publish}
use nexusroom.Stream.Steps.{AllInv}
use nexusroom.Stream.Tests.{empty, empty-AllInv}
use nexusroom.Rtmp.{
  Request, Server, Event, video_unit, audio_unit, coder_failed, admit, admit_path, admit_parts,
  admit_key, admitted, valid_stream_key, all_allowed, begin, finish, publish_video,
}
use nexusroom.Rtmp.Admission.{IsAdmitted, admit-IsAdmitted}
use nexusroom.Rtmp.Runs.{publish_video-returns, overlapping_ends}

abbrev request : Request
request = record { publishes = true; parts = some ("live" ∷ "camera-1" ∷ []) }

is_admitted : admit none request empty ≡ admitted "camera-1"
unfolding admit admit_path admit_parts admit_key valid_stream_key all_allowed find
is_admitted = refl

admit-IsAdmitted_example : IsAdmitted none request "camera-1" empty
admit-IsAdmitted_example = admit-IsAdmitted none request "camera-1" empty is_admitted

abbrev server : Server
server = record { registry = empty; states = [] }

abbrev events : List Event
events = video_unit 0 0 ((101 ∷ 7 ∷ []) ∷ []) ∷ audio_unit 3 (1 ∷ []) false ∷ coder_failed ∷ []

publish_video-returns_example :
    (s : Server) × (publish_video "camera-1" (1 ∷ [], 2 ∷ []) (some (18 ∷ [])) true events server
      ≡ some s)
    × AllInv s.registry
    × (find "camera-1" s.registry.streams ≡ none)
    × (s.states ≡ ("camera-1", true) ∷ ("camera-1", false) ∷ [])
publish_video-returns_example =
    publish_video-returns "camera-1" (1 ∷ []) (2 ∷ []) (some (18 ∷ [])) true events server
      empty-AllInv

overlapping_ends_example :
    (s : Server) × (chain
        (begin "camera-1" (1 ∷ []) (2 ∷ []) [] false server)
        (λ s₁. chain (begin "camera-1" (3 ∷ []) (4 ∷ []) [] false s₁) (finish "camera-1"))
      ≡ some s)
    × (find "camera-1" s.registry.streams ≡ none)
    × ((frame : Frame) → publish "camera-1" frame s.registry ≡ some (false, s.registry))
    × (s.states ≡ ("camera-1", true) ∷ ("camera-1", true) ∷ ("camera-1", false) ∷ [])
overlapping_ends_example =
    overlapping_ends "camera-1" (1 ∷ []) (2 ∷ []) [] (3 ∷ []) (4 ∷ []) [] false false server
      empty-AllInv
