-- ===== src/Playback/Tests.antt =====
-- A browser whose connection cannot be made, on a stream that another one watches.
use nexusroom.Base.{true, false, ◌==◌, Bool-cases, inl, inr}
use nexusroom.Stream.Steps.{AllInv}
use nexusroom.Stream.Tests.{running, running-Inv, empty-AllInv}
use nexusroom.Playback.{complete, Calls, answer}
use nexusroom.Playback.Answers.{Answered, answer-Answered}

abbrev calls : Calls
calls = record {
  new_peer_connection = true;
  new_video_track = true;
  add_video_track = true;
  new_audio_track = true;
  add_audio_track = true;
  set_remote_description = false;
  create_answer = true;
  set_local_description = true;
  gathering = complete;
  has_local_description = true;
}

running-AllInv : AllInv running
running-AllInv p = elim (Bool-cases (p == 0)) [
  | inl e ↦ rw e running-Inv
  | inr e ↦ rw e (empty-AllInv 0)
]

answer-Answered_example : Answered running (answer calls "cam" "v=0" running)
answer-Answered_example = answer-Answered calls "cam" "v=0" running running-AllInv
