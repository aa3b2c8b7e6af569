-- ===== src/Stream/Tests.antt =====
-- A stream with two subscribers, one of which does not read.
use nexusroom.Base.{
  ℕ, ◌≡◌, ◌≢◌, refl, true, false, none, some, List, [], ◌∷◌, ◌==◌, if◌then◌else◌, arith, any,
}
use nexusroom.Flv.{Frame}
use nexusroom.Stream.{Subscriber, Entry, set, fresh, add_bytes, member}
use nexusroom.Stream.Streams.{Registry, find, new_entry, start, stop, publish}
use nexusroom.Stream.Entries.{Inv, pushed_video}
use nexusroom.Stream.Methods.{Changed}
use nexusroom.Stream.Endings.{IsEnded}
use nexusroom.Stream.Steps.{
  Step, starts, shuts, publishes, subscribes, closes, run_steps, AllInv, run_steps-AllInv,
}
use nexusroom.Stream.Delivery.{publish_delivers, stop_ends, start_replaces}

abbrev frame : Frame
frame = record { pts = 0; dts = 0; nalus = (101 ∷ 1 ∷ []) ∷ []; key_frame = true }

abbrev idle : Entry
idle = record {
  sps = [];
  pps = [];
  aac = [];
  total_bytes = 0;
  has_opus = false;
  subscribers = [];
  channels = λ i. fresh;
  next_id = 0;
  closed = true;
}

abbrev pub empty : Registry
empty = record { streams = []; entries = λ p. idle; count = 0 }

pub empty-AllInv : AllInv empty
unfolding member any
empty-AllInv p = record {
  distinct = tt;
  ids = λ i m. cc;
  live = λ i h. absurd (omega arith);
  bounded = λ i h. absurd (omega arith);
  ended = λ c. refl;
}

-- The second start is published to before the first entry is shut, and its late reader closes
-- after that.
abbrev steps : List Step
steps =
    starts "cam" (1 ∷ []) (2 ∷ []) []
    ∷ subscribes 0
    ∷ publishes 0 frame
    ∷ subscribes 0
    ∷ starts "cam" (3 ∷ []) (4 ∷ []) []
    ∷ publishes 0 frame
    ∷ shuts 0
    ∷ publishes 0 frame
    ∷ closes 0 1
    ∷ subscribes 1
    ∷ publishes 1 frame
    ∷ []

run_steps-AllInv_example : (r' : Registry) × (run_steps steps empty ≡ some r') × AllInv r'
run_steps-AllInv_example = run_steps-AllInv steps empty empty-AllInv

abbrev pub running : Registry
running = record {
  streams = ("cam", 0) ∷ [];
  entries = λ p.
      if p == 0
      then record (new_entry (1 ∷ []) (2 ∷ []) []) { subscribers = 0 ∷ []; next_id = 1 }
      else idle;
  count = 1;
}

pub running-Inv : Inv (running.entries 0)
unfolding member any
running-Inv = record {
  distinct = (refl, tt);
  ids = λ i m. ground arith;
  live = λ i h.
      let first : i ≡ 0 = omega (arith, h) in
      rw first (record { video = refl; audio = refl; opus = refl });
  bounded = λ i h. record { video = omega arith; audio = omega arith; opus = omega arith };
  ended = λ c. cc;
}

publish_delivers_example :
    (after : ℕ → Subscriber) × (publish "cam" frame running
      ≡ some (
        true,
        record running {
          entries = set running.entries 0 (record (running.entries 0) {
            total_bytes = add_bytes 0 frame.nalus;
            channels = after;
          });
        },
      ))
    × Changed (pushed_video frame) (running.entries 0) after
unfolding find
publish_delivers_example = publish_delivers "cam" frame running 0 refl running-Inv refl

stop_ends_example :
    (r' : Registry) × (stop "cam" running ≡ some r')
    × IsEnded (running.entries 0) (r'.entries 0)
    × (find "cam" r'.streams ≡ none)
    × ((f : Frame) → publish "cam" f r' ≡ some (false, r'))
unfolding find
stop_ends_example = stop_ends "cam" running 0 refl running-Inv

start_replaces_example :
    (r' : Registry) × (start "cam" (3 ∷ []) (4 ∷ []) [] running ≡ some r')
    × IsEnded (running.entries 0) (r'.entries 0)
    × (find "cam" r'.streams ≡ some 1)
    × (r'.entries 1 ≡ new_entry (3 ∷ []) (4 ∷ []) [])
    × ((q : ℕ) → q ≢ 0 → q ≢ 1 → r'.entries q ≡ running.entries q)
unfolding find
start_replaces_example =
    start_replaces "cam" (3 ∷ []) (4 ∷ []) [] running 0 refl (omega arith) running-Inv
