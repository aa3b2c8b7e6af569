-- ===== src/Playback/Samples.antt =====
-- The samples that the loop of writeStream hands to the browser's track.
use nexusroom.Base.{
  ℕ, ◌+◌, ◌<◌, ◌≡◌, refl, inl, inr, Bool, true, false, not, ◌&&◌, Option, none, some, List, [], ◌∷◌,
  if◌then◌else◌, if_lem, ltb, arith, Bool-cases, All,
}
use nexusroom.Flv.{Frame}
use nexusroom.Playback.{Sample, duration_after, write_frames}

-- The frames from the first key frame on.
abbrev pub from_key : List Frame → List Frame
from_key [] = []
from_key (frame ∷ frames) = if frame.key_frame then frame ∷ frames else from_key frames

abbrev IsTimed : Sample → Type 0
IsTimed s = 0 < s.duration

duration_pos : (last : Option ℕ) (dts : ℕ) → 0 < duration_after last dts
duration_pos none dts = omega arith
duration_pos (some last) dts = ground arith

module _ (ok : Sample → Bool) (sps pps : List ℕ) where
  waits :
      (frames : List Frame)
      → write_frames ok sps pps false none frames
        ≡ write_frames ok sps pps true none (from_key frames)
  unfolding write_frames
  waits [] = refl
  waits (frame ∷ frames) = elim (Bool-cases frame.key_frame) [
    | inl k ↦ rw k refl
    | inr k ↦ rw k (waits frames)
  ]

  timed :
      (started : Bool) (last : Option ℕ) (frames : List Frame)
      → All IsTimed (write_frames ok sps pps started last frames)
  unfolding write_frames
  timed started last [] = tt
  timed started last (frame ∷ frames) = elim (Bool-cases (not started && not frame.key_frame)) [
    | inl skip ↦ rw skip (timed false last frames)
    | inr write ↦ rw write (
      duration_pos last frame.dts,
      if_lem (All IsTimed) (ok _) _ [] (timed true (some frame.dts) frames) tt,
    )
  ]

  -- Nothing is written before the first key frame, and from there on the loop writes as one that has
  -- started; every sample that is written has a positive duration.
  pub write_frames_lem :
      (frames : List Frame)
      → (write_frames ok sps pps false none frames
          ≡ write_frames ok sps pps true none (from_key frames))
        × All IsTimed (write_frames ok sps pps false none frames)
  write_frames_lem frames = (waits frames, timed false none frames)

-- Decode times that rise, after an earlier one.
abbrev pub Rising : ℕ → List Frame → Type 0
Rising last [] = Unit
Rising last (frame ∷ frames) = (last < frame.dts) × Rising frame.dts frames

abbrev pub total : List Sample → ℕ
total [] = 0
total (s ∷ ss) = s.duration + total ss

abbrev pub last_dts : ℕ → List Frame → ℕ
last_dts last [] = last
last_dts last (frame ∷ frames) = last_dts frame.dts frames

-- Where every write succeeds, the durations of frames with rising decode times add up to the time
-- that has passed from the frame before them to the last one.
pub total-write_frames :
    (sps pps : List ℕ) (last : ℕ) (frames : List Frame)
    → Rising last frames
    → last + total (write_frames (λ s. true) sps pps true (some last) frames) ≡ last_dts last frames
unfolding write_frames
total-write_frames sps pps last [] h = omega arith
total-write_frames sps pps last (frame ∷ frames) (h, hs) =
    let rest = total-write_frames sps pps frame.dts frames hs in
    let above : ltb last frame.dts ≡ true = ground (arith, h) in rw above (omega (arith, rest, h))
