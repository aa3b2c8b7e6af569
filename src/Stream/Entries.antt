-- ===== src/Stream/Entries.antt =====
-- The well-formed entries of the stream registry, and the loops over their subscribers.
use nexusroom.Base.{
  ℕ, ◌≤◌, ◌<◌, ◌≡◌, refl, ◌∙◌, inl, inr, Bool, true, false, not, Option, some, List, [], ◌∷◌, ◌==◌,
  ltb, if◌then◌else◌, length, any, arith, Bool-cases, ==-refl, length-append,
}
use nexusroom.Flv.{Frame, AudioFrame}
use nexusroom.Stream.{
  OpusFrame, Channel, Subscriber, Entry, pushed, offer, close, set, member, each, offer_video,
  offer_audio, offer_opus, close_channels,
}

abbrev pub Distinct : List ℕ → Type 0
Distinct [] = Unit
Distinct (i ∷ is) = (member i is ≡ false) × Distinct is

-- A loop over distinct ids whose body succeeds on each of them.
pub each_lem :
    (f : Subscriber → Option Subscriber) (g : Subscriber → Subscriber) (is : List ℕ)
    (channels : ℕ → Subscriber)
    → Distinct is
    → ((i : ℕ) → member i is ≡ true → f (channels i) ≡ some (g (channels i)))
    → (after : ℕ → Subscriber) × (each f is channels ≡ some after)
      × ((i : ℕ) → after i ≡ (if member i is then g (channels i) else channels i))
unfolding each member any
each_lem f g [] channels d ok = (channels, refl, λ i. refl)
each_lem f g (i ∷ is) channels (new, d) ok =
    let here : f (channels i) ≡ some (g (channels i)) = ok i (ground (arith, ==-refl i)) in
    let (after, done, same) = each_lem f g is (set channels i (g (channels i))) d (λ j inside.
      elim (Bool-cases (i == j)) [
        | inl e ↦ let same_id : i ≡ j = ground arith in cc (rw (← same_id) at inside, new)
        | inr e ↦ rw e (ok j (ground (arith, inside)))
      ]) in
    (
      after,
      rw here done,
      λ j. elim (Bool-cases (i == j)) [
        | inl e ↦ let same_id : i ≡ j = ground arith in same j ∙ rw (e, ← same_id, new) refl
        | inr e ↦ same j ∙ rw e refl
      ],
    )

-- All three channels of a subscriber are closed, or all are open.
pub record Shut (b : Bool) (s : Subscriber) : Type 0 where
  pub video : s.video.is_closed ≡ b
  pub audio : s.audio.is_closed ≡ b
  pub opus : s.opus.is_closed ≡ b

pub record Bounded (s : Subscriber) : Type 0 where
  pub video : length s.video.queue ≤ 256
  pub audio : length s.audio.queue ≤ 512
  pub opus : length s.opus.queue ≤ 256

-- The subscribers of an entry are exactly the ids whose channels are open, each listed once; no
-- queue is over its capacity; and an entry that is closed has no subscribers.
pub record Inv (e : Entry) : Type 0 where
  pub distinct : Distinct e.subscribers
  pub ids : (i : ℕ) → member i e.subscribers ≡ true → i < e.next_id
  pub live : (i : ℕ) → i < e.next_id → Shut (not (member i e.subscribers)) (e.channels i)
  pub bounded : (i : ℕ) → i < e.next_id → Bounded (e.channels i)
  pub ended : e.closed ≡ true → e.subscribers ≡ []

abbrev pub pushed_video : Frame → Subscriber → Subscriber
pushed_video frame s = record s { video = pushed 256 frame s.video }

abbrev pub pushed_audio : AudioFrame → Subscriber → Subscriber
pushed_audio frame s = record s { audio = pushed 512 frame s.audio }

abbrev pub pushed_opus : OpusFrame → Subscriber → Subscriber
pushed_opus frame s = record s { opus = pushed 256 frame s.opus }

abbrev pub closed_all : Subscriber → Subscriber
closed_all s = record {
  video = record s.video { is_closed = true };
  audio = record s.audio { is_closed = true };
  opus = record s.opus { is_closed = true };
}

offer_lem :
    {A : Type 0} (n : ℕ) (a : A) (c : Channel A)
    → c.is_closed ≡ false
    → offer n a c ≡ some (pushed n a c)
unfolding offer
offer_lem n a c e = rw e refl

pub offer_video_lem :
    (frame : Frame) (s : Subscriber)
    → Shut false s
    → offer_video frame s ≡ some (pushed_video frame s)
offer_video_lem frame s o = rw (offer_lem 256 frame s.video o.video) refl

pub offer_audio_lem :
    (frame : AudioFrame) (s : Subscriber)
    → Shut false s
    → offer_audio frame s ≡ some (pushed_audio frame s)
offer_audio_lem frame s o = rw (offer_lem 512 frame s.audio o.audio) refl

pub offer_opus_lem :
    (frame : OpusFrame) (s : Subscriber)
    → Shut false s
    → offer_opus frame s ≡ some (pushed_opus frame s)
offer_opus_lem frame s o = rw (offer_lem 256 frame s.opus o.opus) refl

pub close_channels_lem : (s : Subscriber) → Shut false s → close_channels s ≡ some (closed_all s)
unfolding close
close_channels_lem s o = rw (o.video, o.audio, o.opus) refl

pushed-closed :
    {A : Type 0} (n : ℕ) (a : A) (c : Channel A) → (pushed n a c).is_closed ≡ c.is_closed
pushed-closed n a c = elim (Bool-cases (ltb (length c.queue) n)) [
  | inl e ↦ rw e refl
  | inr e ↦ rw e refl
]

pushed-length :
    {A : Type 0} (n : ℕ) (a : A) (c : Channel A)
    → length c.queue ≤ n
    → length (pushed n a c).queue ≤ n
pushed-length n a c h = elim (Bool-cases (ltb (length c.queue) n)) [
  | inl e ↦ rw (e, length-append c.queue (a ∷ [])) (ground arith)
  | inr e ↦ rw e h
]

-- What a method may do to a listed subscriber's channels, so that the entry stays well-formed.
pub record Keeps (g : Subscriber → Subscriber) : Type 0 where
  pub flags : (b : Bool) (s : Subscriber) → Shut b s → Shut b (g s)
  pub bounds : (s : Subscriber) → Bounded s → Bounded (g s)

pub pushed_video-Keeps : (frame : Frame) → Keeps (pushed_video frame)
pushed_video-Keeps frame = record {
  flags = λ b s o. record {
    video = pushed-closed 256 frame s.video ∙ o.video;
    audio = o.audio;
    opus = o.opus;
  };
  bounds = λ s o. record {
    video = pushed-length 256 frame s.video o.video;
    audio = o.audio;
    opus = o.opus;
  };
}

pub pushed_audio-Keeps : (frame : AudioFrame) → Keeps (pushed_audio frame)
pushed_audio-Keeps frame = record {
  flags = λ b s o. record {
    video = o.video;
    audio = pushed-closed 512 frame s.audio ∙ o.audio;
    opus = o.opus;
  };
  bounds = λ s o. record {
    video = o.video;
    audio = pushed-length 512 frame s.audio o.audio;
    opus = o.opus;
  };
}

pub pushed_opus-Keeps : (frame : OpusFrame) → Keeps (pushed_opus frame)
pushed_opus-Keeps frame = record {
  flags = λ b s o. record {
    video = o.video;
    audio = o.audio;
    opus = pushed-closed 256 frame s.opus ∙ o.opus;
  };
  bounds = λ s o. record {
    video = o.video;
    audio = o.audio;
    opus = pushed-length 256 frame s.opus o.opus;
  };
}
