-- ===== src/Stream/Methods.antt =====
-- The methods of an entry that publish and subscribe, on a well-formed entry.
use nexusroom.Base.{
  ℕ, ◌+◌, ◌≡◌, refl, sym, subst, ◌%◌, ◌^◌, inl, inr, Bool, true, false, Option, some, ◌∷◌, ◌==◌,
  if◌then◌else◌, length, any, arith, Bool-cases,
}
use nexusroom.Flv.{Frame, AudioFrame}
use nexusroom.Stream.{
  OpusFrame, Subscriber, Entry, set, member, each, offer_video, offer_audio, offer_opus,
  publish_entry, publish_audio_entry, publish_opus_entry, fresh, subscribe_entry, add_bytes,
}
use nexusroom.Stream.Entries.{
  each_lem, Shut, Bounded, Inv, Keeps, pushed_video, pushed_audio, pushed_opus, offer_video_lem,
  offer_audio_lem, offer_opus_lem, pushed_video-Keeps, pushed_audio-Keeps, pushed_opus-Keeps,
}

-- The channels of the listed subscribers are changed by g, and no others.
abbrev pub Changed : (Subscriber → Subscriber) → Entry → (ℕ → Subscriber) → Type 0
Changed g e after =
    (i : ℕ) → after i ≡ (if member i e.subscribers then g (e.channels i) else e.channels i)

pub each_entry :
    (f : Subscriber → Option Subscriber) (g : Subscriber → Subscriber) (e : Entry)
    → ((s : Subscriber) → Shut false s → f s ≡ some (g s))
    → Inv e
    → (after : ℕ → Subscriber) × (each f e.subscribers e.channels ≡ some after) × Changed g e after
each_entry f g e works v =
    each_lem f g e.subscribers e.channels v.distinct
      (λ i inside. works (e.channels i) (rw inside at (v.live i (v.ids i inside))))

channels-Inv :
    (g : Subscriber → Subscriber) (e : Entry) (n : ℕ) (after : ℕ → Subscriber)
    → Keeps g
    → Inv e
    → Changed g e after
    → Inv (record e { total_bytes = n; channels = after })
channels-Inv g e n after k v same = record {
  distinct = v.distinct;
  ids = v.ids;
  live = λ i h. elim (Bool-cases (member i e.subscribers)) [
    | inl m ↦ rw (same i, m) (k.flags false (e.channels i) (rw m at (v.live i h)))
    | inr m ↦ rw (same i, m) (rw m at (v.live i h))
  ];
  bounded = λ i h. elim (Bool-cases (member i e.subscribers)) [
    | inl m ↦ rw (same i, m) (k.bounds (e.channels i) (v.bounded i h))
    | inr m ↦ rw (same i, m) (v.bounded i h)
  ];
  ended = v.ended;
}

-- A method succeeds without a panic, and its new entry is well-formed.
abbrev pub Total : (Entry → Option (Bool × Entry)) → Type 0
Total m = (e : Entry) → Inv e → (r : Bool × Entry) × (m e ≡ some r) × Inv r.1

pub publish_entry-Total : (frame : Frame) → Total (publish_entry frame)
unfolding publish_entry
publish_entry-Total frame e v = elim (Bool-cases e.closed) [
  | inl c ↦ ((false, e), rw c refl, v)
  | inr c ↦
      let (after, done, same) =
        each_entry (offer_video frame) (pushed_video frame) e (offer_video_lem frame) v in
      (
        (true, record e { total_bytes = add_bytes e.total_bytes frame.nalus; channels = after }),
        rw (c, done) refl,
        channels-Inv (pushed_video frame) e (add_bytes e.total_bytes frame.nalus) after
            (pushed_video-Keeps frame) v same,
      )
]

pub publish_audio_entry-Total : (frame : AudioFrame) → Total (publish_audio_entry frame)
unfolding publish_audio_entry
publish_audio_entry-Total frame e v = elim (Bool-cases e.closed) [
  | inl c ↦ ((false, e), rw c refl, v)
  | inr c ↦
      let (after, done, same) =
        each_entry (offer_audio frame) (pushed_audio frame) e (offer_audio_lem frame) v in
      (
        (
          true,
          record e {
            total_bytes = (e.total_bytes + length frame.payload) % 2 ^ 64;
            channels = after;
          },
        ),
        rw (c, done) refl,
        channels-Inv (pushed_audio frame) e ((e.total_bytes + length frame.payload) % 2 ^ 64) after
            (pushed_audio-Keeps frame) v same,
      )
]

pub publish_opus_entry-Total : (frame : OpusFrame) → Total (publish_opus_entry frame)
unfolding publish_opus_entry
publish_opus_entry-Total frame e v = elim (Bool-cases e.closed) [
  | inl c ↦ ((false, e), rw c refl, v)
  | inr c ↦
      let (after, done, same) =
        each_entry (offer_opus frame) (pushed_opus frame) e (offer_opus_lem frame) v in
      (
        (true, record e { channels = after }),
        rw (c, done) refl,
        channels-Inv (pushed_opus frame) e e.total_bytes after (pushed_opus-Keeps frame) v same,
      )
]

fresh-Shut : Shut false fresh
fresh-Shut = record { video = refl; audio = refl; opus = refl }

fresh-Bounded : Bounded fresh
fresh-Bounded = record { video = omega arith; audio = omega arith; opus = omega arith }

subscribe_closed : (e : Entry) → e.closed ≡ true → (subscribe_entry e).1 ≡ e
unfolding subscribe_entry
subscribe_closed e c = rw c refl

abbrev with_subscriber : Entry → Entry
with_subscriber e = record e {
  next_id = e.next_id + 1;
  subscribers = e.next_id ∷ e.subscribers;
  channels = set e.channels e.next_id fresh;
}

subscribe_open : (e : Entry) → e.closed ≡ false → (subscribe_entry e).1 ≡ with_subscriber e
unfolding subscribe_entry
subscribe_open e c = rw c refl

with_subscriber-Inv : (e : Entry) → e.closed ≡ false → Inv e → Inv (with_subscriber e)
unfolding member any
with_subscriber-Inv e c v = record {
  distinct = (
    elim (Bool-cases (member e.next_id e.subscribers)) [
      | inl m ↦ absurd (omega (arith, v.ids e.next_id m))
      | inr m ↦ m
    ],
    v.distinct,
  );
  ids = λ i m. elim (Bool-cases (e.next_id == i)) [
    | inl same ↦ ground arith
    | inr other ↦ ground (arith, v.ids i, (rw other at m))
  ];
  live = λ i h. elim (Bool-cases (e.next_id == i)) [
    | inl same ↦ rw same fresh-Shut
    | inr other ↦ rw other (v.live i (ground arith))
  ];
  bounded = λ i h. elim (Bool-cases (e.next_id == i)) [
    | inl same ↦ rw same fresh-Bounded
    | inr other ↦ rw other (v.bounded i (ground arith))
  ];
  ended = λ closed. cc;
}

pub subscribe_entry-Inv : (e : Entry) → Inv e → Inv (subscribe_entry e).1
subscribe_entry-Inv e v = elim (Bool-cases e.closed) [
  | inl c ↦ subst Inv (sym (subscribe_closed e c)) v
  | inr c ↦ subst Inv (sym (subscribe_open e c)) (with_subscriber-Inv e c v)
]
