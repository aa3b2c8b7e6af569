-- ===== src/Stream.antt =====
-- server/internal/media/stream/registry.go: the live streams, their subscribers and the bounded
-- channels between them. An entry is a cell of the registry's heap, and a subscriber's channels
-- belong to its entry, by the subscriber's id, since they outlive its place in the map. `none` is a
-- panic (a send on a closed channel, or a second close of one). Frames are values, so their copies
-- are not seen, and times and the bit rate computed from them are left out.
pub mod Streams
pub mod Entries
pub mod Methods
pub mod Endings
pub mod Steps
pub mod Delivery
pub mod Tests
use nexusroom.Base.{
  ℕ, ◌+◌, ◌%◌, ◌^◌, Bool, true, false, not, Option, none, some, List, [], ◌∷◌, ◌++◌, ◌==◌, ltb,
  if◌then◌else◌, length, filter, any,
}
use nexusroom.Flv.{Frame, AudioFrame}

pub record OpusFrame : Type 0 where
  pub sequence_number : ℕ
  pub timestamp : ℕ
  pub marker : Bool
  pub payload : List ℕ

pub record Channel (A : Type 0) : Type 0 where
  pub queue : List A
  pub is_closed : Bool

pub record Subscriber : Type 0 where
  pub video : Channel Frame
  pub audio : Channel AudioFrame
  pub opus : Channel OpusFrame

-- `subscribers` lists the keys of the map; `channels` holds what was made for each id so far.
pub record Entry : Type 0 where
  pub sps : List ℕ
  pub pps : List ℕ
  pub aac : List ℕ
  pub total_bytes : ℕ
  pub has_opus : Bool
  pub subscribers : List ℕ
  pub channels : ℕ → Subscriber
  pub next_id : ℕ
  pub closed : Bool

abbrev pub chain : {A B : Type 0} → Option A → (A → Option B) → Option B
chain none k = none
chain (some a) k = k a

abbrev pub pushed : {A : Type 0} → ℕ → A → Channel A → Channel A
pushed capacity a c =
    if ltb (length c.queue) capacity then record c { queue = c.queue ++ a ∷ [] } else c

-- select { case c <- a: default: }
unfoldable pub offer : {A : Type 0} → ℕ → A → Channel A → Option (Channel A)
offer capacity a c = if c.is_closed then none else some (pushed capacity a c)

unfoldable pub close : {A : Type 0} → Channel A → Option (Channel A)
close c = if c.is_closed then none else some (record c { is_closed = true })

abbrev pub set : {A : Type 0} → (ℕ → A) → ℕ → A → ℕ → A
set store p a q = if p == q then a else store q

unfoldable pub member : ℕ → List ℕ → Bool
unfolding any
member i is = any (λ j. j == i) is

-- for id, subscriber := range e.subscribers
unfoldable pub each :
    (Subscriber → Option Subscriber) → List ℕ → (ℕ → Subscriber) → Option (ℕ → Subscriber)
each f [] channels = some channels
each f (i ∷ is) channels = chain (f (channels i)) (λ s. each f is (set channels i s))

abbrev pub offer_video : Frame → Subscriber → Option Subscriber
offer_video frame s = chain (offer 256 frame s.video) (λ c. some (record s { video = c }))

abbrev pub offer_audio : AudioFrame → Subscriber → Option Subscriber
offer_audio frame s = chain (offer 512 frame s.audio) (λ c. some (record s { audio = c }))

abbrev pub offer_opus : OpusFrame → Subscriber → Option Subscriber
offer_opus frame s = chain (offer 256 frame s.opus) (λ c. some (record s { opus = c }))

abbrev pub close_channels : Subscriber → Option Subscriber
close_channels s = chain (close s.video) (λ v.
    chain (close s.audio)
      (λ a. chain (close s.opus) (λ o. some (record { video = v; audio = a; opus = o }))))

-- totalBytes is a uint64.
unfoldable pub add_bytes : ℕ → List (List ℕ) → ℕ
add_bytes n [] = n
add_bytes n (nalu ∷ nalus) = add_bytes ((n + length nalu) % 2 ^ 64) nalus

-- The flag tells whether there was no error.
unfoldable pub publish_entry : Frame → Entry → Option (Bool × Entry)
unfolding each add_bytes
publish_entry frame e =
    if e.closed
    then some (false, e)
    else chain (each (offer_video frame) e.subscribers e.channels) (λ channels.
      some
        (true, record e { total_bytes = add_bytes e.total_bytes frame.nalus; channels = channels }))

unfoldable pub publish_audio_entry : AudioFrame → Entry → Option (Bool × Entry)
unfolding each
publish_audio_entry frame e =
    if e.closed
    then some (false, e)
    else chain (each (offer_audio frame) e.subscribers e.channels) (λ channels. some (
      true,
      record e {
        total_bytes = (e.total_bytes + length frame.payload) % 2 ^ 64;
        channels = channels;
      },
    ))

unfoldable pub publish_opus_entry : OpusFrame → Entry → Option (Bool × Entry)
unfolding each
publish_opus_entry frame e =
    if e.closed
    then some (false, e)
    else chain (each (offer_opus frame) e.subscribers e.channels)
        (λ channels. some (true, record e { channels = channels }))

abbrev pub fresh : Subscriber
fresh = record {
  video = record { queue = []; is_closed = false };
  audio = record { queue = []; is_closed = false };
  opus = record { queue = []; is_closed = false };
}

-- The channels of a subscription are those of its id.
pub record Subscription : Type 0 where
  pub id : ℕ
  pub sps : List ℕ
  pub pps : List ℕ
  pub aac : List ℕ
  pub has_opus : Bool

-- The id counts up without wrapping: 2 ^ 64 subscriptions to one stream are out of reach.
unfoldable pub subscribe_entry : Entry → Option Subscription × Entry
subscribe_entry e = if e.closed then (none, e) else (
  some (record { id = e.next_id; sps = e.sps; pps = e.pps; aac = e.aac; has_opus = e.has_opus }),
  record e {
    next_id = e.next_id + 1;
    subscribers = e.next_id ∷ e.subscribers;
    channels = set e.channels e.next_id fresh;
  },
)

-- The function that `Close` of a subscription calls. Its `sync.Once` lets a later call do nothing,
-- as the test of the map does.
unfoldable pub close_subscription : ℕ → Entry → Option Entry
unfolding close member filter
close_subscription i e =
    if member i e.subscribers
    then chain (close_channels (e.channels i)) (λ s. some (record e {
      subscribers = filter (λ j. not (j == i)) e.subscribers;
      channels = set e.channels i s;
    }))
    else some e

unfoldable pub shutdown : Entry → Option Entry
unfolding each
shutdown e =
    if e.closed
    then some e
    else chain (each close_channels e.subscribers e.channels)
        (λ channels. some (record e { closed = true; subscribers = []; channels = channels }))
