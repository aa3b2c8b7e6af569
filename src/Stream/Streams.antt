-- ===== src/Stream/Streams.antt =====
-- server/internal/media/stream/registry.go: the map of the streams, and the registry's methods.
use Prim.Native.String.{String}
use text.Mathlib.Text.{◌==◌ as str_eq}
use nexusroom.Base.{ℕ, ◌+◌, Bool, true, false, Option, none, some, List, [], ◌∷◌, if◌then◌else◌}
use nexusroom.Flv.{Frame, AudioFrame}
use nexusroom.Stream.{
  OpusFrame, Entry, Subscription, chain, set, fresh, publish_entry, publish_audio_entry,
  publish_opus_entry, subscribe_entry, close_subscription, shutdown,
}

-- `streams` is the map, with one entry for a key; `entries` is the heap, filled below `count`.
pub record Registry : Type 0 where
  pub streams : List (String × ℕ)
  pub entries : ℕ → Entry
  pub count : ℕ

unfoldable pub find : String → List (String × ℕ) → Option ℕ
find key [] = none
find key ((k, p) ∷ m) = if str_eq k key then some p else find key m

unfoldable pub remove : String → List (String × ℕ) → List (String × ℕ)
remove key [] = []
remove key ((k, p) ∷ m) = if str_eq k key then remove key m else (k, p) ∷ remove key m

abbrev pub new_entry : List ℕ → List ℕ → List ℕ → Entry
new_entry sps pps aac = record {
  sps = sps;
  pps = pps;
  aac = aac;
  total_bytes = 0;
  has_opus = false;
  subscribers = [];
  channels = λ i. fresh;
  next_id = 0;
  closed = false;
}

-- `Start` under the registry's lock: the entry that was there before comes with the new state.
unfoldable pub swap : String → List ℕ → List ℕ → List ℕ → Registry → Option ℕ × Registry
unfolding find remove
swap key sps pps aac r = (
  find key r.streams,
  record {
    streams = (key, r.count) ∷ remove key r.streams;
    entries = set r.entries r.count (new_entry sps pps aac);
    count = r.count + 1;
  },
)

-- `Stop` under the registry's lock.
unfoldable pub take_out : String → Registry → Option ℕ × Registry
unfolding find remove
take_out key r = (find key r.streams, record r { streams = remove key r.streams })

abbrev pub on_entry : ℕ → (Entry → Option Entry) → Registry → Option Registry
on_entry p f r = chain (f (r.entries p)) (λ e. some (record r { entries = set r.entries p e }))

unfoldable pub shut : Option ℕ × Registry → Option Registry
unfolding shutdown
shut (none, r) = some r
shut (some p, r) = on_entry p shutdown r

unfoldable pub start : String → List ℕ → List ℕ → List ℕ → Registry → Option Registry
unfolding swap shut
start key sps pps aac r = shut (swap key sps pps aac r)

unfoldable pub stop : String → Registry → Option Registry
unfolding take_out shut
stop key r = shut (take_out key r)

abbrev pub at_key : Option ℕ → (Entry → Option (Bool × Entry)) → Registry → Option (Bool × Registry)
at_key none f r = some (false, r)
at_key (some p) f r =
    chain (f (r.entries p)) (λ (ok, e). some (ok, record r { entries = set r.entries p e }))

unfoldable pub publish : String → Frame → Registry → Option (Bool × Registry)
unfolding find publish_entry
publish key frame r = at_key (find key r.streams) (publish_entry frame) r

unfoldable pub publish_audio : String → AudioFrame → Registry → Option (Bool × Registry)
unfolding find publish_audio_entry
publish_audio key frame r = at_key (find key r.streams) (publish_audio_entry frame) r

unfoldable pub publish_opus : String → OpusFrame → Registry → Option (Bool × Registry)
unfolding find publish_opus_entry
publish_opus key frame r = at_key (find key r.streams) (publish_opus_entry frame) r

unfoldable pub set_opus_available : String → Bool → Registry → Option (Bool × Registry)
unfolding find
set_opus_available key available r =
    at_key (find key r.streams) (λ e. some (true, record e { has_opus = available })) r

unfoldable pub subscribe_at : Option ℕ → Registry → Option Subscription × Registry
unfolding subscribe_entry
subscribe_at none r = (none, r)
subscribe_at (some p) r =
    let (subscription, e) = subscribe_entry (r.entries p) in
    (subscription, record r { entries = set r.entries p e })

unfoldable pub subscribe : String → Registry → Option Subscription × Registry
unfolding find subscribe_at
subscribe key r = subscribe_at (find key r.streams) r

-- `Close` of a subscription to the entry at p.
unfoldable pub close_at : ℕ → ℕ → Registry → Option Registry
unfolding close_subscription
close_at p i r = on_entry p (close_subscription i) r
