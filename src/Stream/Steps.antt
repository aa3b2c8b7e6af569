-- ===== src/Stream/Steps.antt =====
-- The registry under interleaved calls: each step is what one goroutine does under one lock.
use Prim.Native.String.{String}
use nexusroom.Base.{
  ℕ, ◌≡◌, refl, inl, inr, Bool, Option, none, some, List, [], ◌∷◌, ◌==◌, arith, Bool-cases,
}
use nexusroom.Flv.{Frame, AudioFrame}
use nexusroom.Stream.{
  OpusFrame, Entry, chain, set, publish_entry, publish_audio_entry, publish_opus_entry,
  subscribe_entry, close_subscription, shutdown, member,
}
use nexusroom.Stream.Streams.{Registry, on_entry, swap, take_out, new_entry}
use nexusroom.Stream.Entries.{Inv}
use nexusroom.Stream.Methods.{
  publish_entry-Total, publish_audio_entry-Total, publish_opus_entry-Total, subscribe_entry-Inv,
}
use nexusroom.Stream.Endings.{close_subscription-Inv, shutdown-IsEnded}

-- A caller that has read the map holds an entry p, which may be replaced or ended by the time the
-- caller takes the entry's own lock. `shuts` is the second half of `Start` and of `Stop`.
pub data Step : Type 0 where
  starts : (key : String) (sps pps aac : List ℕ) → Step
  stops : (key : String) → Step
  shuts : (p : ℕ) → Step
  publishes : (p : ℕ) (frame : Frame) → Step
  publishes_audio : (p : ℕ) (frame : AudioFrame) → Step
  publishes_opus : (p : ℕ) (frame : OpusFrame) → Step
  sets_opus : (p : ℕ) (available : Bool) → Step
  subscribes : (p : ℕ) → Step
  closes : (p id : ℕ) → Step

abbrev pub entry_of : Option (Bool × Entry) → Option Entry
entry_of none = none
entry_of (some (ok, e)) = some e

unfoldable pub step : Step → Registry → Option Registry
unfolding swap take_out
step (starts key sps pps aac) r = some (swap key sps pps aac r).1
step (stops key) r = some (take_out key r).1
step (shuts p) r = on_entry p shutdown r
step (publishes p frame) r = on_entry p (λ e. entry_of (publish_entry frame e)) r
step (publishes_audio p frame) r = on_entry p (λ e. entry_of (publish_audio_entry frame e)) r
step (publishes_opus p frame) r = on_entry p (λ e. entry_of (publish_opus_entry frame e)) r
step (sets_opus p available) r = on_entry p (λ e. some (record e { has_opus = available })) r
step (subscribes p) r = on_entry p (λ e. some (subscribe_entry e).1) r
step (closes p id) r = on_entry p (close_subscription id) r

unfoldable pub run_steps : List Step → Registry → Option Registry
run_steps [] r = some r
run_steps (s ∷ ss) r = chain (step s r) (run_steps ss)

abbrev pub AllInv : Registry → Type 0
AllInv r = (p : ℕ) → Inv (r.entries p)

pub set-Inv :
    (entries : ℕ → Entry) (p : ℕ) (e : Entry)
    → ((q : ℕ) → Inv (entries q))
    → Inv e
    → (q : ℕ) → Inv (set entries p e q)
set-Inv entries p e all v q = elim (Bool-cases (p == q)) [
  | inl same ↦ rw same v
  | inr other ↦ rw other (all q)
]

on_entry-AllInv :
    (p : ℕ) (f : Entry → Option Entry) (r : Registry)
    → AllInv r
    → ((e' : Entry) × (f (r.entries p) ≡ some e') × Inv e')
    → (r' : Registry) × (on_entry p f r ≡ some r') × AllInv r'
on_entry-AllInv p f r all (e', done, v) =
    (record r { entries = set r.entries p e' }, rw done refl, set-Inv r.entries p e' all v)

entry_of-Inv :
    (x : Option (Bool × Entry))
    → ((r : Bool × Entry) × (x ≡ some r) × Inv r.1)
    → (e' : Entry) × (entry_of x ≡ some e') × Inv e'
entry_of-Inv x ((ok, e'), done, v) = (e', rw done refl, v)

pub opus-Inv : (e : Entry) (available : Bool) → Inv e → Inv (record e { has_opus = available })
opus-Inv e available v = record {
  distinct = v.distinct;
  ids = v.ids;
  live = v.live;
  bounded = v.bounded;
  ended = v.ended;
}

pub new_entry-Inv : (sps pps aac : List ℕ) → Inv (new_entry sps pps aac)
unfolding member
new_entry-Inv sps pps aac = record {
  distinct = tt;
  ids = λ i m. cc;
  live = λ i h. absurd (omega arith);
  bounded = λ i h. absurd (omega arith);
  ended = λ c. refl;
}

step-AllInv :
    (s : Step) (r : Registry) → AllInv r → (r' : Registry) × (step s r ≡ some r') × AllInv r'
unfolding step
step-AllInv (starts key sps pps aac) r all = (
  (swap key sps pps aac r).1,
  refl,
  set-Inv r.entries r.count (new_entry sps pps aac) all (new_entry-Inv sps pps aac),
)
step-AllInv (stops key) r all = ((take_out key r).1, refl, all)
step-AllInv (shuts p) r all =
    let (e', done, _, v) = shutdown-IsEnded (r.entries p) (all p) in
    on_entry-AllInv p shutdown r all (e', done, v)
step-AllInv (publishes p frame) r all =
    on_entry-AllInv p (λ e. entry_of (publish_entry frame e)) r all
      (entry_of-Inv _ (publish_entry-Total frame (r.entries p) (all p)))
step-AllInv (publishes_audio p frame) r all =
    on_entry-AllInv p (λ e. entry_of (publish_audio_entry frame e)) r all
      (entry_of-Inv _ (publish_audio_entry-Total frame (r.entries p) (all p)))
step-AllInv (publishes_opus p frame) r all =
    on_entry-AllInv p (λ e. entry_of (publish_opus_entry frame e)) r all
      (entry_of-Inv _ (publish_opus_entry-Total frame (r.entries p) (all p)))
step-AllInv (sets_opus p available) r all =
    on_entry-AllInv p (λ e. some (record e { has_opus = available })) r all
      (_, refl, opus-Inv (r.entries p) available (all p))
step-AllInv (subscribes p) r all =
    on_entry-AllInv p (λ e. some (subscribe_entry e).1) r all
      (_, refl, subscribe_entry-Inv (r.entries p) (all p))
step-AllInv (closes p id) r all =
    on_entry-AllInv p (close_subscription id) r all
      (close_subscription-Inv id (r.entries p) (all p))

-- However the locked parts of `Start`, `Stop`, the publications, `SetOpusAvailable`, `Subscribe` and
-- `Close` interleave, and whatever entries late callers still hold, nothing panics: no frame is
-- sent on a closed channel and none is closed twice. Every entry stays well-formed: its subscribers
-- are the ids with open channels, queues are within 256, 512 and 256 frames, and a closed entry has
-- no subscribers.
pub run_steps-AllInv :
    (ss : List Step) (r : Registry)
    → AllInv r
    → (r' : Registry) × (run_steps ss r ≡ some r') × AllInv r'
unfolding run_steps
run_steps-AllInv [] r all = (r, refl, all)
run_steps-AllInv (s ∷ ss) r all =
    let (mid, first, kept) = step-AllInv s r all in
    let (r', rest, done) = run_steps-AllInv ss mid kept in (r', rw first rest, done)
