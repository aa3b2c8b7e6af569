-- ===== src/Stream/Delivery.antt =====
-- What a publication brings to the subscribers, and what the end of a stream leaves them.
use Prim.Native.String.{String}
use text.Mathlib.Text.{◌==◌ as str_eq}
use text.Mathlib.TextPositions.{eq_refl}
use nexusroom.Base.{
  ℕ, ◌+◌, ◌≡◌, ◌≢◌, refl, inl, inr, true, false, none, some, List, [], ◌∷◌, ◌==◌, arith, Bool-cases,
  ==-refl,
}
use nexusroom.Flv.{Frame}
use nexusroom.Stream.{Subscriber, Entry, set, add_bytes, offer_video, publish_entry}
use nexusroom.Stream.Streams.{Registry, find, remove, new_entry, shut, start, stop, publish}
use nexusroom.Stream.Entries.{Inv, pushed_video, offer_video_lem}
use nexusroom.Stream.Methods.{Changed, each_entry}
use nexusroom.Stream.Endings.{IsEnded, shutdown-IsEnded}

publish_entry_lem :
    (frame : Frame) (e : Entry)
    → Inv e
    → e.closed ≡ false
    → (after : ℕ → Subscriber) × (publish_entry frame e
        ≡ some (
          true,
          record e { total_bytes = add_bytes e.total_bytes frame.nalus; channels = after },
        ))
      × Changed (pushed_video frame) e after
unfolding publish_entry
publish_entry_lem frame e v o =
    let (after, done, same) =
      each_entry (offer_video frame) (pushed_video frame) e (offer_video_lem frame) v in
    (after, rw (o, done) refl, same)

-- On a stream that is there and open, `Publish` succeeds: the frame is at the end of each
-- subscriber's video queue, but for the subscribers whose queue holds 256 frames already, which go
-- without it; nothing else changes but the entry's count of bytes.
pub publish_delivers :
    (key : String) (frame : Frame) (r : Registry) (p : ℕ)
    → find key r.streams ≡ some p
    → Inv (r.entries p)
    → (r.entries p).closed ≡ false
    → (after : ℕ → Subscriber) × (publish key frame r
        ≡ some (
          true,
          record r {
            entries = set r.entries p (record (r.entries p) {
              total_bytes = add_bytes (r.entries p).total_bytes frame.nalus;
              channels = after;
            });
          },
        ))
      × Changed (pushed_video frame) (r.entries p) after
unfolding publish
publish_delivers key frame r p found v o =
    let (after, done, same) = publish_entry_lem frame (r.entries p) v o in
    (after, rw (found, done) refl, same)

pub find-remove : (key : String) (m : List (String × ℕ)) → find key (remove key m) ≡ none
unfolding find remove
find-remove key [] = refl
find-remove key ((k, p) ∷ m) = elim (Bool-cases (str_eq k key)) [
  | inl e ↦ rw e (find-remove key m)
  | inr e ↦ rw (e, e) (find-remove key m)
]

-- `Stop` of a stream that is there, with a well-formed entry: it succeeds, the entry has no
-- subscribers any more and every channel made for it is closed with what it still held, and the key
-- is unknown, so that a publication under it fails and changes nothing.
pub stop_ends :
    (key : String) (r : Registry) (p : ℕ)
    → find key r.streams ≡ some p
    → Inv (r.entries p)
    → (r' : Registry) × (stop key r ≡ some r')
      × IsEnded (r.entries p) (r'.entries p)
      × (find key r'.streams ≡ none)
      × ((frame : Frame) → publish key frame r' ≡ some (false, r'))
unfolding stop publish shut
stop_ends key r p found v =
    let (e', done, ended, _) = shutdown-IsEnded (r.entries p) v in
    let absent = find-remove key r.streams in
    (
      record r { streams = remove key r.streams; entries = set r.entries p e' },
      rw (found, done) refl,
      rw (==-refl p) ended,
      absent,
      λ frame. rw absent refl,
    )

-- `Start` of a stream whose key is in use, where the next free cell of the heap is not the old
-- entry's: it succeeds, the old entry is ended as by `Stop`, the key names a new entry with the given
-- parameters and no subscribers, and the other entries are as they were.
pub start_replaces :
    (key : String) (sps pps aac : List ℕ) (r : Registry) (p : ℕ)
    → find key r.streams ≡ some p
    → p ≢ r.count
    → Inv (r.entries p)
    → (r' : Registry) × (start key sps pps aac r ≡ some r')
      × IsEnded (r.entries p) (r'.entries p)
      × (find key r'.streams ≡ some r.count)
      × (r'.entries r.count ≡ new_entry sps pps aac)
      × ((q : ℕ) → q ≢ p → q ≢ r.count → r'.entries q ≡ r.entries q)
unfolding start shut find
start_replaces key sps pps aac r p found apart v =
    let (e', done, ended, _) = shutdown-IsEnded (r.entries p) v in
    let other : r.count == p ≡ false = ground (arith, apart) in
    let other' : p == r.count ≡ false = ground (arith, apart) in
    (
      record {
        streams = (key, r.count) ∷ remove key r.streams;
        entries = set (set r.entries r.count (new_entry sps pps aac)) p e';
        count = r.count + 1;
      },
      rw (found, other, done) refl,
      rw (==-refl p) ended,
      rw (eq_refl key) refl,
      rw (other', ==-refl r.count) refl,
      λ q a b.
          let first : p == q ≡ false = ground (arith, a) in
          let second : r.count == q ≡ false = ground (arith, b) in rw (first, second) refl,
    )
