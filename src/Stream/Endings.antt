-- ===== src/Stream/Endings.antt =====
-- The end of a subscription and of a stream, on a well-formed entry.
use nexusroom.Base.{
  ℕ, ◌<◌, ◌≡◌, refl, ◌∙◌, inl, inr, Bool, true, false, not, ◌&&◌, some, List, [], ◌∷◌, ◌==◌,
  if◌then◌else◌, filter, any, arith, Bool-cases,
}
use nexusroom.Stream.{Subscriber, Entry, set, member, close_channels, close_subscription, shutdown}
use nexusroom.Stream.Entries.{Distinct, Shut, Bounded, Inv, closed_all, close_channels_lem}
use nexusroom.Stream.Methods.{Changed, each_entry}

member-filter :
    (i j : ℕ) (is : List ℕ)
    → member i (filter (λ (k : ℕ). not (k == j)) is) ≡ (member i is && not (j == i))
unfolding member filter
member-filter i j [] = refl
member-filter i j (k ∷ is) = elim (Bool-cases (k == j)) [
  | inl e ↦
      let same : k ≡ j = ground arith in
      rw (e, member-filter i j is, same)
        (elim (Bool-cases (j == i)) [ inl f ↦ rw f (ground arith) | inr f ↦ rw f refl ])
  | inr e ↦
      rw (e, member-filter i j is)
        (elim (Bool-cases (k == i)) [
          | inl f ↦ let same : k ≡ i = ground arith in rw f (ground arith)
          | inr f ↦ rw f refl
        ])
]

pub filter-Distinct :
    (j : ℕ) (is : List ℕ) → Distinct is → Distinct (filter (λ (k : ℕ). not (k == j)) is)
unfolding filter
filter-Distinct j [] d = tt
filter-Distinct j (i ∷ is) (new, d) = elim (Bool-cases (i == j)) [
  | inl e ↦ rw e (filter-Distinct j is d)
  | inr e ↦ rw e (rw (member-filter i j is, new) refl, filter-Distinct j is d)
]

abbrev closed_one : ℕ → Entry → Entry
closed_one i e = record e {
  subscribers = filter (λ (j : ℕ). not (j == i)) e.subscribers;
  channels = set e.channels i (closed_all (e.channels i));
}

closed_all-Shut : (s : Subscriber) → Shut true (closed_all s)
closed_all-Shut s = record { video = refl; audio = refl; opus = refl }

closed_all-Bounded : (s : Subscriber) → Bounded s → Bounded (closed_all s)
closed_all-Bounded s b = record { video = b.video; audio = b.audio; opus = b.opus }

and_not-true : (b : Bool) → (b && not true) ≡ false
and_not-true true = refl
and_not-true false = refl

kept :
    (i j : ℕ) (is : List ℕ)
    → i == j ≡ false
    → member j (filter (λ (k : ℕ). not (k == i)) is) ≡ member j is
kept i j is e = member-filter j i is ∙ rw e (ground arith)

closed_one-Inv : (i : ℕ) (e : Entry) → Inv e → Inv (closed_one i e)
unfolding filter
closed_one-Inv i e v = record {
  distinct = filter-Distinct i e.subscribers v.distinct;
  ids = λ j m. v.ids j (ground (arith, member-filter j i e.subscribers, m));
  live = λ j h. elim (Bool-cases (i == j)) [
    | inl same ↦
        rw (member-filter j i e.subscribers, same, and_not-true (member j e.subscribers))
          (closed_all-Shut (e.channels i))
    | inr other ↦ rw (other, kept i j e.subscribers other) (v.live j h)
  ];
  bounded = λ j h. elim (Bool-cases (i == j)) [
    | inl same ↦
        let same_id : i ≡ j = ground arith in
        rw same (closed_all-Bounded (e.channels i) (v.bounded i (omega (arith, same_id, h))))
    | inr other ↦ rw other (v.bounded j h)
  ];
  ended = λ c. rw (v.ended c) refl;
}

pub close_subscription_lem :
    (i : ℕ) (e : Entry)
    → Inv e
    → close_subscription i e ≡ some (if member i e.subscribers then closed_one i e else e)
unfolding close_subscription
close_subscription_lem i e v = elim (Bool-cases (member i e.subscribers)) [
  | inl m ↦ rw (m, close_channels_lem (e.channels i) (rw m at (v.live i (v.ids i m)))) refl
  | inr m ↦ rw m refl
]

pub close_subscription-Inv :
    (i : ℕ) (e : Entry) → Inv e → (e' : Entry) × (close_subscription i e ≡ some e') × Inv e'
close_subscription-Inv i e v = (
  _,
  close_subscription_lem i e v,
  elim (Bool-cases (member i e.subscribers)) [
    | inl m ↦ rw m (closed_one-Inv i e v)
    | inr m ↦ rw m v
  ],
)

-- After a shutdown an entry is closed and has no subscribers, and every channel it ever made is
-- closed, with its queue as it was.
pub record IsEnded (e e' : Entry) : Type 0 where
  pub closed : e'.closed ≡ true
  pub subscribers : e'.subscribers ≡ []
  pub next_id : e'.next_id ≡ e.next_id
  pub shut : (i : ℕ) → i < e.next_id → Shut true (e'.channels i)
  pub videos : (i : ℕ) → (e'.channels i).video.queue ≡ (e.channels i).video.queue
  pub audios : (i : ℕ) → (e'.channels i).audio.queue ≡ (e.channels i).audio.queue
  pub opuses : (i : ℕ) → (e'.channels i).opus.queue ≡ (e.channels i).opus.queue

ended-Inv : (e e' : Entry) → Inv e → IsEnded e e' → Inv e'
unfolding member any
ended-Inv e e' v t = record {
  distinct = rw t.subscribers tt;
  ids = λ i m. cc (rw t.subscribers at m);
  live = λ i h. rw t.subscribers (t.shut i (omega (arith, h, t.next_id)));
  bounded = λ i h.
      let b = v.bounded i (omega (arith, h, t.next_id)) in
      record {
        video = rw (t.videos i) b.video;
        audio = rw (t.audios i) b.audio;
        opus = rw (t.opuses i) b.opus;
      };
  ended = λ c. t.subscribers;
}

already-IsEnded : (e : Entry) → Inv e → e.closed ≡ true → IsEnded e e
unfolding member any
already-IsEnded e v c = record {
  closed = c;
  subscribers = v.ended c;
  next_id = refl;
  shut = λ i h. rw (v.ended c) at (v.live i h);
  videos = λ i. refl;
  audios = λ i. refl;
  opuses = λ i. refl;
}

closed-IsEnded :
    (e : Entry) (after : ℕ → Subscriber)
    → Inv e
    → Changed closed_all e after
    → IsEnded e (record e { closed = true; subscribers = []; channels = after })
closed-IsEnded e after v same = record {
  closed = refl;
  subscribers = refl;
  next_id = refl;
  shut = λ i h. elim (Bool-cases (member i e.subscribers)) [
    | inl m ↦ rw (same i, m) (closed_all-Shut (e.channels i))
    | inr m ↦ rw (same i, m) (rw m at (v.live i h))
  ];
  videos = λ i. elim (Bool-cases (member i e.subscribers)) [
    | inl m ↦ rw (same i, m) refl
    | inr m ↦ rw (same i, m) refl
  ];
  audios = λ i. elim (Bool-cases (member i e.subscribers)) [
    | inl m ↦ rw (same i, m) refl
    | inr m ↦ rw (same i, m) refl
  ];
  opuses = λ i. elim (Bool-cases (member i e.subscribers)) [
    | inl m ↦ rw (same i, m) refl
    | inr m ↦ rw (same i, m) refl
  ];
}

pub shutdown-IsEnded :
    (e : Entry) → Inv e → (e' : Entry) × (shutdown e ≡ some e') × IsEnded e e' × Inv e'
unfolding shutdown
shutdown-IsEnded e v = elim (Bool-cases e.closed) [
  | inl c ↦ (e, rw c refl, already-IsEnded e v c, v)
  | inr c ↦
      let (after, done, same) = each_entry close_channels closed_all e close_channels_lem v in
      let t = closed-IsEnded e after v same in
      let e' : Entry = record e { closed = true; subscribers = []; channels = after } in
      (e', rw (c, done) refl, t, ended-Inv e e' v t)
]
