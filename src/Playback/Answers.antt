-- ===== src/Playback/Answers.antt =====
-- `Answer`: the subscriptions of the stream after it, on each of its branches.
use Prim.Native.String.{String}
use text.Mathlib.Text.{◌==◌ as str_eq}
use nexusroom.Base.{
  ℕ, ◌+◌, ◌≡◌, refl, sym, ap, subst, ◌∙◌, inl, inr, Bool, true, false, not, Option, none, some,
  List, ◌∷◌, ◌==◌, if◌then◌else◌, ◌&&◌, if_lem, filter, any, arith, Bool-cases, Option-cases,
  ==-refl,
}
use nexusroom.Stream.{Entry, Subscription, set, member, fresh, subscribe_entry, close_subscription}
use nexusroom.Stream.Entries.{Inv}
use nexusroom.Stream.Endings.{close_subscription_lem, close_subscription-Inv}
use nexusroom.Stream.Streams.{Registry, find, subscribe_at, close_at}
use nexusroom.Stream.Steps.{AllInv, set-Inv}
use nexusroom.Playback.{
  Calls, Gathering, complete, cancelled, timed_out, Reply, refused, playing, Connection, absent,
  opened, closed, Session, close_subscribed, close_connection, close_peer, refuse, gathered,
  negotiate, with_audio, with_video, is_empty, answer_subscribed, answer_at, answer,
}
use nexusroom.Playback.Subscribers.{
  filter_absent, unclosed, closed_first, subscribers_of, subscribe_open,
}

-- The subscribers of the entry q after an answer.
abbrev pub subscribers_after : Reply → Registry → ℕ → List ℕ
subscribers_after refused r q = (r.entries q).subscribers
subscribers_after (playing p id) r q =
    if p == q then id ∷ (r.entries q).subscribers else (r.entries q).subscribers

abbrev pub is_open : Connection → Bool
is_open absent = false
is_open opened = true
is_open closed = false

abbrev pub is_playing : Reply → Bool
is_playing refused = false
is_playing (playing p id) = true

pub record Answered (r : Registry) (o : Option (Reply × Session)) : Type 0 where
  pub reply : Reply
  pub session : Session
  pub returns : o ≡ some (reply, session)
  pub entries : AllInv session.registry
  pub streams : session.registry.streams ≡ r.streams
  pub subscribers : (q : ℕ) → (session.registry.entries q).subscribers ≡ subscribers_after reply r q
  pub connection : is_open session.connection ≡ is_playing reply

module _ (p : ℕ) (r : Registry) (all : AllInv r) where
  abbrev e : Entry
  e = r.entries p

  abbrev at_p : Entry → Registry
  at_p e' = record r { entries = set r.entries p e' }

  at_p-subscribers :
      (e' : Entry)
      → e'.subscribers ≡ e.subscribers
      → (q : ℕ) → ((at_p e').entries q).subscribers ≡ (r.entries q).subscribers
  at_p-subscribers e' h q = elim (Bool-cases (p == q)) [
    | inr other ↦ rw other refl
    | inl here ↦
        let same : p ≡ q = ground arith in
        rw here (h ∙ ap (λ (n : ℕ). (r.entries n).subscribers) same)
  ]

  at_p_twice :
      (e' e'' : Entry)
      → e''.subscribers ≡ e.subscribers
      → (q : ℕ) → (set (at_p e').entries p e'' q).subscribers ≡ (r.entries q).subscribers
  at_p_twice e' e'' h q = elim (Bool-cases (p == q)) [
    | inr other ↦ rw other refl
    | inl here ↦
        let same : p ≡ q = ground arith in
        rw here (h ∙ ap (λ (n : ℕ). (r.entries n).subscribers) same)
  ]

  abbrev subscribed : Entry
  subscribed = record e {
    next_id = e.next_id + 1;
    subscribers = e.next_id ∷ e.subscribers;
    channels = set e.channels e.next_id fresh;
  }

  abbrev subscription : Subscription
  subscription = record {
    id = e.next_id;
    sps = e.sps;
    pps = e.pps;
    aac = e.aac;
    has_opus = e.has_opus;
  }

  -- Subscribing and closing leaves the list of the subscribers as it was.
  closed_again :
      Inv subscribed
      → (e'' : Entry) × (close_subscription e.next_id subscribed ≡ some e'')
        × Inv e''
        × (e''.subscribers ≡ e.subscribers)
  unfolding member any filter
  closed_again v =
      let (e'', done, v'') = close_subscription-Inv e.next_id subscribed v in
      let lem = close_subscription_lem e.next_id subscribed v in
      (
        e'',
        done,
        v'',
        ap subscribers_of (sym done ∙ lem)
            ∙ rw (==-refl e.next_id) (filter_absent e.next_id e.subscribers v.distinct.0),
      )

  abbrev session : Connection → Session
  session c = record { registry = at_p subscribed; connection = c }

  module _ (v : Inv subscribed) where
    abbrev ended : Entry → Connection → Session
    ended e' c = record {
      registry = record r { entries = set (at_p subscribed).entries p e' };
      connection = c;
    }

    refused-Answered :
        (e' : Entry) (c : Connection)
        → Inv e'
        → e'.subscribers ≡ e.subscribers
        → is_open c ≡ false
        → Answered r (some (refused, ended e' c))
    refused-Answered e' c i same shut = record {
      reply = refused;
      session = ended e' c;
      returns = refl;
      entries = set-Inv (at_p subscribed).entries p e' (set-Inv r.entries p subscribed all v) i;
      streams = refl;
      subscribers = at_p_twice subscribed e' same;
      connection = shut;
    }

    close_lem :
        (c : Connection)
        → (e' : Entry) × (close_subscribed p e.next_id (session c) ≡ some (ended e' c))
          × Inv e'
          × (e'.subscribers ≡ e.subscribers)
    unfolding close_subscribed close_at
    close_lem c =
        let (e', done, i, same) = closed_again v in (e', rw (==-refl p, done) refl, i, same)

    -- Before there is a connection just the subscription is closed.
    unconnected : Answered r (refuse (close_subscribed p e.next_id (session absent)))
    unconnected =
        let (e', done, i, same) = close_lem absent in
        subst (λ (o : Option Session). Answered r (refuse o)) (sym done)
          (refused-Answered e' absent i same refl)

    both_closed :
        Answered r (refuse (close_connection (close_subscribed p e.next_id (session opened))))
    unfolding close_connection
    both_closed =
        let (e', done, i, same) = close_lem opened in
        subst (λ (o : Option Session). Answered r (refuse (close_connection o))) (sym done)
          (refused-Answered e' closed i same refl)

    still_open : Answered r (some (playing p e.next_id, session opened))
    still_open = record {
      reply = playing p e.next_id;
      session = session opened;
      returns = refl;
      entries = set-Inv r.entries p subscribed all v;
      streams = refl;
      subscribers = λ q. elim (Bool-cases (p == q)) [
        | inr other ↦ rw other refl
        | inl here ↦
            let same : p ≡ q = ground arith in
            rw here (ap (λ (n : ℕ). e.next_id ∷ (r.entries n).subscribers) same)
      ];
      connection = refl;
    }

    gathered-Answered :
        (x : Calls) (g : Gathering) → Answered r (gathered x g p e.next_id (session opened))
    unfolding gathered close_peer
    gathered-Answered x complete =
        if_lem (Answered r) x.has_local_description _ _ still_open both_closed
    gathered-Answered x cancelled = both_closed
    gathered-Answered x timed_out = both_closed

    negotiate-Answered : (x : Calls) → Answered r (negotiate x p e.next_id (session opened))
    unfolding negotiate close_peer
    negotiate-Answered x = if_lem (Answered r) (not x.set_remote_description) _ _ both_closed (
        if_lem (Answered r) (not x.create_answer) _ _ both_closed (
          if_lem (Answered r) (not x.set_local_description) _ _ both_closed
            (gathered-Answered x x.gathering)))

    with_audio-Answered : (x : Calls) → Answered r (with_audio x p subscription (session opened))
    unfolding with_audio
    with_audio-Answered x =
        if_lem (Answered r) e.has_opus _ _
          (if_lem (Answered r) (not x.new_audio_track) _ _ both_closed
            (if_lem (Answered r) (not x.add_audio_track) _ _ both_closed (negotiate-Answered x)))
          (negotiate-Answered x)

    with_video-Answered : (x : Calls) → Answered r (with_video x p subscription (session opened))
    unfolding with_video
    with_video-Answered x =
        if_lem (Answered r) (not x.new_video_track) _ _ both_closed
          (if_lem (Answered r) (not x.add_video_track) _ _ both_closed (with_audio-Answered x))

    subscribed_lem :
        (x : Calls) → Answered r (answer_subscribed x p (some subscription, at_p subscribed))
    unfolding answer_subscribed
    subscribed_lem x =
        if_lem (Answered r) (not (is_empty e.aac) && not e.has_opus) _ _ unconnected
          (if_lem (Answered r) (not x.new_peer_connection) _ _ unconnected (with_video-Answered x))

  closed_lem : (x : Calls) → Answered r (answer_subscribed x p (none, at_p e))
  unfolding answer_subscribed
  closed_lem x = record {
    reply = refused;
    session = record { registry = at_p e; connection = absent };
    returns = refl;
    entries = set-Inv r.entries p e all (all p);
    streams = refl;
    subscribers = at_p-subscribers e refl;
    connection = refl;
  }

  answer_at-Answered : (x : Calls) → Answered r (answer_at x (some p) r)
  unfolding answer_at subscribe_at subscribe_entry
  answer_at-Answered x =
      let Goal : Option Subscription × Entry → Type 0 =
        λ o. Answered r (answer_subscribed x p (o.0, at_p o.1)) in
      elim (Bool-cases e.closed) [
        | inl c ↦ subst Goal (sym (closed_first e.closed _ _ c)) (closed_lem x)
        | inr c ↦
            subst Goal (sym (unclosed e.closed _ _ c))
              (subscribed_lem (subscribe_open e c (all p)) x)
      ]

same_registry :
    (r : Registry)
    → AllInv r
    → Answered r (some (refused, record { registry = r; connection = absent }))
same_registry r all = record {
  reply = refused;
  session = record { registry = r; connection = absent };
  returns = refl;
  entries = all;
  streams = refl;
  subscribers = λ q. refl;
  connection = refl;
}

-- Whatever the calls of the WebRTC library return, an offer is answered without a panic, the entries
-- stay well-formed and the streams are the same. Each stream has the subscribers that it had, on
-- whichever of the error paths the offer is refused; only an offer that is answered has added one,
-- to the stream that it names. A peer connection is left open just where the offer is answered.
pub answer-Answered :
    (x : Calls) (stream_key offer_sdp : String) (r : Registry)
    → AllInv r
    → Answered r (answer x stream_key offer_sdp r)
unfolding answer answer_at
answer-Answered x stream_key offer_sdp r all = elim (Bool-cases (str_eq offer_sdp "")) [
  | inl e ↦ rw e (same_registry r all)
  | inr e ↦ elim (Option-cases (find stream_key r.streams)) [
    | inl f ↦ rw (e, f) (same_registry r all)
    | inr (p, f) ↦ rw (e, f) (answer_at-Answered p r all x)
  ]
]
