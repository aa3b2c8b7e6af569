-- ===== src/Voice/Calls.antt =====
-- The methods of the engine keep it well-formed: joining, offers and answers, changes of a voice.
use Prim.Native.String.{String}
use text.Mathlib.Text.{◌==◌ as str_eq}
use nexusroom.Base.{
  ℕ, ◌≡◌, refl, sym, ap, ◌∙◌, inl, inr, Bool, true, false, not, ◌&&◌, Option, none, some,
  if◌then◌else◌, if_lem, Bool-cases, Option-cases, arith, All_imp,
}
use nexusroom.Base.Maps.{lookup, All-lookup, lookup-all}
use nexusroom.Voice.{
  Signal, Peer, Engine, Rtc, answer, emit, put, find_peer, broadcast_participants,
  add_existing_tracks, add_tracks_of,
}
use nexusroom.Voice.Rooms.{join, leave}
use nexusroom.Voice.Methods.{
  ensure_peer, answered, offered, handle_offer, answer_taken, handle_answer, change,
}
use nexusroom.Voice.Soft.{Never, emit-Evolves, broadcast-Evolves, add_tracks-Evolves}
use nexusroom.Voice.Invariant.{IsLive, Inv, Evolves-Inv, put-Inv}
use nexusroom.Voice.Departed.{leave-Inv}
use nexusroom.Voice.Joins.{join-Inv}

-- The tracks of the room the peer is in are those that the peer is given.
pub add_existing-Inv : (x : Rtc) (p : ℕ) (e : Engine) → Inv e → Inv (add_existing_tracks x p e)
unfolding add_existing_tracks add_tracks_of
add_existing-Inv x p e i = elim (Option-cases (lookup (e.store p).room_id e.rooms)) [
  | inl h ↦ rw h i
  | inr (r, h) ↦
      let G : ℕ → ℕ → Type 0 = λ q s. (q ≡ p) × (t : ℕ) × (lookup s r.tracks ≡ some t) in
      rw h (
        Evolves-Inv G e _
          (add_tracks-Evolves G x r.tracks (e.store p).user_id p e (
            All_imp (λ (y : ℕ × ℕ). (t : ℕ) × (lookup y.0 r.tracks ≡ some t))
              (λ (y : ℕ × ℕ). G p y.0) r.tracks (λ y (t, l). (refl, t, l)) (lookup-all r.tracks)))
          (λ k u q s r' h' g (same, t, l).
            let live = All-lookup (IsLive k e) u q r'.peers (i.listed k r' h') g in
            let room : (e.store p).room_id ≡ k =
              ap (λ (n : ℕ). (e.store n).room_id) (sym same) ∙ live.room_id in
            let is : r ≡ r' = ground (arith, h, h', room) in (t, rw (← is) l))
          i)
]

broadcast-Inv : (k : ℕ) (e : Engine) → Inv e → Inv (broadcast_participants k e)
broadcast-Inv k e i =
    Evolves-Inv Never e _ (broadcast-Evolves Never k e) (λ k u p s r h g n. absurd n) i

pub emit-Inv : (s : Signal) (e : Engine) → Inv e → Inv (emit s e)
emit-Inv s e i = Evolves-Inv Never e _ (emit-Evolves Never s e) (λ k u p s r h g n. absurd n) i

answered-Inv : (x : Rtc) (k u : ℕ) (e : Engine) → Inv e → Inv (answered x k u e).1
unfolding answered
answered-Inv x k u e i =
    let P : Bool × Engine → Type 0 = λ y. Inv y.1 in
    if_lem P (not x.create_answer) (false, e) _ i
      (if_lem P (not x.set_local) (false, e) _ i
        (broadcast-Inv k (emit (answer u k) e) (emit-Inv (answer u k) e i)))

offered-Inv :
    (x : Rtc) (k u p : ℕ) (created : Bool) (e e₀ : Engine)
    → Inv e
    → Inv (offered x k u (some (p, created, e)) e₀).1
unfolding offered
offered-Inv x k u p created e e₀ i =
    let P : Bool × Engine → Type 0 = λ y. Inv y.1 in
    if_lem P (e.store p).closed (false, e) _ i
      (if_lem P (not x.set_remote) (false, if created then leave x k u e else e) _
        (if_lem Inv created (leave x k u e) e (leave-Inv x k u e i) i)
        (answered-Inv x k u _
          (if_lem Inv created (add_existing_tracks x p e) e (add_existing-Inv x p e i) i)))

pub handle_offer-Inv :
    (x : Rtc) (k u : ℕ) (sdp : String) (e : Engine) → Inv e → Inv (handle_offer x k u sdp e).1
unfolding handle_offer ensure_peer offered
handle_offer-Inv x k u sdp e i =
    let P : Bool × Engine → Type 0 = λ y. Inv y.1 in
    if_lem P (str_eq sdp "") (false, e) _ i
      (elim (Option-cases (find_peer k u e)) [
        | inr (p, f) ↦ rw (ensure_peer, f) (offered-Inv x k u p false e e i)
        | inl f ↦ elim (Bool-cases x.new_connection) [
          | inr refused ↦ rw (ensure_peer, f, refused) i
          | inl made ↦
              rw (ensure_peer, f, made)
                (offered-Inv x k u e.count true (join k u e) e (join-Inv k u e i))
        ]
      ])

answer_taken-Inv : (x : Rtc) (p : Option ℕ) (e : Engine) → Inv e → Inv (answer_taken x p e).2
answer_taken-Inv x none e i = i
answer_taken-Inv x (some p) e i =
    let P : Bool × Bool × Engine → Type 0 = λ y. Inv y.2 in
    if_lem P (e.store p).closed (false, false, e) _ i
      (if_lem P (not x.set_remote) (false, false, e) _ i
        (put-Inv p _ e refl refl refl refl (i.voices p) i))

pub handle_answer-Inv : (x : Rtc) (k u : ℕ) (e : Engine) → Inv e → Inv (handle_answer x k u e).2
unfolding handle_answer
handle_answer-Inv x k u e i = answer_taken-Inv x (find_peer k u e) e i

pub change-Inv :
    (f : Peer → Peer) (k : ℕ) (p : Option ℕ) (e : Engine)
    → ((c : Peer)
        → (c.speaking && c.muted) ≡ false
        → ((f c).user_id ≡ c.user_id)
          × ((f c).room_id ≡ c.room_id)
          × ((f c).closed ≡ c.closed)
          × ((f c).senders ≡ c.senders)
          × ((f c).speaking && (f c).muted) ≡ false)
    → Inv e
    → Inv (change f k p e)
unfolding change
change-Inv f k none e h i = i
change-Inv f k (some p) e h i =
    let (a, b, c, d, quiet) = h (e.store p) (i.voices p) in
    broadcast-Inv k (put p (f (e.store p)) e) (put-Inv p (f (e.store p)) e a b c d quiet i)
