-- ===== src/Voice/Runs.antt =====
-- The engine from its start through any sequence of calls.
use Prim.Native.String.{String}
use text.Mathlib.Text.{◌==◌ as str_eq}
use nexusroom.Base.{
  ℕ, ◌≡◌, ◌≢◌, refl, ap, ◌∙◌, Bool, true, false, not, ◌&&◌, ◌||◌, none, some, List, [], ◌∷◌,
  if◌then◌else◌, if_lem, ==-refl,
}
use nexusroom.Base.Maps.{lookup}
use nexusroom.Voice.{Engine, Rtc, state, emit, find_peer, renegotiate}
use nexusroom.Voice.Rooms.{leave, leave_user}
use nexusroom.Voice.Methods.{
  handle_offer, handle_answer, with_state, with_muted, with_speaking, set_voice_state, set_muted,
  set_speaking, forward_audio, on_state_change, close, leave_peers, addresses, new_engine,
}
use nexusroom.Voice.Soft.{Never, renegotiate-Evolves}
use nexusroom.Voice.Invariant.{Inv, Evolves-Inv}
use nexusroom.Voice.Leaving.{leave_lem}
use nexusroom.Voice.Departed.{leave-Inv, find_peer-leave}
use nexusroom.Voice.Users.{leave_user-Inv}
use nexusroom.Voice.Calls.{handle_offer-Inv, handle_answer-Inv, change-Inv, emit-Inv}
use nexusroom.Voice.Forwarding.{forward_audio-Inv}

renegotiate-Inv : (x : Rtc) (p : ℕ) (e : Engine) → Inv e → Inv (renegotiate x p e)
renegotiate-Inv x p e i =
    Evolves-Inv Never e _ (renegotiate-Evolves Never x p e) (λ k u p s r h g n. absurd n) i

on_state_change-Inv :
    (x : Rtc) (p : ℕ) (name : String) (e : Engine) → Inv e → Inv (on_state_change x p name e)
unfolding on_state_change
on_state_change-Inv x p name e i =
    let c = e.store p in
    let told = emit-Inv (state c.user_id c.room_id name) e i in
    if_lem Inv (str_eq name "failed" || str_eq name "closed") _ _
      (leave-Inv x c.room_id c.user_id _ told) told

leave_peers-Inv : (x : Rtc) (ps : List ℕ) (e : Engine) → Inv e → Inv (leave_peers x ps e)
unfolding leave_peers
leave_peers-Inv x [] e i = i
leave_peers-Inv x (p ∷ ps) e i = leave_peers-Inv x ps _ (leave-Inv x _ _ e i)

close-Inv : (x : Rtc) (e : Engine) → Inv e → Inv (close x e)
unfolding close
close-Inv x e i = leave_peers-Inv x (addresses e.rooms) e i

-- The calls of the engine's methods and of its callbacks, each with what the library returns to it.
pub data Call : Type 0 where
  offers : Rtc → (room_id user_id : ℕ) (sdp : String) → Call
  answers : Rtc → (room_id user_id : ℕ) → Call
  sets_state : (room_id user_id : ℕ) (muted speaking : Bool) → Call
  mutes : (room_id user_id : ℕ) (muted : Bool) → Call
  speaks : (room_id user_id : ℕ) (speaking : Bool) → Call
  leaves : Rtc → (room_id user_id : ℕ) → Call
  leaves_all : Rtc → (user_id : ℕ) → Call
  publishes : Rtc → (peer track : ℕ) → Call
  renegotiates : Rtc → (peer : ℕ) → Call
  changes_state : Rtc → (peer : ℕ) (name : String) → Call
  closes : Rtc → Call

unfoldable call : Call → Engine → Engine
unfolding handle_offer handle_answer set_voice_state set_muted set_speaking leave leave_user
    forward_audio renegotiate on_state_change close
call (offers x k u sdp) e = (handle_offer x k u sdp e).1
call (answers x k u) e = (handle_answer x k u e).2
call (sets_state k u muted speaking) e = set_voice_state k u muted speaking e
call (mutes k u muted) e = set_muted k u muted e
call (speaks k u speaking) e = set_speaking k u speaking e
call (leaves x k u) e = leave x k u e
call (leaves_all x u) e = leave_user x u e
call (publishes x p track) e = forward_audio x p track e
call (renegotiates x p) e = renegotiate x p e
call (changes_state x p name) e = on_state_change x p name e
call (closes x) e = close x e

unfoldable pub run_calls : List Call → Engine → Engine
unfolding call
run_calls [] e = e
run_calls (c ∷ cs) e = run_calls cs (call c e)

not_both : (s m : Bool) → ((s && not m) && m) ≡ false
not_both true true = refl
not_both true false = refl
not_both false true = refl
not_both false false = refl

not_muted : (s m : Bool) → ((if m then false else s) && m) ≡ false
not_muted true true = refl
not_muted true false = refl
not_muted false true = refl
not_muted false false = refl

call-Inv : (c : Call) (e : Engine) → Inv e → Inv (call c e)
unfolding call set_voice_state set_muted set_speaking
call-Inv (offers x k u sdp) e i = handle_offer-Inv x k u sdp e i
call-Inv (answers x k u) e i = handle_answer-Inv x k u e i
call-Inv (sets_state k u muted speaking) e i =
    change-Inv (with_state muted speaking) k (find_peer k u e) e
      (λ c q. (refl, refl, refl, refl, not_both speaking muted)) i
call-Inv (mutes k u muted) e i =
    change-Inv (with_muted muted) k (find_peer k u e) e
      (λ c q. (refl, refl, refl, refl, not_muted c.speaking muted)) i
call-Inv (speaks k u speaking) e i =
    change-Inv (with_speaking speaking) k (find_peer k u e) e
      (λ c q. (refl, refl, refl, refl, not_both speaking c.muted)) i
call-Inv (leaves x k u) e i = leave-Inv x k u e i
call-Inv (leaves_all x u) e i = leave_user-Inv x u e i
call-Inv (publishes x p track) e i = forward_audio-Inv x p track e i
call-Inv (renegotiates x p) e i = renegotiate-Inv x p e i
call-Inv (changes_state x p name) e i = on_state_change-Inv x p name e i
call-Inv (closes x) e i = close-Inv x e i

run_calls_lem : (cs : List Call) (e : Engine) → Inv e → Inv (run_calls cs e)
unfolding run_calls
run_calls_lem [] e i = i
run_calls_lem (c ∷ cs) e i = run_calls_lem cs (call c e) (call-Inv c e i)

new_engine-Inv : Inv new_engine
unfolding new_engine lookup
new_engine-Inv = record {
  listed = λ k r h. cc;
  tracks = λ k u t r h g. cc;
  senders = λ k u p s r h g m. cc;
  voices = λ p. refl;
  nonempty = λ k r h. cc;
}

-- Whatever sequence of calls a new engine has run, and whatever the WebRTC library answered to
-- them: the peers that the maps list are open and stand under their own room and user; each
-- forwarded track is of a peer of the room; a listed peer sends only tracks of its room; nobody
-- who is muted is shown as speaking; and no room is kept without peers.
pub voice_runs-Inv : (cs : List Call) → Inv (run_calls cs new_engine)
voice_runs-Inv cs = run_calls_lem cs new_engine new_engine-Inv

-- When a connection's state becomes "closed" or "failed", the callback of a peer that was already
-- closed removes the peer that stands under the same room and user by then, and closes it.
pub late_close_lem :
    (x : Rtc) (p q : ℕ) (name : String) (e : Engine)
    → str_eq name "failed" || str_eq name "closed" ≡ true
    → (e.store p).closed ≡ true
    → find_peer (e.store p).room_id (e.store p).user_id e ≡ some q
    → (e.store q).closed ≡ false
    → let e' = on_state_change x p name e in
      (find_peer (e.store p).room_id (e.store p).user_id e' ≡ none)
      × ((e'.store q).closed ≡ true)
      × (p ≢ q)
unfolding on_state_change find_peer
late_close_lem x p q name e named closed f is_open =
    let c = e.store p in
    let told = emit (state c.user_id c.room_id name) e in
    let (r, h, g, left) = leave_lem x c.room_id c.user_id q told f in
    (
      rw named (
          find_peer-leave x c.room_id c.user_id c.room_id c.user_id told
          ∙ rw (==-refl c.room_id, ==-refl c.user_id) refl),
      rw named left.closed,
      λ same. cc (ap (λ (n : ℕ). (e.store n).closed) same, closed, is_open),
    )
