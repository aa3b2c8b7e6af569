-- ===== src/Ws/Replaced.antt =====
-- The hub with the voice engine that it calls: a connection that takes the place of another of its
-- user, and the late end of the older one.
use nexusroom.Base.{
  ℕ, ◌≡◌, ◌≢◌, refl, sym, ap, ap₂, ◌∙◌, true, none, some, List, [], ◌∷◌, ◌++◌, ◌==◌, if◌then◌else◌,
  arith, ==-refl,
}
use nexusroom.Ws.{send_event, send_event_to_room}
use nexusroom.Ws.Hub.{
  Hub, Call, voice_leave_user, voice_leave, voice_set_muted, voice_set_speaking, voice_offer,
  voice_answer, voice_ice, schedule_cleanup, unregister_peer, lookup, register, unregister,
}
use nexusroom.Ws.Steps.{registers, step}
use nexusroom.Ws.Follows.{step-Follows}
use nexusroom.Ws.Unregistration.{unregister_stale}
use nexusroom.Voice.{Engine, Rtc, find_peer}
use nexusroom.Voice.Rooms.{leave, leave_user}
use nexusroom.Voice.Methods.{handle_offer, handle_answer, set_muted, set_speaking}
use nexusroom.Voice.Users.{find_peer-leave_user}

-- What the voice engine does on a call of the hub. A candidate changes no rooms.
unfoldable pub voice_call : Rtc → Call → Engine → Engine
unfolding leave leave_user handle_offer handle_answer set_muted set_speaking
voice_call x (voice_leave_user user_id) e = leave_user x user_id e
voice_call x (voice_leave room_id user_id) e = leave x room_id user_id e
voice_call x (voice_set_muted room_id user_id muted) e = set_muted room_id user_id muted e
voice_call x (voice_set_speaking room_id user_id speaking) e =
    set_speaking room_id user_id speaking e
voice_call x (voice_offer room_id user_id text) e = (handle_offer x room_id user_id text e).1
voice_call x (voice_answer room_id user_id text) e = (handle_answer x room_id user_id e).2
voice_call x (voice_ice room_id user_id text) e = e
voice_call x (schedule_cleanup room_id user_id) e = e
voice_call x (unregister_peer room_id user_id) e = e

-- The engine after the calls that the hub has made, in their order.
unfoldable pub voice_calls : Rtc → List Call → Engine → Engine
unfolding voice_call
voice_calls x [] e = e
voice_calls x (c ∷ cs) e = voice_calls x cs (voice_call x c e)

voice_calls-append :
    (x : Rtc) (cs : List Call) (c : Call) (e : Engine)
    → voice_calls x (cs ++ c ∷ []) e ≡ voice_call x c (voice_calls x cs e)
unfolding voice_calls
voice_calls-append x [] c e = refl
voice_calls-append x (d ∷ cs) c e = voice_calls-append x cs c (voice_call x d e)

register_keeps :
    (p : ℕ) (h h' : Hub)
    → register p h ≡ some h'
    → (h'.calls ≡ h.calls) × (h'.has_voice ≡ h.has_voice)
unfolding register send_event send_event_to_room
register_keeps p h h' e = (ground arith, ground arith)

step-register : (q : ℕ) (h : Hub) → step (registers q) h ≡ register q h
unfolding step
step-register q h = refl

-- A user's connection q is registered after his connection p; after further calls of the voice
-- engine, such as the offer by which q enters a voice room, p is unregistered; the hub has a voice
-- engine and does not panic. Then q is the user's entry in the hub. But in the voice engine that the
-- hub's calls lead to he is in no room, while every other user is where the calls before the last
-- one left him.
pub replaced_lem :
    (x : Rtc) (p q v room_id : ℕ) (more : List Call) (h mid h' : Hub) (e : Engine)
    → (h.store p).user_id ≡ (h.store q).user_id
    → q ≢ p
    → h.has_voice ≡ true
    → register q h ≡ some mid
    → unregister p (record mid { calls = mid.calls ++ more }) ≡ some h'
    → (lookup (h.store q).user_id h'.clients ≡ some q)
      × (find_peer room_id v (voice_calls x h'.calls e) ≡ (
          if (h.store q).user_id == v
          then none
          else find_peer room_id v (voice_calls x (h.calls ++ more) e)))
unfolding voice_call
replaced_lem x p q v room_id more h mid h' e owner apart voice first second =
    let u = (h.store q).user_id in
    let follows = step-Follows (registers q) h mid (step-register q h ∙ first) in
    let (calls, has_voice) = register_keeps q h mid first in
    let current : lookup (mid.store p).user_id mid.clients ≡ some q =
      ap (λ (w : ℕ). lookup w mid.clients) (follows.users p ∙ owner)
      ∙ follows.clients u
      ∙ rw (==-refl u) refl in
    let (end, ends, clients, _, _, logged) =
      unregister_stale p q (record mid { calls = mid.calls ++ more }) current apart
        (has_voice ∙ voice) in
    let same : h' ≡ end = ground (arith, second, ends) in
    let owner' = follows.users p ∙ owner in
    (
      ap (λ (k : Hub). lookup u k.clients) same
          ∙ ap (lookup u) clients
          ∙ ap (λ (w : ℕ). lookup w mid.clients) (sym owner')
          ∙ current,
      ap (λ (k : Hub). find_peer room_id v (voice_calls x k.calls e)) same
          ∙ ap (λ (cs : List Call). find_peer room_id v (voice_calls x cs e)) logged
          ∙ ap (find_peer room_id v)
              (voice_calls-append x (mid.calls ++ more) (voice_leave_user (mid.store p).user_id) e)
          ∙ find_peer-leave_user x (mid.store p).user_id room_id v
              (voice_calls x (mid.calls ++ more) e)
          ∙ ap₂
              (λ (w : ℕ) (cs : List Call).
                if w == v then none else find_peer room_id v (voice_calls x (cs ++ more) e))
              owner' calls,
    )
