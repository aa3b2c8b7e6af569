-- ===== src/Ws/Dispatch.antt =====
-- `HandleMessage` of client.go and its handlers. A message comes with what decoding its payload
-- as each kind gives (`none` where the decoding fails). A call of the voice engine is logged; the
-- answer of `HandleOffer` (an error's text) is a parameter, and so are the repositories.
use Prim.Native.String.{String}
use text.Mathlib.Text.{◌==◌ as str_eq}
use nexusroom.Base.{
  ℕ, Bool, true, false, not, ◌||◌, Option, none, some, [], ◌∷◌, ◌++◌, ◌==◌, if◌then◌else◌,
}
use nexusroom.Orm.{Table}
use nexusroom.Ws.{
  room_joined, room_join_error, member_join, member_leave, voice_state, rtc_error, is_in_room,
  join_room, leave_room, send_event_to_room, handle_heartbeat, Attempt, sent, waits, panics,
}
use nexusroom.Ws.Hub.{
  Hub, Call, voice_leave, voice_set_muted, voice_set_speaking, voice_offer, voice_answer, voice_ice,
  put, put?, post, and_then,
}
use nexusroom.Ws.Chat.{
  ChatSendPayload, Message, with_message_id, same_message, Profile, Context, handle_chat_send,
}

pub record Incoming : Type 0 where
  pub event : String
  pub room_id : ℕ
  pub room_payload : Option ℕ
  pub chat_payload : Option ChatSendPayload
  pub mute_payload : Option (ℕ × Bool)
  pub speaking_payload : Option Bool
  pub description : Option String
  pub candidate : Option String

-- The room of the envelope, or else that of the payload.
abbrev pub room_of : ℕ → ℕ → ℕ
room_of outer inner = if outer == 0 then inner else outer

abbrev pub call : Call → Hub → Hub
call c h = record h { calls = h.calls ++ c ∷ [] }

abbrev pub call_voice : Call → Hub → Hub
call_voice c h = if h.has_voice then call c h else h

abbrev pub name_of : String → Option Profile → Profile
name_of username none = record { nickname = username; avatar_url = "" }
name_of username (some profile) = profile

abbrev pub joined : Context → ℕ → ℕ → Hub → Option Hub
joined x p room_id h =
    and_then (put? h p (send_event_to_room (h.store p) "room.joined" (room_joined room_id) room_id))
      (λ h'.
        let profile = name_of (h'.store p).username (x.find_by_id (h'.store p).user_id) in
        some (
          post room_id "room.member_join"
            (member_join (h'.store p).user_id room_id profile.nickname profile.avatar_url)
            (h'.store p).user_id h'))

abbrev pub join_if : Bool → Context → ℕ → ℕ → Hub → Option Hub
join_if false x p room_id h = put? h p (
    send_event_to_room (h.store p) "room.join_error" (room_join_error room_id "not_a_member")
      room_id)
join_if true x p room_id h = joined x p room_id (put h p (join_room (h.store p) room_id))

unfoldable pub handle_room_join : Context → ℕ → Incoming → Hub → Option Hub
handle_room_join x p m h = elim m.room_payload [
  | none ↦ some h
  | some inner ↦
      join_if (x.is_member (room_of m.room_id inner) (h.store p).user_id) x p
        (room_of m.room_id inner) h
]

abbrev pub leave_to : ℕ → ℕ → Hub → Hub
leave_to p room_id h =
    post room_id "room.member_leave" (member_leave (h.store p).user_id room_id) (h.store p).user_id
      (call_voice (voice_leave room_id (h.store p).user_id)
        (put h p (leave_room (h.store p) room_id)))

unfoldable pub handle_room_leave : ℕ → Incoming → Hub → Option Hub
handle_room_leave p m h = elim m.room_payload [
  | none ↦ some h
  | some inner ↦ some (leave_to p (room_of m.room_id inner) h)
]

abbrev pub mute_in : ℕ → ℕ → Bool → Hub → Hub
mute_in p room_id muted h =
    post room_id "voice.state_update" (voice_state (h.store p).user_id room_id muted) 0
      (call_voice (voice_set_muted room_id (h.store p).user_id muted) h)

unfoldable pub handle_voice_mute : ℕ → Incoming → Hub → Option Hub
handle_voice_mute p m h = elim m.mute_payload [
  | none ↦ some h
  | some (inner, muted) ↦
      if is_in_room (h.store p) (room_of m.room_id inner)
      then some (mute_in p (room_of m.room_id inner) muted h)
      else some h
]

abbrev pub rtc_fail : ℕ → ℕ → String → Hub → Option Hub
rtc_fail p room_id message h =
    put? h p (send_event_to_room (h.store p) "rtc.error" (rtc_error message) room_id)

abbrev pub answered : ℕ → ℕ → Option String → Hub → Option Hub
answered p room_id none h = some h
answered p room_id (some message) h = rtc_fail p room_id message h

abbrev pub offer_decoded : ℕ → ℕ → Option String → Option String → Hub → Option Hub
offer_decoded p room_id none outcome h = rtc_fail p room_id "invalid RTC offer" h
offer_decoded p room_id (some sdp) outcome h =
    answered p room_id outcome (call (voice_offer room_id (h.store p).user_id sdp) h)

unfoldable pub handle_rtc_offer : Context → Option String → ℕ → Incoming → Hub → Option Hub
handle_rtc_offer x outcome p m h =
    if (m.room_id == 0 || not (is_in_room (h.store p) m.room_id))
      || not (x.is_member m.room_id (h.store p).user_id)
    then rtc_fail p m.room_id "not a room member" h
    else if h.has_voice
    then offer_decoded p m.room_id m.description outcome h
    else rtc_fail p m.room_id "RTC engine unavailable" h

abbrev pub call_decoded {ℓ} : {A : Type ℓ} → (A → Call) → Option A → Hub → Hub
call_decoded c none h = h
call_decoded c (some a) h = call_voice (c a) h

abbrev pub beat : ℕ → Hub → Attempt → Option Hub
beat p h (sent c) = some (put h p c)
beat p h waits = some h
beat p h panics = none

module _ (M : Table Message with_message_id same_message) where
  open M use {State}

  abbrev pub with_state : State → Option Hub → Option (Hub × State)
  with_state s none = none
  with_state s (some h) = some (h, s)

  abbrev pub chat_in : Context → ℕ → ℕ → Option ChatSendPayload → Hub → State → Option (Hub × State)
  chat_in x p room_id none h s = some (h, s)
  chat_in x p room_id (some payload) h s =
      handle_chat_send M x p
        (record payload { room_id = if room_id == 0 then payload.room_id else room_id }) h s

  -- The switch on the event. A heartbeat that finds the queue full is taken to wait here: the
  -- state is what the others see meanwhile.
  unfoldable pub handle_message :
      Context → Option String → ℕ → Incoming → Hub → State → Option (Hub × State)
  unfolding handle_heartbeat handle_room_join handle_room_leave handle_voice_mute handle_rtc_offer
  handle_message x outcome p m h s =
      let user_id = (h.store p).user_id in
      if str_eq m.event "heartbeat"
      then with_state s (beat p h (handle_heartbeat (h.store p)))
      else if str_eq m.event "room.join"
      then with_state s (handle_room_join x p m h)
      else if str_eq m.event "room.leave"
      then with_state s (handle_room_leave p m h)
      else if str_eq m.event "chat.send"
      then chat_in x p m.room_id m.chat_payload h s
      else if str_eq m.event "voice.mute"
      then with_state s (handle_voice_mute p m h)
      else if str_eq m.event "rtc.offer"
      then with_state s (handle_rtc_offer x outcome p m h)
      else if str_eq m.event "rtc.answer"
      then some (call_decoded (voice_answer m.room_id user_id) m.description h, s)
      else if str_eq m.event "rtc.ice"
      then some (call_decoded (voice_ice m.room_id user_id) m.candidate h, s)
      else if str_eq m.event "rtc.leave"
      then some (call_voice (voice_leave m.room_id user_id) h, s)
      else if str_eq m.event "rtc.speaking"
      then some (call_decoded (voice_set_speaking m.room_id user_id) m.speaking_payload h, s)
      else some (h, s)
