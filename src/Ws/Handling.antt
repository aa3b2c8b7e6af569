-- ===== src/Ws/Handling.antt =====
-- Every message that a client may send, and the rooms of the connections.
use Prim.Native.String.{String}
use text.Mathlib.Text.{◌==◌ as str_eq}
use nexusroom.Base.{
  ℕ, ◌≡◌, refl, subst, ◌∙◌, inl, inr, not, ◌||◌, Option, none, some, [], ◌∷◌, ◌++◌, ◌==◌, ltb,
  if◌then◌else◌, if_lem, length, Bool-cases, Option-cases,
}
use nexusroom.Orm.{Table}
use nexusroom.Ws.{
  Client, capacity, is_in_room, send_event, handle_heartbeat, Attempt, sent, waits, panics, empty,
  rtc_error, chat_error,
}
use nexusroom.Ws.Hub.{
  Hub, Call, voice_leave, voice_offer, voice_set_muted, voice_answer, voice_ice, voice_set_speaking,
  post,
}
use nexusroom.Ws.Chat.{
  ChatSendPayload, Message, Profile, with_message_id, same_message, Context, fault,
  handle_chat_send, with_messages, send_chat_error, publish, stored, checked,
}
use nexusroom.Ws.Dispatch.{
  Incoming, room_of, call, call_voice, handle_voice_mute, mute_in, rtc_fail, answered,
  offer_decoded, handle_rtc_offer, call_decoded, beat, with_state, chat_in, handle_message,
}
use nexusroom.Ws.Admission.{
  Admitted, OptSame, SameRooms, OptAdmitted, same-Admitted, opt-Admitted, sent_same, put_same,
  store_same, call_voice_store, handle_room_join-Admitted, handle_room_leave-Admitted,
}

opt_store : (h h₁ : Hub) (o : Option Hub) → h₁.store ≡ h.store → OptSame h₁ o → OptSame h o
opt_store h h₁ none e s = tt
opt_store h h₁ (some h₂) e s = λ q. s q ∙ store_same h h₁ e q

answered_same : (p room_id : ℕ) (o : Option String) (h : Hub) → OptSame h (answered p room_id o h)
answered_same p room_id none h = λ q. refl
answered_same p room_id (some message) h = sent_same h p "rtc.error" _ room_id

offer_same :
    (p room_id : ℕ) (d outcome : Option String) (h : Hub)
    → OptSame h (offer_decoded p room_id d outcome h)
offer_same p room_id none outcome h = sent_same h p "rtc.error" _ room_id
offer_same p room_id (some sdp) none h = λ q. refl
offer_same p room_id (some sdp) (some message) h =
    let h₁ = call (voice_offer room_id (h.store p).user_id sdp) h in
    opt_store h h₁ (rtc_fail p room_id message h₁) refl
      (sent_same h₁ p "rtc.error" (rtc_error message) room_id)

handle_rtc_offer_same :
    (x : Context) (outcome : Option String) (p : ℕ) (m : Incoming) (h : Hub)
    → OptSame h (handle_rtc_offer x outcome p m h)
unfolding handle_rtc_offer
handle_rtc_offer_same x outcome p m h =
    elim (Bool-cases (
      (m.room_id == 0 || not (is_in_room (h.store p) m.room_id))
      || not (x.is_member m.room_id (h.store p).user_id))) [
        | inl e ↦ rw e (sent_same h p "rtc.error" (rtc_error "not a room member") m.room_id)
        | inr e ↦ rw e (
            if_lem (OptSame h) h.has_voice (offer_decoded p m.room_id m.description outcome h)
              (rtc_fail p m.room_id "RTC engine unavailable" h)
              (offer_same p m.room_id m.description outcome h)
              (sent_same h p "rtc.error" (rtc_error "RTC engine unavailable") m.room_id))
      ]

handle_voice_mute_same : (p : ℕ) (m : Incoming) (h : Hub) → OptSame h (handle_voice_mute p m h)
unfolding handle_voice_mute post
handle_voice_mute_same p m h = elim (Option-cases m.mute_payload) [
  | inl e ↦ rw e (λ q. refl)
  | inr ((inner, muted), e) ↦
      rw e (elim (Bool-cases (is_in_room (h.store p) (room_of m.room_id inner))) [
        | inr f ↦ rw f (λ q. refl)
        | inl f ↦ rw f (
            store_same h (mute_in p (room_of m.room_id inner) muted h) (
              call_voice_store (voice_set_muted (room_of m.room_id inner) (h.store p).user_id muted)
                h))
      ])
]

heartbeat_same : (p : ℕ) (h : Hub) → OptSame h (beat p h (handle_heartbeat (h.store p)))
unfolding handle_heartbeat
heartbeat_same p h =
    let c = h.store p in
    let c' : Client = record c {
      queue = c.queue ++ record { event = "pong"; room_id = 0; payload = empty } ∷ [];
    } in
    let P = λ (a : Attempt). OptSame h (beat p h a) in
    let full = ltb (length c.queue) capacity in
    if_lem P c.closed panics (if full then sent c' else waits) tt
      (if_lem P full (sent c') waits (put_same h p c' refl) (λ q. refl))

decoded_same :
    {A : Type 0} (c : A → Call) (o : Option A) (h : Hub) → SameRooms h (call_decoded c o h)
decoded_same c none h = λ q. refl
decoded_same c (some a) h = store_same h (call_voice (c a) h) (call_voice_store (c a) h)

module _ (M : Table Message with_message_id same_message) where
  open M use {State, create}

  abbrev StepSame : Hub → Option (Hub × State) → Type 0
  StepSame h none = Unit
  StepSame h (some (h', s)) = SameRooms h h'

  abbrev StepAdmitted : Context → Hub → Option (Hub × State) → Type 0
  StepAdmitted x h none = Unit
  StepAdmitted x h (some (h', s)) = Admitted x h h'

  step-Admitted :
      (x : Context) (h : Hub) (o : Option (Hub × State)) → StepSame h o → StepAdmitted x h o
  step-Admitted x h none a = tt
  step-Admitted x h (some (h', s)) a = same-Admitted x h h' a

  with_state-Admitted :
      (x : Context) (h : Hub) (s : State) (o : Option Hub)
      → OptAdmitted x h o
      → StepAdmitted x h (with_state M s o)
  with_state-Admitted x h s none a = tt
  with_state-Admitted x h s (some h') a = a

  with_messages_same :
      (h : Hub) (s : State) (o : Option Hub) → OptSame h o → StepSame h (with_messages M s o)
  with_messages_same h s none a = tt
  with_messages_same h s (some h') a = a

  chat_error_same :
      (p : ℕ) (payload : ChatSendPayload) (reason : String) (h : Hub) (s : State)
      → StepSame h (send_chat_error M p payload reason h s)
  chat_error_same p payload reason h s = with_messages_same h s _ (
      sent_same h p "chat.error" (chat_error payload.room_id reason payload.client_message_id)
        payload.room_id)

  publish_same :
      (p : ℕ) (payload : ChatSendPayload) (row : Message) (o : Option Profile) (h : Hub) (s : State)
      → StepSame h (publish M p payload row o h s)
  unfolding post
  publish_same p payload row none h s = chat_error_same p payload "sender_lookup_failed" h s
  publish_same p payload row (some profile) h s = λ q. refl

  stored_same :
      (x : Context) (p : ℕ) (payload : ChatSendPayload) (h : Hub) (r : Option Message × State)
      → StepSame h (stored M x p payload h r)
  stored_same x p payload h (none, s) = chat_error_same p payload "persistence_failed" h s
  stored_same x p payload h (some row, s) =
      publish_same p payload row (x.find_by_id (h.store p).user_id) h s

  checked_same :
      (x : Context) (p : ℕ) (payload : ChatSendPayload) (kind : String) (o : Option String)
      (h : Hub) (s : State)
      → StepSame h (checked M x p payload kind o h s)
  checked_same x p payload kind (some reason) h s = chat_error_same p payload reason h s
  checked_same x p payload kind none h s = stored_same x p payload h _

  handle_chat_send_same :
      (x : Context) (p : ℕ) (payload : ChatSendPayload) (h : Hub) (s : State)
      → StepSame h (handle_chat_send M x p payload h s)
  unfolding handle_chat_send send_event
  handle_chat_send_same x p payload h s =
      let kind = x.to_lower (x.trim_space payload.kind) in
      elim (Bool-cases (is_in_room (h.store p) payload.room_id)) [
        | inr e ↦ rw e (
            with_messages_same h s _ (
              sent_same h p "chat.error"
                (chat_error payload.room_id "not_in_room" payload.client_message_id) 0))
        | inl e ↦ rw e (elim (Bool-cases (x.is_member payload.room_id (h.store p).user_id)) [
          | inr f ↦ rw f (chat_error_same p payload "not_a_member" h s)
          | inl f ↦ rw f (checked_same x p payload kind (fault x kind payload.content) h s)
        ])
      ]

  chat_in_same :
      (x : Context) (p room_id : ℕ) (o : Option ChatSendPayload) (h : Hub) (s : State)
      → StepSame h (chat_in M x p room_id o h s)
  chat_in_same x p room_id none h s = λ q. refl
  chat_in_same x p room_id (some payload) h s = handle_chat_send_same x p _ h s

  all-Admitted :
      (x : Context) (outcome : Option String) (p : ℕ) (m : Incoming) (h : Hub) (s : State)
      → StepAdmitted x h (handle_message M x outcome p m h s)
  unfolding handle_message
  all-Admitted x outcome p m h s =
      let u = (h.store p).user_id in
      let w = with_state-Admitted x h s in
      elim (Bool-cases (str_eq m.event "heartbeat")) [
        | inl e ↦ rw e (w _ (opt-Admitted x h _ (heartbeat_same p h)))
        | inr e ↦ rw e (elim (Bool-cases (str_eq m.event "room.join")) [
          | inl e ↦ rw e (w _ (handle_room_join-Admitted x p m h))
          | inr e ↦ rw e (elim (Bool-cases (str_eq m.event "room.leave")) [
            | inl e ↦ rw e (w _ (handle_room_leave-Admitted x p m h))
            | inr e ↦ rw e (elim (Bool-cases (str_eq m.event "chat.send")) [
              | inl e ↦ rw e (step-Admitted x h _ (chat_in_same x p m.room_id m.chat_payload h s))
              | inr e ↦ rw e (elim (Bool-cases (str_eq m.event "voice.mute")) [
                | inl e ↦ rw e (w _ (opt-Admitted x h _ (handle_voice_mute_same p m h)))
                | inr e ↦ rw e (elim (Bool-cases (str_eq m.event "rtc.offer")) [
                  | inl e ↦ rw e (w _ (opt-Admitted x h _ (handle_rtc_offer_same x outcome p m h)))
                  | inr e ↦ rw e (elim (Bool-cases (str_eq m.event "rtc.answer")) [
                    | inl e ↦ rw e (
                        same-Admitted x h (call_decoded (voice_answer m.room_id u) m.description h)
                          (decoded_same (voice_answer m.room_id u) m.description h))
                    | inr e ↦ rw e (elim (Bool-cases (str_eq m.event "rtc.ice")) [
                      | inl e ↦ rw e (
                          same-Admitted x h (call_decoded (voice_ice m.room_id u) m.candidate h)
                            (decoded_same (voice_ice m.room_id u) m.candidate h))
                      | inr e ↦ rw e (elim (Bool-cases (str_eq m.event "rtc.leave")) [
                        | inl e ↦ rw e (
                            same-Admitted x h (call_voice (voice_leave m.room_id u) h) (
                              store_same h (call_voice (voice_leave m.room_id u) h)
                                (call_voice_store (voice_leave m.room_id u) h)))
                        | inr e ↦ rw e (elim (Bool-cases (str_eq m.event "rtc.speaking")) [
                          | inl e ↦ rw e (
                              same-Admitted x h
                                (call_decoded (voice_set_speaking m.room_id u) m.speaking_payload h)
                                (decoded_same (voice_set_speaking m.room_id u) m.speaking_payload
                                  h))
                          | inr e ↦ rw e (same-Admitted x h h (λ q. refl))
                        ])
                      ])
                    ])
                  ])
                ])
              ])
            ])
          ])
        ])
      ]

  -- When a message of a client was handled without a panic, each connection is in a room only if it
  -- was in it before or its user is a member of it by the database.
  pub handle_message-Admitted :
      (x : Context) (outcome : Option String) (p : ℕ) (m : Incoming) (h h' : Hub) (s s' : State)
      → handle_message M x outcome p m h s ≡ some (h', s')
      → Admitted x h h'
  handle_message-Admitted x outcome p m h h' s s' e =
      subst (StepAdmitted x h) e (all-Admitted x outcome p m h s)
