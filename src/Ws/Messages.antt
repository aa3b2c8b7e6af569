-- ===== src/Ws/Messages.antt =====
-- What `HandleChatSend` stores and what it broadcasts.
use Prim.Native.String
use Prim.Native.String.{String}
use text.Mathlib.Text.{◌==◌ as str_eq}
use text.Mathlib.TextEquality.{eq_iff}
use nexusroom.Base.{
  ℕ, ◌≤◌, ◌≡◌, ◌≢◌, refl, sym, ap, ◌∙◌, ◌⊎◌, inl, inr, true, Option, none, some, [], ◌∷◌, ◌++◌,
  if◌then◌else◌, Bool-cases, Option-cases, arith,
}
use nexusroom.Orm.{Table}
use nexusroom.Ws.{Client, chat_message, is_in_room}
use nexusroom.Ws.Hub.{Hub, put?, post}
use nexusroom.Ws.Chat.{
  ChatSendPayload, Message, with_message_id, same_message, Profile, Context, fault, with_messages,
  chat_of, publish, stored, handle_chat_send,
}

-- What a message must be for the server to take it.
abbrev pub IsAcceptable : Context → String → String → Type 0
IsAcceptable x kind content =
    ((kind ≡ "text") ⊎ (kind ≡ "image") ⊎ (kind ≡ "file"))
    × (x.trim_space content ≢ "")
    × (String.len content ≤ (if str_eq kind "text" then 8000 else 4096))

fault-none :
    (x : Context) (kind content : String)
    → fault x kind content ≡ none
    → IsAcceptable x kind content
unfolding fault
fault-none x kind content e = ground (
  arith,
  eq_iff kind "text",
  eq_iff kind "image",
  eq_iff kind "file",
  eq_iff (x.trim_space content) "",
)

put?-waiting :
    (h h' : Hub) (p : ℕ) (o : Option Client) → put? h p o ≡ some h' → h'.waiting ≡ h.waiting
put?-waiting h h' p none e = cc
put?-waiting h h' p (some c) e = ground arith

module _ (M : Table Message with_message_id same_message) where
  open M use {State, rows, create, create_ok, create_failed}

  -- The stored row and the message on its way to the room are those of the sender.
  pub record Published (x : Context) (p : ℕ) (payload : ChatSendPayload) (h h' : Hub) (s s' : State)
      : Type 0 where
    pub row : Message
    pub profile : Profile
    pub joined : is_in_room (h.store p) payload.room_id ≡ true
    pub member : x.is_member payload.room_id (h.store p).user_id ≡ true
    pub acceptable : IsAcceptable x (x.to_lower (x.trim_space payload.kind)) payload.content
    pub room : row.room_id ≡ payload.room_id
    pub sender : row.sender_id ≡ (h.store p).user_id
    pub content : row.content ≡ payload.content
    pub kept : rows s' ≡ rows s ++ row ∷ []
    pub sent :
        h'.waiting
        ≡ h.waiting
          ++ record {
            room_id = payload.room_id;
            event = "chat.message";
            payload = chat_message (chat_of M row payload (h.store p).user_id profile);
            exclude_user_id = 0;
          }
            ∷ []

  -- Nothing is sent to the room; a row may have been added only if the sender's own row of the
  -- user table could not be read.
  abbrev pub Refused : Context → ℕ → Hub → Hub → State → State → Type 0
  Refused x p h h' s s' =
      (h'.waiting ≡ h.waiting) × ((rows s' ≡ rows s) ⊎ (x.find_by_id (h.store p).user_id ≡ none))

  with_messages-some :
      (s s' : State) (o : Option Hub) (h' : Hub)
      → with_messages M s o ≡ some (h', s')
      → (o ≡ some h') × (s ≡ s')
  with_messages-some s s' none h' e = cc
  with_messages-some s s' (some h) h' e = ground arith

  with_messages-Refused :
      (x : Context) (p : ℕ) (h h' : Hub) (s s' : State) (o : Option Client)
      → with_messages M s (put? h p o) ≡ some (h', s')
      → Refused x p h h' s s'
  with_messages-Refused x p h h' s s' o e =
      let (first, same) = with_messages-some s s' (put? h p o) h' e in
      (put?-waiting h h' p o first, inl (ap rows (sym same)))

  publish-Published :
      (x : Context) (p : ℕ) (payload : ChatSendPayload) (h h' : Hub) (s s₁ s' : State)
      (row : Message)
      → is_in_room (h.store p) payload.room_id ≡ true
      → x.is_member payload.room_id (h.store p).user_id ≡ true
      → IsAcceptable x (x.to_lower (x.trim_space payload.kind)) payload.content
      → row.room_id ≡ payload.room_id
      → row.sender_id ≡ (h.store p).user_id
      → row.content ≡ payload.content
      → rows s₁ ≡ rows s ++ row ∷ []
      → (profile : Option Profile) → x.find_by_id (h.store p).user_id ≡ profile
      → publish M p payload row profile h s₁ ≡ some (h', s')
      → Refused x p h h' s s' ⊎ Published x p payload h h' s s'
  unfolding post
  publish-Published x p payload h h' s s₁ s' row i m a r d c kept none q e =
      let (first, same) = with_messages-some s₁ s' _ h' e in
      inl (put?-waiting h h' p _ first, inr q)
  publish-Published x p payload h h' s s₁ s' row i m a r d c kept (some profile) q e =
      let same_state : s' ≡ s₁ = sym (ground arith) in
      inr (record {
        row = row;
        profile = profile;
        joined = i;
        member = m;
        acceptable = a;
        room = r;
        sender = d;
        content = c;
        kept = rw same_state kept;
        sent = ground arith;
      })

  stored-Published :
      (x : Context) (p : ℕ) (payload : ChatSendPayload) (h h' : Hub) (s s' : State) (new : Message)
      → is_in_room (h.store p) payload.room_id ≡ true
      → x.is_member payload.room_id (h.store p).user_id ≡ true
      → IsAcceptable x (x.to_lower (x.trim_space payload.kind)) payload.content
      → new.room_id ≡ payload.room_id
      → new.sender_id ≡ (h.store p).user_id
      → new.content ≡ payload.content
      → stored M x p payload h (create new s) ≡ some (h', s')
      → Refused x p h h' s s' ⊎ Published x p payload h h' s s'
  stored-Published x p payload h h' s s' new i m a r d c e = elim (Option-cases (create new s).0) [
    | inl f ↦
        let (first, same) = with_messages-some (create new s).1 s' _ h' (rw f at e) in
        inl (put?-waiting h h' p _ first, inl (ap rows (sym same) ∙ create_failed new s f))
    | inr (row, f) ↦
        let (n, filled, fresh, kept) = create_ok new s row f in
        publish-Published x p payload h h' s (create new s).1 s' row i m a
          (ap (λ (y : Message). y.room_id) filled ∙ r)
          (ap (λ (y : Message). y.sender_id) filled ∙ d)
          (ap (λ (y : Message). y.content) filled ∙ c) kept (x.find_by_id (h.store p).user_id) refl
          (rw f at e)
  ]

  -- However a chat message is handled without a panic, either nothing goes to the room, and a row
  -- has been added to the messages only if the sender's user row could not be read; or the sender
  -- has joined the room and is a member of it, the message has an allowed kind, is not blank and
  -- not over its length, exactly one row with his identity, the room and the content has been
  -- added, and one message with that row's fields waits for the room, for everybody in it.
  pub handle_chat_send-Published :
      (x : Context) (p : ℕ) (payload : ChatSendPayload) (h h' : Hub) (s s' : State)
      → handle_chat_send M x p payload h s ≡ some (h', s')
      → Refused x p h h' s s' ⊎ Published x p payload h h' s s'
  unfolding handle_chat_send
  handle_chat_send-Published x p payload h h' s s' e =
      let kind = x.to_lower (x.trim_space payload.kind) in
      elim (Bool-cases (is_in_room (h.store p) payload.room_id)) [
        | inr out ↦ inl (with_messages-Refused x p h h' s s' _ (rw out at e))
        | inl i ↦ elim (Bool-cases (x.is_member payload.room_id (h.store p).user_id)) [
          | inr stranger ↦ inl (with_messages-Refused x p h h' s s' _ (rw (i, stranger) at e))
          | inl m ↦ elim (Option-cases (fault x kind payload.content)) [
            | inr (reason, f) ↦ inl (with_messages-Refused x p h h' s s' _ (rw (i, m, f) at e))
            | inl f ↦
                stored-Published x p payload h h' s s'
                  (record {
                    id = 0;
                    room_id = payload.room_id;
                    sender_id = (h.store p).user_id;
                    kind = kind;
                    content = payload.content;
                    meta = payload.meta;
                  })
                  i m (fault-none x kind payload.content f) refl refl refl (rw (i, m, f) at e)
          ]
        ]
      ]
