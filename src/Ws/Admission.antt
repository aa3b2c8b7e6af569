-- ===== src/Ws/Admission.antt =====
-- Which rooms a connection can be in after a message of its client was handled.
use Prim.Native.String.{String}
use nexusroom.Base.{
  ℕ, ◌≡◌, refl, sym, ap, ◌∙◌, ◌⊎◌, inl, inr, Bool, true, false, not, Option, none, some, List, [],
  ◌∷◌, ◌==◌, ltb, length, any, filter, Bool-cases, Option-cases, arith,
}
use nexusroom.Ws.{
  Client, Payload, capacity, is_in_room, join_room, leave_room, send_event_to_room, room_joined,
  room_join_error,
}
use nexusroom.Ws.Hub.{Hub, Call, voice_leave, put, put?, post}
use nexusroom.Ws.Chat.{Context}
use nexusroom.Ws.Dispatch.{
  Incoming, room_of, call_voice, joined, join_if, handle_room_join, leave_to, handle_room_leave,
}

abbrev pub SameRooms : Hub → Hub → Type 0
SameRooms h h' = (q : ℕ) → (h'.store q).rooms ≡ (h.store q).rooms

abbrev pub OptSame : Hub → Option Hub → Type 0
OptSame h none = Unit
OptSame h (some h') = SameRooms h h'

-- Every connection is in no room that it was not in, but for rooms that its user is a member of.
abbrev pub Admitted : Context → Hub → Hub → Type 0
Admitted x h h' =
    (q room_id : ℕ)
    → is_in_room (h'.store q) room_id ≡ true
    → (is_in_room (h.store q) room_id ≡ true) ⊎ (x.is_member room_id (h.store q).user_id ≡ true)

pub same-Admitted : (x : Context) (h h' : Hub) → SameRooms h h' → Admitted x h h'
unfolding is_in_room
same-Admitted x h h' same q room_id e =
    inl (ap (λ (rs : List ℕ). any (λ r. r == room_id) rs) (sym (same q)) ∙ e)

send_rooms :
    (c c' : Client) (event : String) (payload : Payload) (room_id : ℕ)
    → send_event_to_room c event payload room_id ≡ some c'
    → c'.rooms ≡ c.rooms
unfolding send_event_to_room
send_rooms c c' event payload room_id e = elim (Bool-cases c.closed) [
  | inl f ↦ cc (rw f at e)
  | inr f ↦ elim (Bool-cases (ltb (length c.queue) capacity)) [
    | inl g ↦
        sym (
          ap (λ (o : Option Client). elim o [ none ↦ c.rooms | some k ↦ k.rooms ]) (rw (f, g) at e))
    | inr g ↦
        sym (
          ap (λ (o : Option Client). elim o [ none ↦ c.rooms | some k ↦ k.rooms ]) (rw (f, g) at e))
  ]
]

pub put_same :
    (h : Hub) (p : ℕ) (c : Client) → c.rooms ≡ (h.store p).rooms → SameRooms h (put h p c)
put_same h p c e q = elim (Bool-cases (p == q)) [
  | inl s ↦ let same : p ≡ q = ground arith in rw s (e ∙ ap (λ (k : ℕ). (h.store k).rooms) same)
  | inr s ↦ rw s refl
]

pub sent_same :
    (h : Hub) (p : ℕ) (event : String) (payload : Payload) (room_id : ℕ)
    → OptSame h (put? h p (send_event_to_room (h.store p) event payload room_id))
sent_same h p event payload room_id =
    elim (Option-cases (send_event_to_room (h.store p) event payload room_id)) [
      | inl e ↦ rw e tt
      | inr (c, e) ↦ rw e (put_same h p c (send_rooms (h.store p) c event payload room_id e))
    ]

abbrev pub OptAdmitted : Context → Hub → Option Hub → Type 0
OptAdmitted x h none = Unit
OptAdmitted x h (some h') = Admitted x h h'

pub opt-Admitted : (x : Context) (h : Hub) (o : Option Hub) → OptSame h o → OptAdmitted x h o
opt-Admitted x h none s = tt
opt-Admitted x h (some h') s = same-Admitted x h h' s

join-Admitted :
    (x : Context) (p room_id : ℕ) (h : Hub)
    → x.is_member room_id (h.store p).user_id ≡ true
    → Admitted x h (put h p (join_room (h.store p) room_id))
unfolding is_in_room join_room any
join-Admitted x p room_id h m q k e = elim (Bool-cases (p == q)) [
  | inr other ↦ inl (rw other at e)
  | inl s ↦
      let same : p ≡ q = ground arith in
      let here = rw s at e in
      elim (Bool-cases (is_in_room (h.store p) room_id)) [
        | inl was ↦ inl (rw (was, same) at here)
        | inr new ↦ elim (Bool-cases (room_id == k)) [
          | inl hit ↦ let same_room : room_id ≡ k = ground arith in inr (rw (same, same_room) at m)
          | inr miss ↦ inl (rw (new, miss, same) at here)
        ]
      ]
]

then_same : (x : Context) (h h₁ h₂ : Hub) → Admitted x h h₁ → SameRooms h₁ h₂ → Admitted x h h₂
unfolding is_in_room
then_same x h h₁ h₂ a same q room_id e =
    a q room_id (ap (λ (rs : List ℕ). any (λ r. r == room_id) rs) (sym (same q)) ∙ e)

opt_then :
    (x : Context) (h h₁ : Hub) (o : Option Hub) → Admitted x h h₁ → OptSame h₁ o → OptAdmitted x h o
opt_then x h h₁ none a s = tt
opt_then x h h₁ (some h₂) a s = then_same x h h₁ h₂ a s

pub store_same : (h h' : Hub) → h'.store ≡ h.store → SameRooms h h'
store_same h h' e q = ap (λ (s : ℕ → Client). (s q).rooms) e

pub call_voice_store : (c : Call) (h : Hub) → (call_voice c h).store ≡ h.store
call_voice_store c h = ground arith

joined_same : (x : Context) (p room_id : ℕ) (h : Hub) → OptSame h (joined x p room_id h)
unfolding post
joined_same x p room_id h =
    let o = put? h p (send_event_to_room (h.store p) "room.joined" (room_joined room_id) room_id) in
    let s = sent_same h p "room.joined" (room_joined room_id) room_id in
    elim (Option-cases o) [ inl e ↦ rw e tt | inr (h', e) ↦ rw e (rw e at s) ]

join_if-Admitted :
    (b : Bool) (x : Context) (p room_id : ℕ) (h : Hub)
    → x.is_member room_id (h.store p).user_id ≡ b
    → OptAdmitted x h (join_if b x p room_id h)
join_if-Admitted false x p room_id h m =
    opt-Admitted x h _
      (sent_same h p "room.join_error" (room_join_error room_id "not_a_member") room_id)
join_if-Admitted true x p room_id h m =
    opt_then x h (put h p (join_room (h.store p) room_id)) _ (join-Admitted x p room_id h m)
      (joined_same x p room_id (put h p (join_room (h.store p) room_id)))

pub handle_room_join-Admitted :
    (x : Context) (p : ℕ) (m : Incoming) (h : Hub) → OptAdmitted x h (handle_room_join x p m h)
unfolding handle_room_join
handle_room_join-Admitted x p m h = elim (Option-cases m.room_payload) [
  | inl e ↦ rw e (same-Admitted x h h (λ q. refl))
  | inr (inner, e) ↦ rw e (join_if-Admitted _ x p (room_of m.room_id inner) h refl)
]

any_of-filter : (p q : ℕ → Bool) (xs : List ℕ) → any p (filter q xs) ≡ true → any p xs ≡ true
unfolding any filter
any_of-filter p q [] e = e
any_of-filter p q (x ∷ xs) e = ground (arith, any_of-filter p q xs, e)

leave-Admitted :
    (x : Context) (p room_id : ℕ) (h : Hub)
    → Admitted x h (put h p (leave_room (h.store p) room_id))
unfolding is_in_room leave_room
leave-Admitted x p room_id h q k e = elim (Bool-cases (p == q)) [
  | inr other ↦ inl (rw other at e)
  | inl s ↦
      let same : p ≡ q = ground arith in
      inl (
        any_of-filter (λ r. r == k) (λ r. not (r == room_id)) (h.store q).rooms (rw (s, same) at e))
]

leave_to-Admitted : (x : Context) (p room_id : ℕ) (h : Hub) → Admitted x h (leave_to p room_id h)
unfolding post
leave_to-Admitted x p room_id h =
    then_same x h (put h p (leave_room (h.store p) room_id)) (leave_to p room_id h)
      (leave-Admitted x p room_id h)
      (store_same (put h p (leave_room (h.store p) room_id)) (leave_to p room_id h) (
        call_voice_store (voice_leave room_id (h.store p).user_id)
          (put h p (leave_room (h.store p) room_id))))

pub handle_room_leave-Admitted :
    (x : Context) (p : ℕ) (m : Incoming) (h : Hub) → OptAdmitted x h (handle_room_leave p m h)
unfolding handle_room_leave
handle_room_leave-Admitted x p m h = elim (Option-cases m.room_payload) [
  | inl e ↦ rw e (same-Admitted x h h (λ q. refl))
  | inr (inner, e) ↦ rw e (leave_to-Admitted x p (room_of m.room_id inner) h)
]
