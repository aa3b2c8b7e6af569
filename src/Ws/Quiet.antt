-- ===== src/Ws/Quiet.antt =====
-- What the events of the hub leave as it was, but for the registrations and their ends.
use Prim.Native.String.{String}
use nexusroom.Base.{
  ℕ, ◌≡◌, refl, sym, ap, ◌∙◌, inl, inr, Bool, true, false, Option, none, some, List, [], ◌∷◌, ◌==◌,
  arith, Bool-cases, Option-cases,
}
use nexusroom.Ws.{Client, Payload, send_event_to_room, leave_room, join_room}
use nexusroom.Ws.Hub.{
  Hub, BroadcastMessage, lookup, put, put?, drop_room, post, take_from, announce_cleanup,
  cleanup_if, send_entry, send_to_user, kick_user_from_room,
}
use nexusroom.Ws.Delivery.{and_then-some}
use nexusroom.Ws.Unregistration.{Quiet, Quiet-trans, broadcast-Quiet}

pub some-Quiet : (h h' : Hub) → some h ≡ some h' → Quiet h h'
some-Quiet h h' e = record {
  clients = ground arith;
  users = λ q. ground arith;
  closed = λ q c. ground arith;
}

-- The hub after a step, but for its connections and its map.
pub beside-Quiet :
    (h k h' : Hub) → k.clients ≡ h.clients → k.store ≡ h.store → Quiet k h' → Quiet h h'
beside-Quiet h k h' clients store k-h' = record {
  clients = k-h'.clients ∙ clients;
  users = λ q. k-h'.users q ∙ ap (λ (s : ℕ → Client). (s q).user_id) store;
  closed = λ q c. k-h'.closed q (ap (λ (s : ℕ → Client). (s q).closed) store ∙ c);
}

pub put-Quiet :
    (h : Hub) (p : ℕ) (c : Client)
    → c.user_id ≡ (h.store p).user_id
    → ((h.store p).closed ≡ true → c.closed ≡ true)
    → Quiet h (put h p c)
put-Quiet h p c own shut = record {
  clients = refl;
  users = λ q. ground arith;
  closed = λ q e. elim (Bool-cases (p == q)) [
    | inr other ↦ rw other e
    | inl here ↦
        let same : q ≡ p = ground arith in
        rw here (shut (ap (λ (n : ℕ). (h.store n).closed) (sym same) ∙ e))
  ];
}

pub send_keeps :
    (c c' : Client) (event : String) (payload : Payload) (room_id : ℕ)
    → send_event_to_room c event payload room_id ≡ some c'
    → (c'.user_id ≡ c.user_id) × (c.closed ≡ false)
unfolding send_event_to_room
send_keeps c c' event payload room_id e = (ground arith, ground arith)

pub put?-Quiet :
    (h h' : Hub) (p : ℕ) (event : String) (payload : Payload) (room_id : ℕ)
    → put? h p (send_event_to_room (h.store p) event payload room_id) ≡ some h'
    → Quiet h h'
put?-Quiet h h' p event payload room_id e =
    elim (Option-cases (send_event_to_room (h.store p) event payload room_id)) [
      | inl f ↦ cc (rw f at e)
      | inr (c, f) ↦
          let (own, was_open) = send_keeps (h.store p) c event payload room_id f in
          Quiet-trans (put-Quiet h p c own (λ k. cc (k, was_open)))
            (some-Quiet (put h p c) h' (rw f at e))
    ]

pub send_entry-Quiet :
    (o : Option ℕ) (event : String) (payload : Payload) (room_id : ℕ) (h h' : Hub)
    → send_entry o event payload room_id h ≡ some h'
    → Quiet h h'
send_entry-Quiet none event payload room_id h h' e = some-Quiet h h' e
send_entry-Quiet (some p) event payload room_id h h' e = put?-Quiet h h' p event payload room_id e

pub take_from-Quiet :
    (ms : List BroadcastMessage) (h h' : Hub) → take_from ms h ≡ some h' → Quiet h h'
take_from-Quiet [] h h' e = some-Quiet h h' e
take_from-Quiet (m ∷ ms) h h' e =
    beside-Quiet h (record h { waiting = ms }) h' refl refl
      (broadcast-Quiet m.room_id m.event m.payload m.exclude_user_id (record h { waiting = ms }) h'
        e)

pub announce-Quiet :
    (room_id u : ℕ) (succeeds : Bool) (h h' : Hub)
    → announce_cleanup room_id u succeeds h ≡ some h'
    → Quiet h h'
announce-Quiet room_id u true h h' e = broadcast-Quiet room_id _ _ u h h' e
announce-Quiet room_id u false h h' e = some-Quiet h h' e

pub cleanup-Quiet :
    (b : Bool) (room_id u : ℕ) (succeeds : Bool) (h h' : Hub)
    → cleanup_if b room_id u succeeds h ≡ some h'
    → Quiet h h'
cleanup-Quiet true room_id u succeeds h h' e = some-Quiet h h' e
cleanup-Quiet false room_id u succeeds h h' e =
    beside-Quiet h _ h' refl refl (announce-Quiet room_id u succeeds _ h' e)

pub leave_room-Quiet :
    (p room_id : ℕ) (h : Hub) → Quiet h (put h p (leave_room (h.store p) room_id))
unfolding leave_room
leave_room-Quiet p room_id h = put-Quiet h p _ refl (λ c. c)

pub drop_room-Quiet : (room_id : ℕ) (o : Option ℕ) (h : Hub) → Quiet h (drop_room room_id o h)
drop_room-Quiet room_id none h = some-Quiet h h refl
drop_room-Quiet room_id (some p) h = leave_room-Quiet p room_id h

pub kick-Quiet :
    (room_id u : ℕ) (reason : String) (h h' : Hub)
    → kick_user_from_room room_id u reason h ≡ some h'
    → Quiet h h'
unfolding kick_user_from_room send_to_user post
kick-Quiet room_id u reason h h' e =
    let (h₁, sent, rest) = and_then-some _ _ h' e in
    Quiet-trans (send_entry-Quiet (lookup u h.clients) _ _ 0 h h₁ sent) (
      beside-Quiet h₁ _ h' refl refl
        (Quiet-trans (drop_room-Quiet room_id _ _) (some-Quiet _ h' rest)))

pub join_room_keeps :
    (c : Client) (room_id : ℕ)
    → ((join_room c room_id).user_id ≡ c.user_id) × ((join_room c room_id).closed ≡ c.closed)
unfolding join_room
join_room_keeps c room_id = (ground arith, ground arith)
