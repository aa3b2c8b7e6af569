-- ===== src/Ws/Follows.antt =====
-- A table of who is signed in by which connection, and what each event of the hub does to it.
use nexusroom.Base.{
  ℕ, ◌≡◌, refl, sym, ap, ◌∙◌, inl, inr, Bool, true, false, ◌&&◌, Option, none, some, List, [], ◌∷◌,
  ◌==◌, if◌then◌else◌, All, arith, Bool-cases, ==-refl,
}
use nexusroom.Ws.{send_event, leave_room, close_send}
use nexusroom.Ws.Hub.{
  Hub, lookup, erase, insert, put, is_current, register, unregister, post, take_broadcast,
  run_cleanup, send_to_user,
}
use nexusroom.Ws.Registration.{lookup-erase}
use nexusroom.Ws.Steps.{
  Event, registers, unregisters, takes, cleans, posts, sends, kicks, joins, leaves, writes,
  write_message, step,
}
use nexusroom.Ws.Unregistration.{
  Quiet, Quiet-trans, notify_rooms-Quiet, leave_voice, leave_voice-clients,
}
use nexusroom.Ws.Quiet.{
  some-Quiet, put-Quiet, put?-Quiet, send_entry-Quiet, take_from-Quiet, cleanup-Quiet,
  leave_room-Quiet, kick-Quiet, join_room_keeps, beside-Quiet,
}

-- Which connection a user is signed in by.
abbrev pub Sessions : Type 0
Sessions = ℕ → Option ℕ

abbrev pub is_connection : Option ℕ → ℕ → Bool
is_connection none p = false
is_connection (some q) p = q == p

-- A registered connection becomes that of its user. One that is unregistered is taken out where it
-- still is that of its user. Nothing else changes the table.
abbrev pub session_step : (user_of : ℕ → ℕ) → Event → Sessions → Sessions
session_step user_of (registers p) t = λ u. if user_of p == u then some p else t u
session_step user_of (unregisters p) t =
    λ u. if user_of p == u && is_connection (t u) p then none else t u
session_step user_of takes t = t
session_step user_of (cleans room_id user_id succeeds) t = t
session_step user_of (posts room_id event payload exclude) t = t
session_step user_of (sends user_id event payload room_id) t = t
session_step user_of (kicks room_id user_id reason) t = t
session_step user_of (joins p room_id) t = t
session_step user_of (leaves p room_id) t = t
session_step user_of (writes p) t = t

abbrev pub unregistered : List Event → List ℕ
unregistered [] = []
unregistered (unregisters p ∷ es) = p ∷ unregistered es
unregistered (_ ∷ es) = unregistered es

abbrev pub users_of : Hub → ℕ → ℕ
users_of h p = (h.store p).user_id

abbrev pub sessions_of : Hub → Sessions
sessions_of h u = lookup u h.clients

abbrev pub IsClosed : Hub → ℕ → Type 0
IsClosed h p = (h.store p).closed ≡ true

is_connection-is_current : (o : Option ℕ) (p : ℕ) → is_connection o p ≡ is_current o p
is_connection-is_current none p = refl
is_connection-is_current (some q) p = refl

-- What an event does to the table, and what it keeps.
pub record Follows (e : Event) (h h' : Hub) : Type 0 where
  pub users : (q : ℕ) → users_of h' q ≡ users_of h q
  pub clients : (u : ℕ) → sessions_of h' u ≡ session_step (users_of h) e (sessions_of h) u
  pub closed : (q : ℕ) → IsClosed h q → IsClosed h' q
  pub left : All (IsClosed h') (unregistered (e ∷ []))

register-Follows : (p : ℕ) (h h' : Hub) → register p h ≡ some h' → Follows (registers p) h h'
unfolding register insert send_event lookup
register-Follows p h h' e =
    let q =
      put?-Quiet (record h { clients = insert (h.store p).user_id p h.clients }) h' p _ _ 0 e in
    record {
      users = q.users;
      clients = λ u.
          ap (lookup u) q.clients
          ∙ ap (λ (o : Option ℕ). if (h.store p).user_id == u then some p else o)
              (lookup-erase (h.store p).user_id u h.clients)
          ∙ ground arith;
      closed = q.closed;
      left = tt;
    }

same_branches : {A : Type 0} {a : A} (b : Bool) → a ≡ (if b then a else a)
same_branches true = refl
same_branches false = refl

-- The table's row of the user v when p is unregistered, which is a connection of the user u.
row_lem :
    (u v p : ℕ) (m : List (ℕ × ℕ)) (b : Bool)
    → is_current (lookup u m) p ≡ b
    → (if u == v && is_connection (lookup v m) p then none else lookup v m)
      ≡ (if b then (if u == v then none else lookup v m) else lookup v m)
row_lem u v p m b c = elim (Bool-cases (u == v)) [
  | inr other ↦ rw other (same_branches b)
  | inl here ↦
      let same : u ≡ v = ground arith in
      let own : is_connection (lookup v m) p ≡ b =
        is_connection-is_current (lookup v m) p
        ∙ ap (λ (w : ℕ). is_current (lookup w m) p) (sym same)
        ∙ c in
      rw (here, own) refl
]

lookup-erased :
    (u v : ℕ) (m : List (ℕ × ℕ)) (b : Bool)
    → lookup v (if b then erase u m else m)
      ≡ (if b then (if u == v then none else lookup v m) else lookup v m)
lookup-erased u v m true = lookup-erase u v m
lookup-erased u v m false = refl

closed-Quiet :
    (p : ℕ) (h : Hub)
    → Quiet h
        (put (leave_voice (users_of h p) h) p (close_send ((leave_voice (users_of h p) h).store p)))
closed-Quiet p h =
    let h₁ = leave_voice (users_of h p) h in
    beside-Quiet h h₁ _ (leave_voice-clients (users_of h p) h) (ground arith)
      (put-Quiet h₁ p (close_send (h₁.store p)) refl (λ c. refl))

ended :
    (p : ℕ) (h h' : Hub) (b : Bool)
    → is_current (lookup (users_of h p) h.clients) p ≡ b
    → (let h₁ = leave_voice (users_of h p) h in
        Quiet
          (record (put h₁ p (close_send (h₁.store p))) {
            clients = if b then erase (users_of h p) h₁.clients else h₁.clients;
          })
          h')
    → Follows (unregisters p) h h'
ended p h h' b c q =
    let u = users_of h p in
    let h₁ = leave_voice u h in
    let base = closed-Quiet p h in
    record {
      users = λ r. q.users r ∙ base.users r;
      clients = λ v.
          ap (lookup v) q.clients
          ∙ ap (λ (m : List (ℕ × ℕ)). lookup v (if b then erase u m else m))
              (leave_voice-clients u h)
          ∙ lookup-erased u v h.clients b
          ∙ sym (row_lem u v p h.clients b c);
      closed = λ r k. q.closed r (base.closed r k);
      left = (q.closed p (rw (==-refl p) refl), tt);
    }

unregister-Follows : (p : ℕ) (h h' : Hub) → unregister p h ≡ some h' → Follows (unregisters p) h h'
unfolding unregister
unregister-Follows p h h' e =
    let u = users_of h p in
    let h₁ = leave_voice u h in
    let same : is_current (lookup u h₁.clients) p ≡ is_current (lookup u h.clients) p =
      ap (λ (m : List (ℕ × ℕ)). is_current (lookup u m) p) (leave_voice-clients u h) in
    elim (Bool-cases (is_current (lookup u h₁.clients) p)) [
      | inl c ↦ ended p h h' true (sym same ∙ c) (
          notify_rooms-Quiet u (h₁.store p).rooms
            (record (put h₁ p (close_send (h₁.store p))) { clients = erase u h₁.clients }) h'
            (rw c at e))
      | inr c ↦
          ended p h h' false (sym same ∙ c)
            (some-Quiet (put h₁ p (close_send (h₁.store p))) h' (rw c at e))
    ]

quiet-Follows :
    (e : Event) (h h' : Hub)
    → ((t : Sessions) → session_step (users_of h) e t ≡ t)
    → unregistered (e ∷ []) ≡ []
    → Quiet h h'
    → Follows e h h'
quiet-Follows e h h' same nobody q = record {
  users = q.users;
  clients = λ u. ap (lookup u) q.clients ∙ ap (λ (t : Sessions). t u) (sym (same (sessions_of h)));
  closed = q.closed;
  left = rw nobody tt;
}

pub step-Follows : (e : Event) (h h' : Hub) → step e h ≡ some h' → Follows e h h'
unfolding step take_broadcast run_cleanup post send_to_user leave_room write_message
step-Follows (registers p) h h' e = register-Follows p h h' e
step-Follows (unregisters p) h h' e = unregister-Follows p h h' e
step-Follows takes h h' e =
    quiet-Follows takes h h' (λ t. refl) refl (take_from-Quiet h.waiting h h' e)
step-Follows (cleans room_id u succeeds) h h' e =
    quiet-Follows _ h h' (λ t. refl) refl (cleanup-Quiet _ room_id u succeeds h h' e)
step-Follows (posts room_id event payload exclude) h h' e =
    quiet-Follows _ h h' (λ t. refl) refl (beside-Quiet h _ h' refl refl (some-Quiet _ h' e))
step-Follows (sends u event payload room_id) h h' e =
    quiet-Follows _ h h' (λ t. refl) refl (send_entry-Quiet _ event payload room_id h h' e)
step-Follows (kicks room_id u reason) h h' e =
    quiet-Follows _ h h' (λ t. refl) refl (kick-Quiet room_id u reason h h' e)
step-Follows (joins p room_id) h h' e =
    let (own, shut) = join_room_keeps (h.store p) room_id in
    quiet-Follows _ h h' (λ t. refl) refl
      (Quiet-trans (put-Quiet h p _ own (λ c. shut ∙ c)) (some-Quiet _ h' e))
step-Follows (leaves p room_id) h h' e =
    quiet-Follows _ h h' (λ t. refl) refl
      (Quiet-trans (leave_room-Quiet p room_id h) (some-Quiet _ h' e))
step-Follows (writes p) h h' e =
    quiet-Follows _ h h' (λ t. refl) refl
      (Quiet-trans (put-Quiet h p (write_message (h.store p)) refl (λ c. c)) (some-Quiet _ h' e))
