-- ===== src/Ws/Sessions.antt =====
-- The hub's events, one after the other, against the table of who is signed in.
use nexusroom.Base.{ℕ, ◌≡◌, ap, ap₂, ◌∙◌, some, List, [], ◌∷◌, All}
use nexusroom.Ws.Hub.{Hub, lookup}
use nexusroom.Ws.Delivery.{and_then-some}
use nexusroom.Ws.Steps.{
  Event, registers, unregisters, takes, cleans, posts, sends, kicks, joins, leaves, writes, step,
  run_events,
}
use nexusroom.Ws.Quiet.{some-Quiet}
use nexusroom.Ws.Follows.{
  Sessions, session_step, unregistered, users_of, sessions_of, IsClosed, step-Follows,
}

-- The table after all the events.
abbrev pub sessions : (user_of : ℕ → ℕ) → List Event → Sessions → Sessions
sessions user_of [] t = t
sessions user_of (e ∷ es) t = sessions user_of es (session_step user_of e t)

run_events-IsClosed :
    (es : List Event) (h h' : Hub)
    → run_events es h ≡ some h'
    → (q : ℕ) → IsClosed h q
    → IsClosed h' q
unfolding run_events
run_events-IsClosed [] h h' e q c = (some-Quiet h h' e).closed q c
run_events-IsClosed (ev ∷ es) h h' e q c =
    let (mid, first, rest) = and_then-some (step ev h) (run_events es) h' e in
    run_events-IsClosed es mid h' rest q ((step-Follows ev h mid first).closed q c)

module _ (P : ℕ → Type 0) where
  unregistered_lem :
      (e : Event) (es : List Event)
      → All P (unregistered (e ∷ []))
      → All P (unregistered es)
      → All P (unregistered (e ∷ es))
  unregistered_lem (unregisters p) es (h, _) hs = (h, hs)
  unregistered_lem (registers p) es h hs = hs
  unregistered_lem takes es h hs = hs
  unregistered_lem (cleans room_id u succeeds) es h hs = hs
  unregistered_lem (posts room_id event payload exclude) es h hs = hs
  unregistered_lem (sends u event payload room_id) es h hs = hs
  unregistered_lem (kicks room_id u reason) es h hs = hs
  unregistered_lem (joins p room_id) es h hs = hs
  unregistered_lem (leaves p room_id) es h hs = hs
  unregistered_lem (writes p) es h hs = hs

All-IsClosed :
    (h h' : Hub) (ps : List ℕ)
    → ((q : ℕ) → IsClosed h q → IsClosed h' q)
    → All (IsClosed h) ps
    → All (IsClosed h') ps
All-IsClosed h h' [] k c = tt
All-IsClosed h h' (p ∷ ps) k (c, cs) = (k p c, All-IsClosed h h' ps k cs)

-- Along any sequence of events of the hub that does not end in a panic the hub's map is the table of
-- the sessions: a user is signed in by the connection that was registered last for him, until that
-- one is unregistered, and no other event, and no end of an older connection, changes this. Every
-- connection that was unregistered has its channel closed.
pub run_events-Sessions :
    (es : List Event) (h h' : Hub)
    → run_events es h ≡ some h'
    → ((u : ℕ) → sessions_of h' u ≡ sessions (users_of h) es (sessions_of h) u)
      × All (IsClosed h') (unregistered es)
unfolding run_events
run_events-Sessions [] h h' e = (λ u. ap (lookup u) (some-Quiet h h' e).clients, tt)
run_events-Sessions (ev ∷ es) h h' e =
    let (mid, first, rest) = and_then-some (step ev h) (run_events es) h' e in
    let f = step-Follows ev h mid first in
    let (table, left) = run_events-Sessions es mid h' rest in
    let users : users_of mid ≡ users_of h = λ i q. f.users q i in
    let before : sessions_of mid ≡ session_step (users_of h) ev (sessions_of h) =
      λ i u. f.clients u i in
    (
      λ u. table u ∙ ap₂ (λ (w : ℕ → ℕ) (t : Sessions). sessions w es t u) users before,
      unregistered_lem (IsClosed h') ev es
          (All-IsClosed mid h' (unregistered (ev ∷ [])) (run_events-IsClosed es mid h' rest) f.left)
          left,
    )
