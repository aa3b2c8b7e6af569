-- ===== src/Ws/Unregistration.antt =====
-- The end of a connection: of the user's current one, and of one that has been replaced.
use Prim.Native.String.{String}
use nexusroom.Base.{
  ℕ, ◌≡◌, ◌≢◌, refl, sym, ◌∙◌, inl, inr, true, some, List, [], ◌∷◌, ◌++◌, if◌then◌else◌,
  Option-cases, arith,
}
use nexusroom.Ws.{Payload, close_send}
use nexusroom.Ws.Hub.{
  Hub, voice_leave_user, lookup, put, deliver_all, broadcast_to_room, unregister, notify_rooms,
  schedule_wg_peer_cleanup,
}
use nexusroom.Ws.Delivery.{deliver_all-Keeps, and_then-some}

-- The map and the users of the connections are as they were, and a closed connection stays closed.
pub record Quiet (h h' : Hub) : Type 0 where
  pub clients : h'.clients ≡ h.clients
  pub users : (q : ℕ) → (h'.store q).user_id ≡ (h.store q).user_id
  pub closed : (q : ℕ) → (h.store q).closed ≡ true → (h'.store q).closed ≡ true

pub Quiet-trans : {h k m : Hub} → Quiet h k → Quiet k m → Quiet h m
Quiet-trans a b = record {
  clients = b.clients ∙ a.clients;
  users = λ q. b.users q ∙ a.users q;
  closed = λ q c. b.closed q (a.closed q c);
}

pub broadcast-Quiet :
    (room_id : ℕ) (event : String) (payload : Payload) (exclude : ℕ) (h h' : Hub)
    → broadcast_to_room room_id event payload exclude h ≡ some h'
    → Quiet h h'
unfolding broadcast_to_room
broadcast-Quiet room_id event payload exclude h h' e =
    elim (Option-cases (deliver_all room_id event payload exclude h.clients h.store)) [
      | inl f ↦ cc (rw f at e)
      | inr (store', f) ↦
          let k = deliver_all-Keeps room_id event payload exclude h.clients h.store store' f in
          let same : h' ≡ record h { store = store' } = sym (ground (arith, rw f at e)) in
          rw same (record { clients = refl; users = k.users; closed = k.closed })
    ]

schedule-Quiet :
    (room_id u : ℕ) (h h' : Hub)
    → some (schedule_wg_peer_cleanup room_id u h) ≡ some h'
    → Quiet h h'
unfolding schedule_wg_peer_cleanup
schedule-Quiet room_id u h h' e = record {
  clients = ground arith;
  users = λ q. ground arith;
  closed = λ q c. ground arith;
}

pub notify_rooms-Quiet :
    (u : ℕ) (rooms : List ℕ) (h h' : Hub) → notify_rooms u rooms h ≡ some h' → Quiet h h'
unfolding notify_rooms
notify_rooms-Quiet u [] h h' e = record {
  clients = ground arith;
  users = λ q. ground arith;
  closed = λ q c. ground arith;
}
notify_rooms-Quiet u (room_id ∷ rooms) h h' e =
    let (h₂, first, rest) = and_then-some _ (notify_rooms u rooms) h' e in
    let (h₁, sent, scheduled) = and_then-some _ _ h₂ first in
    Quiet-trans (broadcast-Quiet room_id _ _ u h h₁ sent) (
      Quiet-trans (schedule-Quiet room_id u h₁ h₂ scheduled)
        (notify_rooms-Quiet u rooms h₂ h' rest))

abbrev pub leave_voice : ℕ → Hub → Hub
leave_voice u h = if h.has_voice then record h { calls = h.calls ++ voice_leave_user u ∷ [] } else h

pub leave_voice-clients : (u : ℕ) (h : Hub) → (leave_voice u h).clients ≡ h.clients
leave_voice-clients u h = ground arith

-- A connection that has been replaced by another of the same user: its unregistration leaves the
-- map and the new connection as they are and closes the old channel, but it ends the user's voice
-- session all the same, which by then is that of the new connection.
pub unregister_stale :
    (p q : ℕ) (h : Hub)
    → lookup (h.store p).user_id h.clients ≡ some q
    → q ≢ p
    → h.has_voice ≡ true
    → (h' : Hub) × (unregister p h ≡ some h')
      × (h'.clients ≡ h.clients)
      × (h'.store q ≡ h.store q)
      × ((h'.store p).closed ≡ true)
      × (h'.calls ≡ h.calls ++ voice_leave_user (h.store p).user_id ∷ [])
unfolding unregister
unregister_stale p q h replaced apart voice = (
  record (put h p (close_send (h.store p))) {
    calls = h.calls ++ voice_leave_user (h.store p).user_id ∷ [];
  },
  ground arith,
  refl,
  ground arith,
  ground arith,
  refl,
)
