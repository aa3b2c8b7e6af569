-- ===== src/Ws/Safety.antt =====
-- Broadcasts that meet a full queue or a closed channel.
use Prim.Native.String.{String}
use nexusroom.Base.{
  ℕ, ◌≤◌, ◌≡◌, ◌≢◌, ◌∙◌, inl, inr, true, none, some, List, [], ◌∷◌, ◌++◌, length, arith,
  Option-cases,
}
use nexusroom.Ws.{Client, Payload, capacity, is_in_room, send_event_to_room}
use nexusroom.Ws.Hub.{Hub, deliver, deliver_all, broadcast_to_room, and_then}
use nexusroom.Ws.Delivery.{deliver-Keeps, deliver_all-Keeps, and_then-some}

rooms-is_in_room :
    (c d : Client) (room_id : ℕ) → d.rooms ≡ c.rooms → is_in_room d room_id ≡ is_in_room c room_id
unfolding is_in_room
rooms-is_in_room c d room_id e = rw e

module _ (room_id : ℕ) (event : String) (payload : Payload) (exclude : ℕ) (u p : ℕ)
    (other : u ≢ exclude) where
  deliver_closed :
      (store : ℕ → Client)
      → is_in_room (store p) room_id ≡ true
      → (store p).closed ≡ true
      → deliver room_id event payload exclude (u, p) store ≡ none
  unfolding deliver send_event_to_room
  deliver_closed store inside c = ground arith

  pub deliver_all_closed :
      (before after : List (ℕ × ℕ)) (store : ℕ → Client)
      → is_in_room (store p) room_id ≡ true
      → (store p).closed ≡ true
      → deliver_all room_id event payload exclude (before ++ (u, p) ∷ after) store ≡ none
  unfolding deliver_all
  deliver_all_closed [] after store inside c = rw (deliver_closed store inside c)
  deliver_all_closed (entry ∷ before) after store inside c =
      elim (Option-cases (deliver room_id event payload exclude entry store)) [
        | inl e ↦ rw e
        | inr (mid, e) ↦
            let k = deliver-Keeps room_id event payload exclude entry store mid e in
            rw e (
              deliver_all_closed before after mid
                (rooms-is_in_room (store p) (mid p) room_id (k.rooms p) ∙ inside) (k.closed p c))
      ]

  deliver_full :
      (store mid : ℕ → Client)
      → is_in_room (store p) room_id ≡ true
      → capacity ≤ length (store p).queue
      → deliver room_id event payload exclude (u, p) store ≡ some mid
      → (mid p).closed ≡ true
  unfolding deliver send_event_to_room
  deliver_full store mid inside full e = ground arith

  -- A broadcast that meets a full queue closes it.
  pub deliver_all_full :
      (before after : List (ℕ × ℕ)) (store store' : ℕ → Client)
      → is_in_room (store p) room_id ≡ true
      → capacity ≤ length (store p).queue
      → deliver_all room_id event payload exclude (before ++ (u, p) ∷ after) store ≡ some store'
      → (store' p).closed ≡ true
  unfolding deliver_all
  deliver_all_full [] after store store' inside full e =
      let (mid, first, rest) =
        and_then-some (deliver room_id event payload exclude (u, p) store) _ store' e in
      (deliver_all-Keeps room_id event payload exclude after mid store' rest).closed p
        (deliver_full store mid inside full first)
  deliver_all_full (entry ∷ before) after store store' inside full e =
      let (mid, first, rest) =
        and_then-some (deliver room_id event payload exclude entry store) _ store' e in
      let k = deliver-Keeps room_id event payload exclude entry store mid first in
      deliver_all_full before after mid store'
        (rooms-is_in_room (store p) (mid p) room_id (k.rooms p) ∙ inside) (omega (arith, k.grows p))
        rest

module _ (room_id u p : ℕ) (event event' : String) (payload payload' : Payload) (e₁ e₂ : ℕ) where
  -- Let a connection that the hub lists be in a room with a full queue (256 messages), and let two
  -- broadcasts to that room come one after the other, neither of which excludes its user, before
  -- the connection is unregistered. Then the hub's loop panics: the first broadcast closes the
  -- channel and leaves the entry in the map, and the second sends on the closed channel.
  pub overflow_panics :
      (before after : List (ℕ × ℕ)) (h : Hub)
      → h.clients ≡ before ++ (u, p) ∷ after
      → is_in_room (h.store p) room_id ≡ true
      → capacity ≤ length (h.store p).queue
      → u ≢ e₁
      → u ≢ e₂
      → and_then
          (broadcast_to_room room_id event payload e₁ h)
          (broadcast_to_room room_id event' payload' e₂)
        ≡ none
  unfolding broadcast_to_room
  overflow_panics before after h listed inside full o₁ o₂ =
      elim (Option-cases (deliver_all room_id event payload e₁ h.clients h.store)) [
        | inl e ↦ rw e
        | inr (store', e) ↦
            let e' = rw listed at e in
            let k = deliver_all-Keeps room_id event payload e₁ h.clients h.store store' e in
            rw (
              e,
              listed,
              deliver_all_closed room_id event' payload' e₂ u p o₂ before after store'
                  (rooms-is_in_room (h.store p) (store' p) room_id (k.rooms p) ∙ inside)
                  (deliver_all_full room_id event payload e₁ u p o₁ before after h.store store'
                    inside full e'),
            )
      ]
