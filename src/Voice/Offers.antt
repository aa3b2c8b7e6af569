-- ===== src/Voice/Offers.antt =====
-- `HandleOffer`: who is in the rooms after an offer of a new user that fails.
use Prim.Native.String.{String}
use text.Mathlib.Text.{◌==◌ as str_eq}
use nexusroom.Base.{
  ℕ, ◌≡◌, refl, sym, ap, ◌∙◌, inl, inr, true, false, not, ◌&&◌, Option, none, some, List, ◌==◌,
  if◌then◌else◌, Bool-cases, Option-cases, arith, All_imp, ==-refl,
}
use nexusroom.Base.Maps.{lookup, insert, lookup-insert, lookup-all}
use nexusroom.Voice.{Room, Engine, Rtc, find_peer, peer_in, add_existing_tracks, add_tracks_of}
use nexusroom.Voice.Rooms.{room_or_new, join, leave}
use nexusroom.Voice.Methods.{ensure_peer, answered, offered, handle_offer}
use nexusroom.Voice.Soft.{add_tracks-Evolves}
use nexusroom.Voice.Departed.{find_peer-leave}

peer_in-room_or_new : (v : ℕ) (r : Option Room) → lookup v (room_or_new r).peers ≡ peer_in r v
unfolding peer_in lookup
peer_in-room_or_new v none = refl
peer_in-room_or_new v (some r) = refl

pub find_peer-join :
    (k u j v : ℕ) (e : Engine)
    → find_peer j v (join k u e) ≡ (if (k == j) && (u == v) then some e.count else find_peer j v e)
unfolding find_peer join peer_in
find_peer-join k u j v e =
    let r = room_or_new (lookup k e.rooms) in
    let new : Room = record r { peers = insert u e.count r.peers } in
    elim (Bool-cases (k == j)) [
      | inr other ↦ rw (lookup-insert k j new e.rooms, other) refl
      | inl here ↦
          let same : k ≡ j = ground arith in
          rw (lookup-insert k j new e.rooms, here, lookup-insert u v e.count r.peers)
            (elim (Bool-cases (u == v)) [
              | inl there ↦ rw there refl
              | inr other ↦ rw other (
                  peer_in-room_or_new v (lookup k e.rooms)
                  ∙ ap (λ (n : ℕ). peer_in (lookup n e.rooms) v) same)
            ])
    ]

same_rooms : (j v : ℕ) (e e' : Engine) → e'.rooms ≡ e.rooms → find_peer j v e' ≡ find_peer j v e
unfolding find_peer
same_rooms j v e e' h = ap (λ (m : List (ℕ × Room)). peer_in (lookup j m) v) h

add_existing_rooms : (x : Rtc) (p : ℕ) (e : Engine) → (add_existing_tracks x p e).rooms ≡ e.rooms
unfolding add_existing_tracks add_tracks_of
add_existing_rooms x p e = elim (Option-cases (lookup (e.store p).room_id e.rooms)) [
  | inl h ↦ rw h refl
  | inr (r, h) ↦
      let Any : ℕ → ℕ → Type 0 = λ q s. Unit in
      rw h
        (add_tracks-Evolves Any x r.tracks (e.store p).user_id p e (
          All_imp (λ (y : ℕ × ℕ). (t : ℕ) × (lookup y.0 r.tracks ≡ some t)) (λ (y : ℕ × ℕ). Unit)
            r.tracks (λ y h. tt) (lookup-all r.tracks))).rooms
]

module _ (x : Rtc) (k u : ℕ) (e : Engine) where
  -- What an offer comes to that meets no peer.
  fresh_offer :
      (sdp : String)
      → str_eq sdp "" ≡ false
      → find_peer k u e ≡ none
      → x.new_connection ≡ true
      → handle_offer x k u sdp e ≡ (
          if not x.set_remote
          then (false, leave x k u (join k u e))
          else answered x k u (add_existing_tracks x e.count (join k u e)))
  unfolding handle_offer ensure_peer offered join
  fresh_offer sdp s f c = rw (ensure_peer, s, f, c, ==-refl e.count) refl

  failed_answer : (e' : Engine) → (answered x k u e').0 ≡ false → answered x k u e' ≡ (false, e')
  unfolding answered
  failed_answer e' h = elim (Bool-cases x.create_answer) [
    | inr a ↦ rw a refl
    | inl a ↦ elim (Bool-cases x.set_local) [ inr b ↦ rw (a, b) refl | inl b ↦ cc (rw (a, b) at h) ]
  ]

  back_out :
      (j v : ℕ)
      → find_peer k u e ≡ none
      → find_peer j v (leave x k u (join k u e)) ≡ find_peer j v e
  back_out j v f =
      rw (find_peer-leave x k u j v (join k u e), find_peer-join k u j v e)
        (elim (Bool-cases ((k == j) && (u == v))) [
          | inr other ↦ rw other refl
          | inl both ↦
              let room : k ≡ j = ground (arith, both) in
              let user : u ≡ v = ground (arith, both) in rw (both) (sym (rw (room, user) at f))
        ])

  -- If an offer of a user who is not in the room fails, the look-ups find what they found before,
  -- but for this: if the failure comes after the remote description was set, the user is in the
  -- room as a new peer.
  pub failed_offer_lem :
      (sdp : String) (j v : ℕ)
      → find_peer k u e ≡ none
      → (handle_offer x k u sdp e).0 ≡ false
      → find_peer j v (handle_offer x k u sdp e).1 ≡ (
          if (not (str_eq sdp "") && (x.new_connection && x.set_remote)) && ((k == j) && (u == v))
          then some e.count
          else find_peer j v e)
  unfolding handle_offer ensure_peer offered
  failed_offer_lem sdp j v f failed = elim (Bool-cases (str_eq sdp "")) [
    | inl s ↦ rw s refl
    | inr s ↦ elim (Bool-cases x.new_connection) [
      | inr c ↦ rw (ensure_peer, s, f, c) refl
      | inl c ↦ elim (Bool-cases x.set_remote) [
        | inr r ↦ rw (fresh_offer sdp s f c, s, c, r) (back_out j v f)
        | inl r ↦
            let joined = add_existing_tracks x e.count (join k u e) in
            let is : handle_offer x k u sdp e ≡ answered x k u joined =
              fresh_offer sdp s f c ∙ rw r refl in
            rw (is, failed_answer joined (rw is at failed), s, c, r)
              (same_rooms j v (join k u e) joined (add_existing_rooms x e.count (join k u e))
                ∙ find_peer-join k u j v e)
      ]
    ]
  ]
