-- ===== src/Voice/Invariant.antt =====
-- The well-formed engine, and what keeps it well-formed.
use nexusroom.Base.{
  ℕ, ◌<◌, ◌≡◌, sym, ap, ◌∙◌, inl, inr, true, false, ◌&&◌, some, List, ◌==◌, Bool-cases,
  Option-cases, arith, All, All_imp,
}
use nexusroom.Base.Maps.{lookup, All-lookup}
use nexusroom.Voice.{Peer, Room, Engine, put, member, find_peer, peer_in}
use nexusroom.Voice.Rooms.{is_empty}
use nexusroom.Voice.Soft.{Evolves}

-- An entry of the map of the peers of room k: the peer at its address.
pub record IsLive (k : ℕ) (e : Engine) (entry : ℕ × ℕ) : Type 0 where
  pub user_id : (e.store entry.1).user_id ≡ entry.0
  pub room_id : (e.store entry.1).room_id ≡ k
  pub closed : (e.store entry.1).closed ≡ false
  pub made : entry.1 < e.count

-- The peers that the maps list are open and stand under their own room and user; the tracks are of
-- peers of the room; a listed peer sends only the room's tracks; nobody muted is shown as speaking;
-- and no room is empty.
pub record Inv (e : Engine) : Type 0 where
  pub listed : (k : ℕ) (r : Room) → lookup k e.rooms ≡ some r → All (IsLive k e) r.peers
  pub tracks :
      (k u t : ℕ) (r : Room)
      → lookup k e.rooms ≡ some r
      → lookup u r.tracks ≡ some t
      → (p : ℕ) × (lookup u r.peers ≡ some p)
  pub senders :
      (k u p s : ℕ) (r : Room)
      → lookup k e.rooms ≡ some r
      → lookup u r.peers ≡ some p
      → member s (e.store p).senders ≡ true
      → (t : ℕ) × (lookup s r.tracks ≡ some t)
  pub voices : (p : ℕ) → ((e.store p).speaking && (e.store p).muted) ≡ false
  pub nonempty : (k : ℕ) (r : Room) → lookup k e.rooms ≡ some r → is_empty r.peers ≡ false

alike-IsLive :
    (G : ℕ → ℕ → Type 0) (e e' : Engine) (k : ℕ) (entry : ℕ × ℕ)
    → Evolves G e e'
    → IsLive k e entry
    → IsLive k e' entry
alike-IsLive G e e' k entry v l =
    let a = v.same entry.1 in
    record {
      user_id = a.user_id ∙ l.user_id;
      room_id = a.room_id ∙ l.room_id;
      closed = a.closed ∙ l.closed;
      made = rw v.count l.made;
    }

-- What may be gained is a track of the room of the peer that gains it.
pub Evolves-Inv :
    (G : ℕ → ℕ → Type 0) (e e' : Engine)
    → Evolves G e e'
    → ((k u p s : ℕ) (r : Room)
        → lookup k e.rooms ≡ some r
        → lookup u r.peers ≡ some p
        → G p s
        → (t : ℕ) × (lookup s r.tracks ≡ some t))
    → Inv e
    → Inv e'
Evolves-Inv G e e' v may i =
    let at = λ (k : ℕ) (r : Room) (h : lookup k e'.rooms ≡ some r).
      ap (λ (m : List (ℕ × Room)). lookup k m) (sym v.rooms) ∙ h in
    record {
      listed = λ k r h.
          All_imp (IsLive k e) (IsLive k e') r.peers (λ entry l. alike-IsLive G e e' k entry v l)
            (i.listed k r (at k r h));
      tracks = λ k u t r h g. i.tracks k u t r (at k r h) g;
      senders = λ k u p s r h g m. elim (v.senders p s m) [
        | inl m' ↦ i.senders k u p s r (at k r h) g m'
        | inr new ↦ may k u p s r (at k r h) g new
      ];
      voices = λ p. rw ((v.same p).speaking, (v.same p).muted) (i.voices p);
      nonempty = λ k r h. i.nonempty k r (at k r h);
    }

pub find_peer-some :
    (k u p : ℕ) (e : Engine)
    → find_peer k u e ≡ some p
    → (r : Room) × (lookup k e.rooms ≡ some r) × (lookup u r.peers ≡ some p)
unfolding find_peer peer_in
find_peer-some k u p e f = elim (Option-cases (lookup k e.rooms)) [
  | inl h ↦ cc (rw h at f)
  | inr (r, h) ↦ (r, h, rw h at f)
]

pub find_peer-IsLive :
    (k u p : ℕ) (e : Engine) → Inv e → find_peer k u e ≡ some p → IsLive k e (u, p)
find_peer-IsLive k u p e i f =
    let (r, h, g) = find_peer-some k u p e f in
    All-lookup (IsLive k e) u p r.peers (i.listed k r h) g

-- A change of the voice of one peer.
pub put-Inv :
    (p : ℕ) (c : Peer) (e : Engine)
    → c.user_id ≡ (e.store p).user_id
    → c.room_id ≡ (e.store p).room_id
    → c.closed ≡ (e.store p).closed
    → c.senders ≡ (e.store p).senders
    → (c.speaking && c.muted) ≡ false
    → Inv e
    → Inv (put p c e)
put-Inv p c e same_user same_room same_closed same_senders quiet i =
    let at = λ (q : ℕ) (h : p == q ≡ true). let same : p ≡ q = ground arith in same in
    record {
      listed = λ k r h.
          All_imp (IsLive k e) (IsLive k (put p c e)) r.peers
            (λ entry l. elim (Bool-cases (p == entry.1)) [
              | inr other ↦ record {
                user_id = rw other l.user_id;
                room_id = rw other l.room_id;
                closed = rw other l.closed;
                made = l.made;
              }
              | inl here ↦
                  let same = at entry.1 here in
                  record {
                    user_id = rw here (same_user ∙ rw same l.user_id);
                    room_id = rw here (same_room ∙ rw same l.room_id);
                    closed = rw here (same_closed ∙ rw same l.closed);
                    made = l.made;
                  }
            ])
            (i.listed k r h);
      tracks = i.tracks;
      senders = λ k u q s r h g m. elim (Bool-cases (p == q)) [
        | inr other ↦ i.senders k u q s r h g (rw other at m)
        | inl here ↦
            let same = at q here in
            i.senders k u q s r h g (
              ap (λ (n : ℕ). member s (e.store n).senders) (sym same)
              ∙ ap (member s) (sym same_senders)
              ∙ (rw here at m))
      ];
      voices = λ q. elim (Bool-cases (p == q)) [
        | inr other ↦ rw other (i.voices q)
        | inl here ↦ rw here quiet
      ];
      nonempty = i.nonempty;
    }
