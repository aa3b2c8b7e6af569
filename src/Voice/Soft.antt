-- ===== src/Voice/Soft.antt =====
-- What the loops over the peers of a room leave alone: the maps, and each peer but for its senders.
use nexusroom.Base.{
  ℕ, ◌≡◌, refl, subst, ◌∙◌, ◌⊎◌, inl, inr, true, not, ◌||◌, Option, none, some, List, [], ◌∷◌, ◌==◌,
  if_lem, any, Bool-cases, arith, All,
}
use nexusroom.Base.Maps.{lookup}
use nexusroom.Voice.{
  Peer, Room, Participant, Engine, Signal, participants, offer, Rtc, put, emit, member,
  broadcast_in, tell_all, broadcast_participants, renegotiate, add_track, add_tracks,
}
use nexusroom.Voice.Methods.{send_track}

pub record Alike (c c' : Peer) : Type 0 where
  pub user_id : c'.user_id ≡ c.user_id
  pub room_id : c'.room_id ≡ c.room_id
  pub muted : c'.muted ≡ c.muted
  pub speaking : c'.speaking ≡ c.speaking
  pub closed : c'.closed ≡ c.closed

Alike-refl : (c : Peer) → Alike c c
Alike-refl c = record {
  user_id = refl;
  room_id = refl;
  muted = refl;
  speaking = refl;
  closed = refl;
}

Alike-trans : {a b c : Peer} → Alike a b → Alike b c → Alike a c
Alike-trans h k = record {
  user_id = k.user_id ∙ h.user_id;
  room_id = k.room_id ∙ h.room_id;
  muted = k.muted ∙ h.muted;
  speaking = k.speaking ∙ h.speaking;
  closed = k.closed ∙ h.closed;
}

-- The peer at q has gained the sender s only where G q s holds.
pub record Evolves (G : ℕ → ℕ → Type 0) (e e' : Engine) : Type 0 where
  pub rooms : e'.rooms ≡ e.rooms
  pub count : e'.count ≡ e.count
  pub same : (q : ℕ) → Alike (e.store q) (e'.store q)
  pub senders :
      (q s : ℕ)
      → member s (e'.store q).senders ≡ true
      → (member s (e.store q).senders ≡ true) ⊎ G q s

abbrev pub Never : ℕ → ℕ → Type 0
Never q s = ⊥

module _ (G : ℕ → ℕ → Type 0) where
  pub still : (e : Engine) → Evolves G e e
  still e = record {
    rooms = refl;
    count = refl;
    same = λ q. Alike-refl (e.store q);
    senders = λ q s m. inl m;
  }

  pub Evolves-trans : {a b c : Engine} → Evolves G a b → Evolves G b c → Evolves G a c
  Evolves-trans h k = record {
    rooms = k.rooms ∙ h.rooms;
    count = k.count ∙ h.count;
    same = λ q. Alike-trans (h.same q) (k.same q);
    senders = λ q s m. elim (k.senders q s m) [ inl m' ↦ h.senders q s m' | inr g ↦ inr g ];
  }

  pub emit-Evolves : (s : Signal) (e : Engine) → Evolves G e (emit s e)
  emit-Evolves s e = record {
    rooms = refl;
    count = refl;
    same = λ q. Alike-refl (e.store q);
    senders = λ q s' m. inl m;
  }

  pub put-Evolves :
      (p : ℕ) (c : Peer) (e : Engine)
      → Alike (e.store p) c
      → ((s : ℕ) → member s c.senders ≡ true → (member s (e.store p).senders ≡ true) ⊎ G p s)
      → Evolves G e (put p c e)
  put-Evolves p c e a new = record {
    rooms = refl;
    count = refl;
    same = λ q. elim (Bool-cases (p == q)) [
      | inl here ↦
          let same : p ≡ q = ground arith in rw here (subst (λ (k : ℕ). Alike (e.store k) c) same a)
      | inr there ↦ rw there (Alike-refl (e.store q))
    ];
    senders = λ q s m. elim (Bool-cases (p == q)) [
      | inl here ↦
          let same : p ≡ q = ground arith in
          subst (λ (k : ℕ). (member s (e.store k).senders ≡ true) ⊎ G k s) same
            (new s (rw here at m))
      | inr there ↦ inl (rw there at m)
    ];
  }

  pub renegotiate-Evolves : (x : Rtc) (p : ℕ) (e : Engine) → Evolves G e (renegotiate x p e)
  unfolding renegotiate
  renegotiate-Evolves x p e =
      let c = e.store p in
      let waiting = put p (record c { renegotiate_pending = true }) e in
      if_lem (Evolves G e) c.closed e _ (still e) (
        if_lem (Evolves G e) (not (x.is_stable p)) waiting _
          (put-Evolves p (record c { renegotiate_pending = true }) e
            (record {
              user_id = refl;
              room_id = refl;
              muted = refl;
              speaking = refl;
              closed = refl;
            })
            (λ s m. inl m))
          (if_lem (Evolves G e) (x.makes_offer p) (emit (offer c.user_id c.room_id) e) e
            (emit-Evolves (offer c.user_id c.room_id) e) (still e)))

  pub tell_all-Evolves :
      (room_id : ℕ) (all : List Participant) (ps : List (ℕ × ℕ)) (e : Engine)
      → Evolves G e (tell_all room_id all ps e)
  unfolding tell_all
  tell_all-Evolves room_id all [] e = still e
  tell_all-Evolves room_id all ((v, q) ∷ ps) e =
      let s = participants (e.store q).user_id room_id all in
      Evolves-trans (emit-Evolves s e) (tell_all-Evolves room_id all ps (emit s e))

  broadcast_in-Evolves :
      (room_id : ℕ) (r : Option Room) (e : Engine) → Evolves G e (broadcast_in room_id r e)
  unfolding broadcast_in
  broadcast_in-Evolves room_id none e = still e
  broadcast_in-Evolves room_id (some r) e = tell_all-Evolves room_id _ r.peers e

  pub broadcast-Evolves :
      (room_id : ℕ) (e : Engine) → Evolves G e (broadcast_participants room_id e)
  unfolding broadcast_participants
  broadcast-Evolves room_id e = broadcast_in-Evolves room_id (lookup room_id e.rooms) e

  pub add_track-Evolves :
      (x : Rtc) (publisher p : ℕ) (e : Engine)
      → G p publisher
      → Evolves G e (add_track x publisher p e)
  unfolding add_track member any
  add_track-Evolves x publisher p e g =
      let c = e.store p in
      let c' : Peer = record c { senders = publisher ∷ c.senders } in
      if_lem (Evolves G e) (c.closed || member publisher c.senders) e _ (still e) (
        if_lem (Evolves G e) (x.add_track p publisher) (put p c' e) e
          (put-Evolves p c' e
            (record {
              user_id = refl;
              room_id = refl;
              muted = refl;
              speaking = refl;
              closed = refl;
            })
            (λ s m. elim (Bool-cases (publisher == s)) [
              | inl same ↦ let e' : publisher ≡ s = ground arith in inr (rw (← e') g)
              | inr other ↦ inl (rw other at m)
            ]))
          (still e))

  pub send_track-Evolves :
      (x : Rtc) (publisher : ℕ) (ps : List (ℕ × ℕ)) (e : Engine)
      → All (λ (y : ℕ × ℕ). G y.1 publisher) ps
      → Evolves G e (send_track x publisher ps e)
  unfolding send_track
  send_track-Evolves x publisher [] e g = still e
  send_track-Evolves x publisher ((v, q) ∷ ps) e (g, gs) =
      let e₁ = add_track x publisher q e in
      Evolves-trans
        (if_lem (Evolves G e) (v == publisher) e (renegotiate x q e₁) (still e)
          (Evolves-trans (add_track-Evolves x publisher q e g) (renegotiate-Evolves x q e₁)))
        (send_track-Evolves x publisher ps _ gs)

  pub add_tracks-Evolves :
      (x : Rtc) (ts : List (ℕ × ℕ)) (user_id p : ℕ) (e : Engine)
      → All (λ (y : ℕ × ℕ). G p y.0) ts
      → Evolves G e (add_tracks x ts user_id p e)
  unfolding add_tracks
  add_tracks-Evolves x [] user_id p e g = still e
  add_tracks-Evolves x ((s, t) ∷ ts) user_id p e (g, gs) =
      Evolves-trans
        (if_lem (Evolves G e) (s == user_id) e (add_track x s p e) (still e)
          (add_track-Evolves x s p e g))
        (add_tracks-Evolves x ts user_id p _ gs)
