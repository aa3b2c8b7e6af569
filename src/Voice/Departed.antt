-- ===== src/Voice/Departed.antt =====
-- `Leave`: the engine stays well-formed, and the user is not in the room that was left.
use nexusroom.Base.{
  ℕ, ◌≡◌, ◌≢◌, refl, sym, ap, ◌∙◌, ◌⊎◌, inl, inr, true, false, ◌&&◌, none, some, List, [], ◌∷◌,
  ◌==◌, if◌then◌else◌, Bool-cases, Option-cases, arith, All, All_imp, All_both,
}
use nexusroom.Base.Maps.{lookup, erase, lookup-erase, All-erase, All-lookup, erase-ne}
use nexusroom.Voice.{Room, Engine, Rtc, member, find_peer, peer_in}
use nexusroom.Voice.Rooms.{is_empty, without, leave}
use nexusroom.Voice.Invariant.{IsLive, Inv}
use nexusroom.Voice.Leaving.{Left, leave_lem, leave_absent, lookup-put_room}

pub erase-some :
    {V : Type 0} (u v : ℕ) (w : V) (m : List (ℕ × V))
    → lookup v (erase u m) ≡ some w
    → (u == v ≡ false) × (lookup v m ≡ some w)
erase-some u v w m h = elim (Bool-cases (u == v)) [
  | inl e ↦ cc (sym (lookup-erase u v m) ∙ h, rw e at (lookup-erase u v m))
  | inr e ↦ (e, (rw e at (sym (lookup-erase u v m))) ∙ h)
]

lookup_erased :
    {V : Type 0} (u v : ℕ) (w : V) (m : List (ℕ × V))
    → u == v ≡ false
    → lookup v m ≡ some w
    → lookup v (erase u m) ≡ some w
lookup_erased u v w m e h = rw (lookup-erase u v m, e) h

module _ (k u p : ℕ) (r : Room) (e e' : Engine) (left : Left k u p r e e') where
  -- A room that is there afterwards.
  pub room_after :
      (j : ℕ) (r' : Room)
      → lookup j e'.rooms ≡ some r'
      → ((k ≡ j) × (r' ≡ without u r) × (is_empty r'.peers ≡ false))
        ⊎ ((k == j ≡ false) × (lookup j e.rooms ≡ some r'))
  room_after j r' h =
      let after =
        sym (lookup-put_room k j (without u r) e.rooms)
        ∙ ap (λ (m : List (ℕ × Room)). lookup j m) (sym left.rooms)
        ∙ h in
      elim (Bool-cases (k == j)) [
        | inr other ↦ inr (other, rw other at after)
        | inl here ↦ elim (Bool-cases (is_empty (without u r).peers)) [
          | inl gone ↦ cc (rw (here, gone) at after)
          | inr stays ↦
              let same : without u r ≡ r' = ground (arith, (rw (here, stays) at after)) in
              inl (ground arith, sym same, ap (λ (r : Room). is_empty r.peers) (sym same) ∙ stays)
        ]
      ]

  moved-IsLive : (j : ℕ) (entry : ℕ × ℕ) → entry.1 ≢ p → IsLive j e entry → IsLive j e' entry
  moved-IsLive j entry apart l =
      let a = left.others entry.1 apart in
      record {
        user_id = a.user_id ∙ l.user_id;
        room_id = a.room_id ∙ l.room_id;
        closed = a.closed ∙ l.closed;
        made = rw left.count l.made;
      }

  module _ (i : Inv e) (h : lookup k e.rooms ≡ some r) (g : lookup u r.peers ≡ some p) where
    here_lives : IsLive k e (u, p)
    here_lives = All-lookup (IsLive k e) u p r.peers (i.listed k r h) g

    stays-IsLive : All (IsLive k e') (without u r).peers
    unfolding without
    stays-IsLive =
        All_both (IsLive k e) (λ (x : ℕ × ℕ). x.0 == u ≡ false) (IsLive k e') (erase u r.peers)
          (λ x l ne.
            moved-IsLive k x
              (λ same.
                let user : x.0 ≡ u =
                  sym l.user_id ∙ ap (λ (n : ℕ). (e.store n).user_id) same ∙ here_lives.user_id in
                ground (arith, user, ne))
              l)
          (All-erase (IsLive k e) u r.peers (i.listed k r h)) (erase-ne u r.peers)

    elsewhere-IsLive :
        (j : ℕ) (r' : Room)
        → k == j ≡ false
        → lookup j e.rooms ≡ some r'
        → All (IsLive j e') r'.peers
    elsewhere-IsLive j r' other h' =
        All_imp (IsLive j e) (IsLive j e') r'.peers
          (λ x l.
            moved-IsLive j x
              (λ same.
                let room : j ≡ k =
                  sym l.room_id ∙ ap (λ (n : ℕ). (e.store n).room_id) same ∙ here_lives.room_id in
                ground (arith, room, other))
              l)
          (i.listed j r' h')

    tracks_after :
        (v t : ℕ)
        → lookup v (without u r).tracks ≡ some t
        → (q : ℕ) × (lookup v (without u r).peers ≡ some q)
    unfolding without
    tracks_after v t f =
        let (apart, f') = erase-some u v t r.tracks f in
        let (q, f'') = i.tracks k v t r h f' in (q, lookup_erased u v q r.peers apart f'')

    senders_after :
        (v q s : ℕ)
        → lookup v (without u r).peers ≡ some q
        → member s (e'.store q).senders ≡ true
        → (t : ℕ) × (lookup s (without u r).tracks ≡ some t)
    unfolding without
    senders_after v q s f m =
        let (apart, f') = erase-some u v q r.peers f in
        let (t, f'') = i.senders k v q s r h f' (left.senders q s m) in
        let clean : member u (e'.store q).senders ≡ false =
          All-lookup (λ (x : ℕ × ℕ). member u (e'.store x.1).senders ≡ false) v q (erase u r.peers)
            left.clean f in
        let differs : u == s ≡ false = elim (Bool-cases (u == s)) [
          | inr d ↦ d
          | inl d ↦
              let same : u ≡ s = ground arith in
              cc (ap (λ (n : ℕ). member n (e'.store q).senders) same, clean, m)
        ] in
        (t, lookup_erased u s t r.tracks differs f'')

    pub left-Inv : Inv e'
    left-Inv = record {
      listed = λ j r' f. elim (room_after j r' f) [
        | inl (same, is, _) ↦ rw (is, ← same) stays-IsLive
        | inr (other, f') ↦ elsewhere-IsLive j r' other f'
      ];
      tracks = λ j v t r' f l. elim (room_after j r' f) [
        | inl (_, is, _) ↦ rw is (tracks_after v t (rw is at l))
        | inr (_, f') ↦ i.tracks j v t r' f' l
      ];
      senders = λ j v q s r' f l m. elim (room_after j r' f) [
        | inl (_, is, _) ↦ rw is (senders_after v q s (rw is at l) m)
        | inr (_, f') ↦ i.senders j v q s r' f' l (left.senders q s m)
      ];
      voices = λ q. rw (left.speaking q, left.muted q) (i.voices q);
      nonempty = λ j r' f. elim (room_after j r' f) [
        | inl (_, _, some_left) ↦ some_left
        | inr (_, f') ↦ i.nonempty j r' f'
      ];
    }

pub leave-Inv : (x : Rtc) (k u : ℕ) (e : Engine) → Inv e → Inv (leave x k u e)
leave-Inv x k u e i = elim (Option-cases (find_peer k u e)) [
  | inl f ↦ rw (leave_absent x k u e f) i
  | inr (p, f) ↦
      let (r, h, g, left) = leave_lem x k u p e f in left-Inv k u p r e (leave x k u e) left i h g
]

kept_list :
    (v : ℕ) (ps ts : List (ℕ × ℕ))
    → peer_in (if is_empty ps then none else some (record { peers = ps; tracks = ts })) v
      ≡ lookup v ps
unfolding peer_in lookup
kept_list v [] ts = refl
kept_list v (x ∷ ps) ts = refl

kept-lookup :
    (v : ℕ) (q : Room) → peer_in (if is_empty q.peers then none else some q) v ≡ lookup v q.peers
kept-lookup v q = kept_list v q.peers q.tracks

present_gone :
    (k u j v p : ℕ) (r : Room) (e e' : Engine)
    → lookup k e.rooms ≡ some r
    → Left k u p r e e'
    → find_peer j v e' ≡ (if (k == j) && (u == v) then none else find_peer j v e)
unfolding find_peer without peer_in
present_gone k u j v p r e e' h left =
    let after =
      ap (λ (m : List (ℕ × Room)). lookup j m) left.rooms
      ∙ lookup-put_room k j (without u r) e.rooms in
    elim (Bool-cases (k == j)) [
      | inr other ↦ rw (after, other) refl
      | inl here ↦
          let same : k ≡ j = ground arith in
          rw (after, here, kept-lookup v (without u r), lookup-erase u v r.peers, ← same, h) refl
    ]

-- Leave removes the user from the map of that room and no entry besides, whether or not the room
-- stays: a look-up finds nobody for that user in that room, and otherwise what it found before.
pub find_peer-leave :
    (x : Rtc) (k u j v : ℕ) (e : Engine)
    → find_peer j v (leave x k u e) ≡ (if (k == j) && (u == v) then none else find_peer j v e)
find_peer-leave x k u j v e = elim (Option-cases (find_peer k u e)) [
  | inr (p, f) ↦
      let (r, h, g, left) = leave_lem x k u p e f in
      present_gone k u j v p r e (leave x k u e) h left
  | inl f ↦ rw (leave_absent x k u e f) (elim (Bool-cases (k == j)) [
    | inr other ↦ rw other refl
    | inl here ↦ elim (Bool-cases (u == v)) [
      | inr other ↦ rw (here, other) refl
      | inl there ↦
          let same : k ≡ j = ground arith in
          let same' : u ≡ v = ground arith in rw (here, there) (rw (same, same') at f)
    ]
  ])
]
