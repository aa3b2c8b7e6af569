-- ===== src/Wg/Registration.antt =====
-- Registrations and unregistrations, one after the other.
use mathlib.Core.List.{map-append}
use nexusroom.Base.{
  ℕ, ◌+◌, ◌≤◌, ◌≡◌, refl, sym, ap, subst, ◌∙◌, inl, inr, Bool, true, false, Option, none, some,
  List, [], ◌∷◌, ◌++◌, map, ◌==◌, if◌then◌else◌, any, count, filter, count-append, count-filter-le,
  arith, Bool-cases, Option-cases, ==-refl,
}
use nexusroom.Orm.{Table, Found, found, not_found, failed}
use nexusroom.Wg.{
  Text, text_eq, before_slash, WgPeer, with_peer_id, same_peer, Config, DeviceCall, of_user,
  Coordinator, allocate_ip, created, create_peer, rekeyed, renew_peer, register_found,
  register_peer, unregister_peer,
}
use nexusroom.Wg.Address.{text_eq→eq, text_eq_refl}
use nexusroom.Wg.Allocation.{holds, Inv, count-any, allocate_ip-IsFree}

module _ (gateway : Text) (row : WgPeer) (rs : List WgPeer) (v : Inv gateway rs) where
  add-Inv :
      count (holds row.room_id (before_slash row.assigned_ip)) rs ≡ 0
      → text_eq (before_slash row.assigned_ip) gateway ≡ false
      → any (same_peer row) rs ≡ false
      → Inv gateway (rs ++ row ∷ [])
  unfolding count
  add-Inv unused not_gateway fresh = record {
    hosts = λ room_id host.
        rw (count-append (holds room_id host) rs (row ∷ []))
          (elim (Bool-cases (holds room_id host row)) [
            | inr e ↦ rw e (omega (arith, v.hosts room_id host))
            | inl e ↦
                let same_room : row.room_id ≡ room_id = ground arith in
                let same_host : host ≡ before_slash row.assigned_ip =
                  text_eq→eq host (before_slash row.assigned_ip) (ground arith) in
                rw (e, same_host, ← same_room) (omega arith)
          ]);
    no_gateway = λ room_id.
        rw (count-append (holds room_id gateway) rs (row ∷ []))
          (elim (Bool-cases (text_eq gateway (before_slash row.assigned_ip))) [
            | inr e ↦ ground (arith, v.no_gateway room_id)
            | inl e ↦
                let same : gateway ≡ before_slash row.assigned_ip = text_eq→eq gateway _ e in
                cc (rw same at not_gateway, text_eq_refl (before_slash row.assigned_ip))
          ]);
    ids = λ r. rw (count-append (same_peer r) rs (row ∷ [])) (elim (Bool-cases (same_peer r row)) [
      | inr e ↦ rw e (omega (arith, v.ids r))
      | inl e ↦
          let same : r.id ≡ row.id = ground arith in
          let none_yet : count (same_peer r) rs ≡ 0 =
            ap (λ (n : ℕ). count (λ (q : WgPeer). n == q.id) rs) same
            ∙ count-any (same_peer row) rs fresh in
          rw e (omega arith)
    ]);
  }

remove-Inv :
    (gateway : Text) (p : WgPeer → Bool) (rs : List WgPeer)
    → Inv gateway rs
    → Inv gateway (filter p rs)
remove-Inv gateway p rs v = record {
  hosts = λ room_id host.
      omega (arith, count-filter-le (holds room_id host) p rs, v.hosts room_id host);
  no_gateway =
      λ room_id. omega (arith, count-filter-le (holds room_id gateway) p rs, v.no_gateway room_id);
  ids = λ r. omega (arith, count-filter-le (same_peer r) p rs, v.ids r);
}

-- Saving a row changes no other row.
map-absent :
    (row new : WgPeer) (rs : List WgPeer)
    → count (same_peer row) rs ≡ 0
    → map (λ r. if r.id == row.id then new else r) rs ≡ rs
unfolding count
map-absent row new [] e = refl
map-absent row new (r ∷ rs) e = ground (arith, map-absent row new rs)

save_lem :
    (row : WgPeer) (key : Text) (before after : List WgPeer)
    → count (same_peer row) (before ++ row ∷ after) ≤ 1
    → map
        (λ r. if r.id == row.id then record row { public_key = key } else r)
        (before ++ row ∷ after)
      ≡ before ++ record row { public_key = key } ∷ after
unfolding count
save_lem row key before after one =
    let new : WgPeer = record row { public_key = key } in
    let parts = count-append (same_peer row) before (row ∷ after) in
    map-append _ before (row ∷ after)
    ∙ rw (
      ==-refl row.id,
      map-absent row new before (ground arith),
      map-absent row new after (ground arith),
    )

save-Inv :
    (gateway : Text) (row : WgPeer) (key : Text) (before after : List WgPeer)
    → Inv gateway (before ++ row ∷ after)
    → Inv gateway (before ++ record row { public_key = key } ∷ after)
unfolding count
save-Inv gateway row key before after v =
    let new : WgPeer = record row { public_key = key } in
    let same = λ (p : WgPeer → Bool) (e : p new ≡ p row).
      count-append p before (new ∷ after)
      ∙ ap (λ (b : Bool). count p before + ((if b then 1 else 0) + count p after)) e
      ∙ sym (count-append p before (row ∷ after)) in
    record {
      hosts = λ room_id host. omega (arith, same (holds room_id host) refl, v.hosts room_id host);
      no_gateway =
          λ room_id. omega (arith, same (holds room_id gateway) refl, v.no_gateway room_id);
      ids = λ r. omega (arith, same (same_peer r) refl, v.ids r);
    }

module _ (P : Table WgPeer with_peer_id same_peer) (cfg : Config) where
  open P use {
    State, rows, create, create_ok, create_failed, delete_where, delete_ok, delete_failed,
    update_where, update_ok, update_failed, first_where, first_found,
  }

  created-peers :
      (key ip : Text) (device : List DeviceCall) (r : Option WgPeer × State)
      → (created P cfg key ip device r).1.peers ≡ r.1
  created-peers key ip device (none, s) = refl
  created-peers key ip device (some row, s) = refl

  create_peer-Inv :
      (room_id user_id : ℕ) (key : Text) (ip : Option Text) (c : Coordinator P cfg)
      → allocate_ip P cfg room_id c.peers ≡ ip
      → Inv cfg.gateway_ip (rows c.peers)
      → Inv cfg.gateway_ip (rows (create_peer P cfg room_id user_id key ip c).1.peers)
  unfolding create_peer
  create_peer-Inv room_id user_id key none c e v = v
  create_peer-Inv room_id user_id key (some ip) c e v =
      let new : WgPeer = record {
        id = 0;
        room_id = room_id;
        user_id = user_id;
        public_key = key;
        assigned_ip = ip;
      } in
      let free = allocate_ip-IsFree P cfg room_id c.peers ip e in
      rw (created-peers key ip c.device (create new c.peers))
        (elim (Option-cases (create new c.peers).0) [
          | inl f ↦ rw (create_failed new c.peers f) v
          | inr (row, f) ↦
              let (n, filled, fresh, kept) = create_ok new c.peers row f in
              rw (kept, filled)
                (add-Inv cfg.gateway_ip (with_peer_id n new) (rows c.peers) v free.unused
                  free.not_gateway (rw filled at fresh))
        ])

  rekeyed-peers :
      (row : WgPeer) (key : Text) (device : List DeviceCall) (r : Bool × State)
      → (rekeyed P cfg row key device r).1.peers ≡ r.1
  rekeyed-peers row key device (true, s) = refl
  rekeyed-peers row key device (false, s) = refl

  renew_peer-Inv :
      (row : WgPeer) (key : Text) (c : Coordinator P cfg) (before after : List WgPeer)
      → rows c.peers ≡ before ++ row ∷ after
      → Inv cfg.gateway_ip (rows c.peers)
      → Inv cfg.gateway_ip (rows (renew_peer P cfg row key c).1.peers)
  unfolding renew_peer
  renew_peer-Inv row key c before after split v = elim (Bool-cases (text_eq row.public_key key)) [
    | inl same ↦ rw same v
    | inr other ↦
        let test = λ (r : WgPeer). r.id == row.id in
        let change = λ (r : WgPeer). record row { public_key = key } in
        rw (other, rekeyed-peers row key c.device)
          (elim (Bool-cases (update_where test change c.peers).0) [
            | inr f ↦ rw (update_failed test change c.peers f) v
            | inl f ↦
                let w = subst (Inv cfg.gateway_ip) split v in
                rw
                  (
                    update_ok test change c.peers f,
                    split,
                    save_lem row key before after (w.ids row),
                  )
                  (save-Inv cfg.gateway_ip row key before after w)
          ])
  ]

  register_found-Inv :
      (room_id user_id : ℕ) (key : Text) (x : Found WgPeer) (c : Coordinator P cfg)
      → first_where (of_user room_id user_id) c.peers ≡ x
      → Inv cfg.gateway_ip (rows c.peers)
      → Inv cfg.gateway_ip (rows (register_found P cfg room_id user_id key x c).1.peers)
  register_found-Inv room_id user_id key (found row) c e v =
      let (before, after, split, _) = first_found (of_user room_id user_id) c.peers row e in
      renew_peer-Inv row key c before after split v
  register_found-Inv room_id user_id key not_found c e v =
      create_peer-Inv room_id user_id key _ c refl v
  register_found-Inv room_id user_id key failed c e v =
      create_peer-Inv room_id user_id key _ c refl v

  unregister_peer-Inv :
      (room_id user_id : ℕ) (c : Coordinator P cfg)
      → Inv cfg.gateway_ip (rows c.peers)
      → Inv cfg.gateway_ip (rows (unregister_peer P cfg room_id user_id c).1.peers)
  unfolding unregister_peer
  unregister_peer-Inv room_id user_id c v =
      elim (Bool-cases (delete_where (of_user room_id user_id) c.peers).0) [
        | inr f ↦ rw (delete_failed (of_user room_id user_id) c.peers f) v
        | inl f ↦
            rw (delete_ok (of_user room_id user_id) c.peers f)
              (remove-Inv cfg.gateway_ip _ (rows c.peers) v)
      ]

-- A request to the coordinator that runs from start to end with no other in between.
pub data Call : Type 0 where
  registers : (room_id user_id : ℕ) (public_key : Text) → Call
  unregisters : (room_id user_id : ℕ) → Call

module _ (P : Table WgPeer with_peer_id same_peer) (cfg : Config) where
  open P use {rows}

  unfoldable pub run_calls : List Call → Coordinator P cfg → Coordinator P cfg
  run_calls [] c = c
  run_calls (registers room_id user_id key ∷ cs) c =
      run_calls cs (register_peer P cfg room_id user_id key c).1
  run_calls (unregisters room_id user_id ∷ cs) c =
      run_calls cs (unregister_peer P cfg room_id user_id c).1

  -- Let registrations and unregistrations, in any rooms, follow one another without overlap. Then
  -- in each room no two peers ever hold one address, no peer holds the gateway's, and the ids of
  -- the rows stay distinct, whichever statements of the database fail.
  pub run_calls-Inv :
      (cs : List Call) (c : Coordinator P cfg)
      → Inv cfg.gateway_ip (rows c.peers)
      → Inv cfg.gateway_ip (rows (run_calls cs c).peers)
  unfolding run_calls register_peer
  run_calls-Inv [] c v = v
  run_calls-Inv (registers room_id user_id key ∷ cs) c v =
      run_calls-Inv cs _ (register_found-Inv P cfg room_id user_id key _ c refl v)
  run_calls-Inv (unregisters room_id user_id ∷ cs) c v =
      run_calls-Inv cs _ (unregister_peer-Inv P cfg room_id user_id c v)
