-- ===== src/Wg/Overlap.antt =====
-- `RegisterPeer` leaves its lock between the allocation of an address and the creation of the row.
use nexusroom.Base.{
  ℕ, ◌+◌, ◌≤◌, ◌≡◌, refl, sym, ◌∙◌, inl, inr, true, false, Option, none, some, List, [], ◌∷◌, map,
  any, count, filter, count-append, arith, Option-cases, ==-refl,
}
use nexusroom.Orm.{Table, Found, found, not_found, failed}
use nexusroom.Wg.{
  Text, text_eq, before_slash, candidate, masked, WgPeer, with_peer_id, same_peer, Config,
  DeviceCall, of_room, of_user, Coordinator, get_all_assigned_ips, allocate_ip, created,
  create_peer, register_peer,
}
use nexusroom.Wg.Workers.{Pc, returned, System, run, advance, two_calls}
use nexusroom.Wg.Address.{text_eq_refl}
use nexusroom.Wg.Allocation.{holds, IsFree, allocate_ip-IsFree}
use nexusroom.Wg.Address.{first_free-none}

module _ (P : Table WgPeer with_peer_id same_peer) (cfg : Config) where
  open P use {State, rows, create, create_ok, find_where, find_ok}

  created-some :
      (key ip : Text) (device : List DeviceCall) (r : Option WgPeer × State)
      → (created P cfg key ip device r).0 ≡ r.0
  created-some key ip device (none, s) = refl
  created-some key ip device (some row, s) = refl

  created-peers :
      (key ip : Text) (device : List DeviceCall) (r : Option WgPeer × State)
      → (created P cfg key ip device r).1.peers ≡ r.1
  created-peers key ip device (none, s) = refl
  created-peers key ip device (some row, s) = refl

  create_peer-count :
      (room_id user_id : ℕ) (key ip : Text) (c : Coordinator P cfg) (row : WgPeer)
      → (create_peer P cfg room_id user_id key (some ip) c).0 ≡ some row
      → count
          (holds room_id (before_slash ip))
          (rows (create_peer P cfg room_id user_id key (some ip) c).1.peers)
        ≡ count (holds room_id (before_slash ip)) (rows c.peers) + 1
  unfolding create_peer count
  create_peer-count room_id user_id key ip c row e =
      let new : WgPeer = record {
        id = 0;
        room_id = room_id;
        user_id = user_id;
        public_key = key;
        assigned_ip = ip;
      } in
      let (n, filled, _, kept) =
        create_ok new c.peers row (sym (created-some key ip c.device (create new c.peers)) ∙ e) in
      rw (created-peers key ip c.device (create new c.peers), kept, filled)
        (rw
          (
            count-append (holds room_id (before_slash ip)) (rows c.peers) (with_peer_id n new ∷ []),
            ==-refl room_id,
            text_eq_refl (before_slash ip),
          )
          (omega arith))

  created_twice :
      (room_id u v : ℕ) (key key' ip : Text) (c : Coordinator P cfg) (row row' : WgPeer)
      → allocate_ip P cfg room_id c.peers ≡ some ip
      → (create_peer P cfg room_id u key (some ip) c).0 ≡ some row
      → (create_peer P cfg room_id v key'
          (some ip)
          (create_peer P cfg room_id u key (some ip) c).1).0
        ≡ some row'
      → count (holds room_id (before_slash ip)) (
          rows
            (create_peer P cfg room_id v key'
              (some ip)
              (create_peer P cfg room_id u key (some ip) c).1).1.peers)
        ≡ 2
  created_twice room_id u v key key' ip c row row' e first second = omega (
    arith,
    create_peer-count room_id v key' ip (create_peer P cfg room_id u key (some ip) c).1 row' second,
    create_peer-count room_id u key ip c row first,
    (allocate_ip-IsFree P cfg room_id c.peers ip e).unused,
  )

  abbrev outcome : Option (System P cfg) → Option (Pc × Coordinator P cfg)
  outcome none = none
  outcome (some s) = some ((s.workers 0).pc, s.coordinator)

  -- A call whose steps no other call's come between does what `register_peer` does.
  unfoldable Alone : (room_id u v : ℕ) (key key' : Text) (c : Coordinator P cfg) → Type 0
  Alone room_id u v key key' c =
      (is : List ℕ) × (outcome (run P cfg is (two_calls P cfg room_id u v key key' c))
        ≡ some (
          returned (register_peer P cfg room_id u key c).0,
          (register_peer P cfg room_id u key c).1,
        ))

  module _ (room_id u v : ℕ) (key key' : Text) (c : Coordinator P cfg) where
    allocated-Alone :
        (o : Option Text)
        → allocate_ip P cfg room_id c.peers ≡ o
        → (f : Found WgPeer) → P.first_where (of_user room_id u) c.peers ≡ f
        → Alone room_id u v key key' c
    unfolding run advance register_peer create_peer Alone
    allocated-Alone o e (found row) h = (0 ∷ 0 ∷ [], rw h refl)
    allocated-Alone none e not_found h = (0 ∷ 0 ∷ 0 ∷ 0 ∷ [], rw (h, e) refl)
    allocated-Alone none e failed h = (0 ∷ 0 ∷ 0 ∷ 0 ∷ [], rw (h, e) refl)
    allocated-Alone (some ip) e not_found h = (0 ∷ 0 ∷ 0 ∷ 0 ∷ 0 ∷ [], rw (h, e) refl)
    allocated-Alone (some ip) e failed h = (0 ∷ 0 ∷ 0 ∷ 0 ∷ 0 ∷ [], rw (h, e) refl)

    run-register_peer : Alone room_id u v key key' c
    run-register_peer = allocated-Alone _ refl _ refl

  -- Where two calls are, and how many peers of the room hold a host.
  abbrev pub observe : (room_id : ℕ) (host : Text) → Option (System P cfg) → Option (Pc × Pc × ℕ)
  observe room_id host none = none
  observe room_id host (some s) =
      some
        ((s.workers 0).pc, (s.workers 1).pc, count (holds room_id host) (rows s.coordinator.peers))

  -- In one room neither of two users has a peer, and there is a free address. Their two calls of
  -- `RegisterPeer` run so: each looks its user up; the first takes the lock, allocates and releases
  -- it, and then the second does; each creates its row, which succeeds. No step is blocked by the
  -- lock, both calls return their rows, and two peers of the room hold one address.
  pub overlapping_registrations :
      (room_id u v : ℕ) (key key' ip : Text) (c : Coordinator P cfg) (row row' : WgPeer)
      → P.first_where (of_user room_id u) c.peers ≡ not_found
      → P.first_where (of_user room_id v) c.peers ≡ not_found
      → allocate_ip P cfg room_id c.peers ≡ some ip
      → (create_peer P cfg room_id u key (some ip) c).0 ≡ some row
      → (create_peer P cfg room_id v key'
          (some ip)
          (create_peer P cfg room_id u key (some ip) c).1).0
        ≡ some row'
      → observe room_id (before_slash ip) (
          run P cfg
            (0 ∷ 1 ∷ 0 ∷ 0 ∷ 0 ∷ 1 ∷ 1 ∷ 1 ∷ 0 ∷ 1 ∷ [])
            (two_calls P cfg room_id u v key key' c))
        ≡ some (returned (some row), returned (some row'), 2)
  unfolding run advance
  overlapping_registrations room_id u v key key' ip c row row' new new' e first second =
      rw (new, new', e)
        (λ i. some (
          returned (first i),
          returned (second i),
          created_twice room_id u v key key' ip c row row' e first second i,
        ))

  masked-none : (ones : ℕ) (o : Option Text) → masked ones o ≡ none → o ≡ none
  masked-none ones none e = refl
  masked-none ones (some t) e = cc

  allocate_ip-none :
      (room_id k : ℕ) (s : State) (a b d ones : ℕ) (rs : List WgPeer)
      → cfg.subnet ≡ some (a, b, d, ones)
      → find_where (of_room room_id) s ≡ some rs
      → allocate_ip P cfg room_id s ≡ none
      → 2 ≤ k
      → k ≤ 254
      → any (text_eq (candidate (a, b, d, ones) k)) (
          cfg.gateway_ip
          ∷ map before_slash (map (λ r. r.assigned_ip) (filter (of_room room_id) (rows s))))
        ≡ true
  unfolding allocate_ip get_all_assigned_ips
  allocate_ip-none room_id k s a b d ones rs net read fails low high =
      let used =
        cfg.gateway_ip
        ∷ map before_slash (map (λ r. r.assigned_ip) (filter (of_room room_id) (rows s))) in
      first_free-none (a, b, d, ones) used 253 2 k
        (masked-none ones _ (rw (read, net, find_ok (of_room room_id) s rs read) at fails)) low
        (omega arith)

  -- On a configured subnet, where the peers of the room can be read, let one of the hosts 2 to 254
  -- be neither the gateway nor the address of a peer of the room. Then `AllocateIP` succeeds, with
  -- an address that no peer of the room holds and that is not the gateway's.
  pub allocate_ip-some :
      (room_id k : ℕ) (s : State) (a b d ones : ℕ) (rs : List WgPeer)
      → cfg.subnet ≡ some (a, b, d, ones)
      → find_where (of_room room_id) s ≡ some rs
      → 2 ≤ k
      → k ≤ 254
      → any (text_eq (candidate (a, b, d, ones) k)) (
          cfg.gateway_ip
          ∷ map before_slash (map (λ r. r.assigned_ip) (filter (of_room room_id) (rows s))))
        ≡ false
      → (ip : Text) × (allocate_ip P cfg room_id s ≡ some ip) × IsFree P cfg room_id ip (rows s)
  allocate_ip-some room_id k s a b d ones rs net read low high free =
      elim (Option-cases (allocate_ip P cfg room_id s)) [
        | inl e ↦ cc (allocate_ip-none room_id k s a b d ones rs net read e low high, free)
        | inr (ip, e) ↦ (ip, e, allocate_ip-IsFree P cfg room_id s ip e)
      ]
