-- ===== src/Wg/Allocation.antt =====
-- The invariant of the peers' addresses, and the address that `AllocateIP` hands out.
use nexusroom.Base.{
  ℕ, ◌≤◌, ◌≡◌, refl, sym, ap, ◌∙◌, inl, inr, Bool, false, ◌&&◌, Option, none, some, List, [], ◌∷◌,
  map, any, count, filter, arith, Bool-cases, Option-cases, count_pos-any,
}
use nexusroom.Orm.{Table}
use nexusroom.Wg.{
  Text, text_eq, before_slash, with_mask, first_free, allocate_in, allocate_from, pluck_ips, WgPeer,
  with_peer_id, same_peer, Config, of_room, allocate_ip,
}
use nexusroom.Wg.Address.{before_slash-with_mask, first_free-some}

-- The peer is in the room, and its address without the mask is the given one.
abbrev pub holds : ℕ → Text → WgPeer → Bool
holds room_id host r = of_room room_id r && text_eq host (before_slash r.assigned_ip)

pub record Inv (gateway : Text) (rows : List WgPeer) : Type 0 where
  pub hosts : (room_id : ℕ) (host : Text) → count (holds room_id host) rows ≤ 1
  pub no_gateway : (room_id : ℕ) → count (holds room_id gateway) rows ≡ 0
  pub ids : (r : WgPeer) → count (same_peer r) rows ≤ 1

-- The host of no peer of the room.
free-count :
    (room_id : ℕ) (host : Text) (rows : List WgPeer)
    → any
        (text_eq host)
        (map before_slash (map (λ r. r.assigned_ip) (filter (of_room room_id) rows)))
      ≡ false
    → count (holds room_id host) rows ≡ 0
unfolding any count filter
free-count room_id host [] e = refl
free-count room_id host (r ∷ rows) e = elim (Bool-cases (of_room room_id r)) [
  | inl mine ↦ ground (arith, free-count room_id host rows)
  | inr other ↦ ground (arith, free-count room_id host rows)
]

pub count-any : (p : WgPeer → Bool) (rows : List WgPeer) → any p rows ≡ false → count p rows ≡ 0
count-any p rows e = ground (arith, count_pos-any p rows)

-- What an allocated address is, with respect to the rows that were read.
module _ (P : Table WgPeer with_peer_id same_peer) (cfg : Config) where
  open P use {
    State, rows, create, create_ok, create_failed, delete_where, delete_ok, delete_failed,
    update_where, update_ok, update_failed, first_where, first_found, find_where, find_ok,
  }

  pub record IsFree (room_id : ℕ) (ip : Text) (rs : List WgPeer) : Type 0 where
    pub unused : count (holds room_id (before_slash ip)) rs ≡ 0
    pub not_gateway : text_eq (before_slash ip) cfg.gateway_ip ≡ false

  allocate_in-IsFree :
      (room_id : ℕ) (s : State) (subnet : Option (ℕ × ℕ × ℕ × ℕ)) (ip : Text)
      → allocate_in subnet cfg.gateway_ip
          (map (λ r. r.assigned_ip) (filter (of_room room_id) (rows s)))
        ≡ some ip
      → IsFree room_id ip (rows s)
  unfolding any
  allocate_in-IsFree room_id s none ip e = cc
  allocate_in-IsFree room_id s (some (a, b, c, ones)) ip e =
      let used =
        cfg.gateway_ip
        ∷ map before_slash (map (λ r. r.assigned_ip) (filter (of_room room_id) (rows s))) in
      elim (Option-cases (first_free (a, b, c, ones) used 253 2)) [
        | inl f ↦ cc (rw f at e)
        | inr (host, f) ↦
            let (k, same, free, _, _) = first_free-some (a, b, c, ones) used 253 2 host f in
            let whole : with_mask host ones ≡ ip = ground (arith, rw f at e) in
            let split : before_slash ip ≡ host =
              ap before_slash (sym whole)
              ∙ ap (λ (t : Text). before_slash (with_mask t ones)) same
              ∙ before_slash-with_mask (a, b, c, ones) k ones
              ∙ sym same in
            record {
              unused = rw split (free-count room_id host (rows s) (ground arith));
              not_gateway = rw split (ground arith);
            }
      ]

  -- An address that `AllocateIP` hands out is held by no peer of the room, and is not the gateway.
  pub allocate_ip-IsFree :
      (room_id : ℕ) (s : State) (ip : Text)
      → allocate_ip P cfg room_id s ≡ some ip
      → IsFree room_id ip (rows s)
  unfolding allocate_ip
  allocate_ip-IsFree room_id s ip e = elim (Option-cases (find_where (of_room room_id) s)) [
    | inl f ↦ cc (rw (ap (λ (o : Option (List WgPeer)). allocate_from cfg (pluck_ips o)) f) at e)
    | inr (rs, f) ↦ allocate_in-IsFree room_id s cfg.subnet ip (
        ap
          (λ (xs : List WgPeer).
            allocate_in cfg.subnet cfg.gateway_ip (map (λ r. r.assigned_ip) xs))
          (sym (find_ok (of_room room_id) s rs f))
        ∙ ap (λ (o : Option (List WgPeer)). allocate_from cfg (pluck_ips o)) (sym f)
        ∙ e)
  ]
