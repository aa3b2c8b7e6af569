-- ===== src/Wg.antt =====
-- server/internal/wg/coordinator.go and server/internal/repository/wg_peer.go: the registration of
-- peers in the database and the allocation of their addresses. An address is a text; a text is a
-- list of bytes here, since `AllocateIP` splits it. Of Go's `net.ParseCIDR` the result on the
-- configured subnet is a parameter, and the kernel's WireGuard device is a log of the calls that
-- set it up. The creation of the interface is system set-up and is left out.
pub mod Address
pub mod Allocation
pub mod Registration
pub mod Workers
pub mod Overlap
pub mod Tests
use nexusroom.Base.{
  ℕ, zero, suc, ◌+◌, ◌*◌, ◌/◌, ◌%◌, ◌≡◌, Bool, true, false, not, ◌&&◌, ◌||◌, Option, none, some,
  List, [], ◌∷◌, ◌++◌, map, ◌==◌, ltb, if◌then◌else◌, any,
}
use nexusroom.Orm.{Table, Found, found, not_found, failed}

abbrev pub Text : Type 0
Text = List ℕ

unfoldable pub text_eq : Text → Text → Bool
text_eq [] [] = true
text_eq (a ∷ s) (b ∷ t) = a == b && text_eq s t
text_eq _ _ = false

-- `%d` of a number below 1000.
unfoldable pub decimal : ℕ → Text
decimal n =
    if ltb n 10
    then (b'0' + n) ∷ []
    else if ltb n 100
    then (b'0' + n / 10) ∷ (b'0' + n % 10) ∷ []
    else (b'0' + n / 100) ∷ (b'0' + n / 10 % 10) ∷ (b'0' + n % 10) ∷ []

pub record WgPeer : Type 0 where
  pub id : ℕ
  pub room_id : ℕ
  pub user_id : ℕ
  pub public_key : Text
  pub assigned_ip : Text

abbrev pub with_peer_id : ℕ → WgPeer → WgPeer
with_peer_id n r = record r { id = n }

abbrev pub same_peer : WgPeer → WgPeer → Bool
same_peer r q = r.id == q.id

-- The configuration, with what `net.ParseCIDR` makes of its subnet: the first three octets of the
-- network and the length of its mask, or `none`.
pub record Config : Type 0 where
  pub gateway_ip : Text
  pub subnet : Option (ℕ × ℕ × ℕ × ℕ)

-- strings.Split(ip, "/")[0]
unfoldable pub before_slash : Text → Text
before_slash [] = []
before_slash (c ∷ s) = if c == b'/' then [] else c ∷ before_slash s

-- Sprintf("%d.%d.%d.%d", …)
unfoldable pub candidate : ℕ × ℕ × ℕ × ℕ → ℕ → Text
unfolding decimal
candidate (a, b, c, ones) i =
    decimal a ++ (b'.' ∷ (decimal b ++ (b'.' ∷ (decimal c ++ (b'.' ∷ decimal i)))))

unfoldable pub with_mask : Text → ℕ → Text
unfolding decimal
with_mask host ones = host ++ (b'/' ∷ decimal ones)

-- The loop over the last octet, from i for n rounds: the first candidate that is not in use.
unfoldable pub first_free : ℕ × ℕ × ℕ × ℕ → List Text → ℕ → ℕ → Option Text
unfolding candidate any text_eq
first_free net used zero i = none
first_free net used (suc n) i =
    let rest = first_free net used n (suc i) in
    if any (text_eq (candidate net i)) used then rest else some (candidate net i)

abbrev pub masked : ℕ → Option Text → Option Text
masked ones none = none
masked ones (some host) = some (with_mask host ones)

abbrev pub allocate_in : Option (ℕ × ℕ × ℕ × ℕ) → Text → List Text → Option Text
allocate_in none gateway ips = none
allocate_in (some (a, b, c, ones)) gateway ips =
    masked ones (first_free (a, b, c, ones) (gateway ∷ map before_slash ips) 253 2)

abbrev pub allocate_from : Config → Option (List Text) → Option Text
allocate_from cfg none = none
allocate_from cfg (some ips) = allocate_in cfg.subnet cfg.gateway_ip ips

abbrev pub pluck_ips : Option (List WgPeer) → Option (List Text)
pluck_ips none = none
pluck_ips (some rs) = some (map (λ r. r.assigned_ip) rs)

-- What the coordinator does to the kernel's device.
pub data DeviceCall : Type 0 where
  add_peer : (public_key assigned_ip : Text) → DeviceCall
  remove_peer : (public_key : Text) → DeviceCall

abbrev pub of_room : ℕ → WgPeer → Bool
of_room room_id r = r.room_id == room_id

abbrev pub of_user : ℕ → ℕ → WgPeer → Bool
of_user room_id user_id r = r.room_id == room_id && r.user_id == user_id

module _ (P : Table WgPeer with_peer_id same_peer) (cfg : Config) where
  open P use {State, create, delete_where, update_where, first_where, find_where}

  pub record Coordinator : Type 0 where
    pub peers : State
    pub device : List DeviceCall

  -- `GetAllAssignedIPs`
  unfoldable pub get_all_assigned_ips : ℕ → State → Option (List Text)
  get_all_assigned_ips room_id s = pluck_ips (find_where (of_room room_id) s)

  -- `AllocateIP`: `none` is an error.
  unfoldable pub allocate_ip : ℕ → State → Option Text
  unfolding get_all_assigned_ips
  allocate_ip room_id s = allocate_from cfg (get_all_assigned_ips room_id s)

  abbrev pub created :
      Text → Text → List DeviceCall → Option WgPeer × State → Option WgPeer × Coordinator
  created public_key ip device (none, s) = (none, record { peers = s; device = device })
  created public_key ip device (some row, s) =
      (some row, record { peers = s; device = device ++ add_peer public_key ip ∷ [] })

  -- The second half of `RegisterPeer`: `Create` with the allocated address.
  unfoldable pub create_peer :
      ℕ → ℕ → Text → Option Text → Coordinator → Option WgPeer × Coordinator
  create_peer room_id user_id public_key none c = (none, c)
  create_peer room_id user_id public_key (some ip) c = created public_key ip c.device (
      create
        (record {
          id = 0;
          room_id = room_id;
          user_id = user_id;
          public_key = public_key;
          assigned_ip = ip;
        })
        c.peers)

  abbrev pub rekeyed : WgPeer → Text → List DeviceCall → Bool × State → Option WgPeer × Coordinator
  rekeyed row public_key device (false, s) = (none, record { peers = s; device = device })
  rekeyed row public_key device (true, s) = (
    some (record row { public_key = public_key }),
    record {
      peers = s;
      device = device ++ (remove_peer row.public_key ∷ add_peer public_key row.assigned_ip ∷ []);
    },
  )

  -- A peer that is registered: its key is brought up to date (`Save` writes the row by its id).
  unfoldable pub renew_peer : WgPeer → Text → Coordinator → Option WgPeer × Coordinator
  unfolding text_eq
  renew_peer row public_key c =
      if text_eq row.public_key public_key
      then (
        some row,
        record c { device = c.device ++ add_peer row.public_key row.assigned_ip ∷ [] },
      )
      else rekeyed row public_key c.device
          (update_where (λ r. r.id == row.id) (λ r. record row { public_key = public_key }) c.peers)

  abbrev pub register_found :
      ℕ → ℕ → Text → Found WgPeer → Coordinator → Option WgPeer × Coordinator
  register_found room_id user_id public_key (found row) c = renew_peer row public_key c
  register_found room_id user_id public_key not_found c =
      create_peer room_id user_id public_key (allocate_ip room_id c.peers) c
  register_found room_id user_id public_key failed c =
      create_peer room_id user_id public_key (allocate_ip room_id c.peers) c

  unfoldable pub register_peer : ℕ → ℕ → Text → Coordinator → Option WgPeer × Coordinator
  unfolding allocate_ip create_peer renew_peer
  register_peer room_id user_id public_key c =
      register_found room_id user_id public_key (first_where (of_user room_id user_id) c.peers) c

  abbrev pub dropped : Found WgPeer → List DeviceCall → List DeviceCall
  dropped (found row) device = device ++ remove_peer row.public_key ∷ []
  dropped not_found device = device
  dropped failed device = device

  -- The flag tells whether the deletion succeeded.
  unfoldable pub unregister_peer : ℕ → ℕ → Coordinator → Bool × Coordinator
  unregister_peer room_id user_id c =
      let device = dropped (first_where (of_user room_id user_id) c.peers) c.device in
      let (done, s) = delete_where (of_user room_id user_id) c.peers in
      (done, record { peers = s; device = device })
