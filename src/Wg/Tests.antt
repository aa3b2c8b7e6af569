-- ===== src/Wg/Tests.antt =====
-- The coordinator on a table in memory.
use nexusroom.Base.{ℕ, ◌≡◌, refl, some, List, [], ◌∷◌, map, count, filter, any, arith}
use nexusroom.Orm.{Table}
use nexusroom.Orm.Memory.{memory}
use nexusroom.Wg.{
  Text, text_eq, before_slash, candidate, with_mask, first_free, WgPeer, with_peer_id, same_peer,
  Config, Coordinator, allocate_ip, create_peer, register_peer, unregister_peer,
}
use nexusroom.Wg.Allocation.{Inv, IsFree}
use nexusroom.Wg.Registration.{Call, registers, unregisters, run_calls, run_calls-Inv}
use nexusroom.Wg.Workers.{returned, run, two_calls}
use nexusroom.Wg.Overlap.{observe, overlapping_registrations, allocate_ip-some}

abbrev table : Table WgPeer with_peer_id same_peer
table = memory with_peer_id same_peer

-- 10.0.8.1 in 10.0.8.0/24
abbrev config : Config
config = record {
  gateway_ip = 49 ∷ 48 ∷ 46 ∷ 48 ∷ 46 ∷ 56 ∷ 46 ∷ 49 ∷ [];
  subnet = some (10, 0, 8, 24);
}

abbrev no_peers : Coordinator table config
no_peers = record { peers = []; device = [] }

abbrev calls : List Call
calls =
    registers 7 1 (65 ∷ [])
    ∷ registers 7 2 (66 ∷ [])
    ∷ unregisters 7 2
    ∷ registers 7 3 (67 ∷ [])
    ∷ registers 7 1 (68 ∷ [])
    ∷ []

addresses_test :
    map {B = ℕ × Text}
      (λ (r : WgPeer). (r.user_id, before_slash r.assigned_ip))
      (run_calls table config calls no_peers).peers
    ≡ (1, candidate (10, 0, 8, 24) 2) ∷ (3, candidate (10, 0, 8, 24) 3) ∷ []
unfolding run_calls register_peer unregister_peer before_slash candidate first_free with_mask any
    filter
addresses_test = refl

start-Inv : Inv config.gateway_ip []
unfolding count
start-Inv = record { hosts = λ r h. omega arith; no_gateway = λ r. refl; ids = λ r. omega arith }

run_calls-Inv_example : Inv config.gateway_ip (run_calls table config calls no_peers).peers
run_calls-Inv_example = run_calls-Inv table config calls no_peers start-Inv

abbrev first_ip : Text
first_ip = with_mask (candidate (10, 0, 8, 24) 2) 24

abbrev peer : ℕ → ℕ → Text → WgPeer
peer id user_id key = record {
  id = id;
  room_id = 7;
  user_id = user_id;
  public_key = key;
  assigned_ip = first_ip;
}

overlapping_registrations_example :
    observe table config 7 (before_slash first_ip) (
      run table config
        (0 ∷ 1 ∷ 0 ∷ 0 ∷ 0 ∷ 1 ∷ 1 ∷ 1 ∷ 0 ∷ 1 ∷ [])
        (two_calls table config 7 1 2 (65 ∷ []) (66 ∷ []) no_peers))
    ≡ some (returned (some (peer 1 1 (65 ∷ []))), returned (some (peer 2 2 (66 ∷ []))), 2)
unfolding allocate_ip create_peer first_free any filter candidate with_mask text_eq
overlapping_registrations_example =
    overlapping_registrations table config 7 1 2 (65 ∷ []) (66 ∷ []) first_ip no_peers
      (peer 1 1 (65 ∷ [])) (peer 2 2 (66 ∷ [])) refl refl refl refl refl

allocate_ip-some_example :
    (ip : Text) × (allocate_ip table config 7 (peer 1 1 [] ∷ []) ≡ some ip)
    × IsFree table config 7 ip (peer 1 1 [] ∷ [])
unfolding any text_eq candidate filter with_mask before_slash
allocate_ip-some_example =
    allocate_ip-some table config 7 254 (peer 1 1 [] ∷ []) 10 0 8 24 (peer 1 1 [] ∷ []) refl refl
      (omega arith) (omega arith) refl
