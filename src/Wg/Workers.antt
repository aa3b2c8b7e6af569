-- ===== src/Wg/Workers.antt =====
-- `RegisterPeer` run by several goroutines: each stops at a statement of the database or of the lock
-- of the coordinator, `c.mu`, which `AllocateIP` takes and releases when it returns.
use nexusroom.Base.{ℕ, ◌==◌, Option, none, some, List, [], ◌∷◌, if◌then◌else◌}
use nexusroom.Orm.{Table, Found, found, not_found, failed}
use nexusroom.Wg.{
  Text, WgPeer, with_peer_id, same_peer, Config, Coordinator, of_user, allocate_ip, create_peer,
  renew_peer,
}

-- Where a goroutine is: it looks the peer up, renews the one that it found, or waits for the lock,
-- allocates, releases the lock with what it has allocated, and creates the row; or it has returned.
pub data Pc : Type 0 where
  starts : Pc
  renews : WgPeer → Pc
  waits allocates : Pc
  unlocks : Option Text → Pc
  creates : (assigned_ip : Text) → Pc
  returned : Option WgPeer → Pc

-- A call of `RegisterPeer`.
pub record Worker : Type 0 where
  pub room_id : ℕ
  pub user_id : ℕ
  pub public_key : Text
  pub pc : Pc

abbrev pub after_lookup : Found WgPeer → Pc
after_lookup (found row) = renews row
after_lookup not_found = waits
after_lookup failed = waits

abbrev pub after_unlock : Option Text → Pc
after_unlock none = returned none
after_unlock (some ip) = creates ip

module _ (P : Table WgPeer with_peer_id same_peer) (cfg : Config) where
  open P use {first_where}

  -- The lock's holder is `none` where it is free.
  pub record System : Type 0 where
    pub lock : Option ℕ
    pub workers : ℕ → Worker
    pub coordinator : Coordinator P cfg

  abbrev pub at_pc : ℕ → Pc → System → System
  at_pc i pc s = record s {
    workers = λ j. if i == j then record (s.workers i) { pc = pc } else s.workers j;
  }

  abbrev pub return_with : ℕ → System → Option WgPeer × Coordinator P cfg → System
  return_with i s (row, c) = record (at_pc i (returned row) s) { coordinator = c }

  abbrev pub acquire : ℕ → Option ℕ → System → Option System
  acquire i none s = some (record (at_pc i allocates s) { lock = some i })
  acquire i (some j) s = none

  -- One step of the worker i; `none` where it waits for the lock or has returned.
  unfoldable pub advance : ℕ → Pc → System → Option System
  unfolding allocate_ip create_peer renew_peer
  advance i starts s = some (
      at_pc i
        (after_lookup
          (first_where (of_user (s.workers i).room_id (s.workers i).user_id) s.coordinator.peers))
        s)
  advance i (renews row) s =
      some (return_with i s (renew_peer P cfg row (s.workers i).public_key s.coordinator))
  advance i waits s = acquire i s.lock s
  advance i allocates s =
      some (at_pc i (unlocks (allocate_ip P cfg (s.workers i).room_id s.coordinator.peers)) s)
  advance i (unlocks o) s = some (record (at_pc i (after_unlock o) s) { lock = none })
  advance i (creates ip) s = some (
      return_with i s (
        create_peer P cfg (s.workers i).room_id (s.workers i).user_id (s.workers i).public_key
          (some ip) s.coordinator))
  advance i (returned row) s = none

  abbrev pub then_run : Option System → (System → Option System) → Option System
  then_run none k = none
  then_run (some s) k = k s

  -- The workers that take the next steps, in their order.
  unfoldable pub run : List ℕ → System → Option System
  unfolding advance
  run [] s = some s
  run (i ∷ is) s = then_run (advance i (s.workers i).pc s) (run is)

  -- Two calls in one room, by the users u and v, that have not begun.
  abbrev pub two_calls : (room_id u v : ℕ) (key key' : Text) → Coordinator P cfg → System
  two_calls room_id u v key key' c = record {
    lock = none;
    workers = λ i.
        if i == 0
        then record { room_id = room_id; user_id = u; public_key = key; pc = starts }
        else record { room_id = room_id; user_id = v; public_key = key'; pc = starts };
    coordinator = c;
  }
