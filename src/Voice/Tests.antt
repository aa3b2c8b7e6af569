-- ===== src/Voice/Tests.antt =====
-- The voice rooms with one user, whose connection is replaced, and whose older one closes late.
use nexusroom.Base.{ℕ, ◌≡◌, ◌≢◌, refl, true, false, none, some, List, [], ◌∷◌, ◌==◌, if◌then◌else◌}
use nexusroom.Base.Maps.{lookup}
use nexusroom.Voice.{Engine, Rtc, find_peer, peer_in}
use nexusroom.Voice.Rooms.{leave_user, new_peer, join}
use nexusroom.Voice.Methods.{
  ensure_peer, answered, offered, handle_offer, on_state_change, new_engine,
}
use nexusroom.Voice.Invariant.{Inv}
use nexusroom.Voice.Users.{find_peer-leave_user}
use nexusroom.Voice.Runs.{
  Call, offers, leaves, publishes, run_calls, voice_runs-Inv, late_close_lem,
}
use nexusroom.Voice.Offers.{failed_offer_lem}

abbrev willing : Rtc
willing = record {
  new_connection = true;
  set_remote = true;
  create_answer = true;
  set_local = true;
  add_ice = true;
  is_stable = λ p. true;
  makes_offer = λ p. true;
  add_track = λ p s. true;
}

-- User 4 is in room 1 at address 0, leaves, and comes back at address 1; user 5 is there as well.
abbrev calls : List Call
calls =
    offers willing 1 4 "v=0"
    ∷ leaves willing 1 4
    ∷ offers willing 1 4 "v=0"
    ∷ offers willing 1 5 "v=0"
    ∷ publishes willing 2 9
    ∷ []

voice_runs-Inv_example : Inv (run_calls calls new_engine)
voice_runs-Inv_example = voice_runs-Inv calls

-- What the first three of these calls leave.
abbrev back : Engine
back = record {
  rooms = (1, record { peers = (4, 1) ∷ []; tracks = [] }) ∷ [];
  store = λ p. if p == 0 then record (new_peer 1 4) { closed = true } else new_peer 1 4;
  count = 2;
  signals = [];
}

is_back : find_peer 1 4 back ≡ some 1
unfolding find_peer peer_in lookup
is_back = refl

find_peer-leave_user_example :
    find_peer 1 4 (leave_user willing 4 back) ≡ (if 4 == 4 then none else find_peer 1 4 back)
find_peer-leave_user_example = find_peer-leave_user willing 4 1 4 back

late_close_lem_example :
    let e' = on_state_change willing 0 "closed" back in
    (find_peer 1 4 e' ≡ none) × ((e'.store 1).closed ≡ true) × (◌≢◌ {A = ℕ} 0 1)
late_close_lem_example = late_close_lem willing 0 1 "closed" back refl refl is_back refl

-- The local description cannot be set.
abbrev stuck : Rtc
stuck = record willing { set_local = false }

new_user : find_peer 1 5 back ≡ none
unfolding find_peer peer_in lookup
new_user = refl

offer_fails : (handle_offer stuck 1 5 "v=0" back).0 ≡ false
unfolding handle_offer offered answered ensure_peer join find_peer peer_in lookup
offer_fails = refl

failed_offer_lem_example : find_peer 1 5 (handle_offer stuck 1 5 "v=0" back).1 ≡ some 2
failed_offer_lem_example = failed_offer_lem stuck 1 5 back "v=0" 1 5 new_user offer_fails
