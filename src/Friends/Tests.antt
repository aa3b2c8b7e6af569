-- ===== src/Friends/Tests.antt =====
-- The friend handlers on a table in memory with three users.
use Prim.Native.String.{String}
use text.Mathlib.Text.{◌==◌ as str_eq}
use nexusroom.Base.{
  ℕ, ◌≡◌, refl, inl, Option, none, some, List, [], ◌∷◌, ◌==◌, if◌then◌else◌, count, filter, any,
  arith,
}
use nexusroom.Orm.{Table}
use nexusroom.Orm.Memory.{memory, first-ne-failed}
use nexusroom.Friends.{
  Friendship, User, keep_id, same_friendship, error, send_request, handle_request,
}
use nexusroom.Friends.Pairs.{Inv}
use nexusroom.Friends.Answers.{
  Call, sends, handles, run, run-Inv, Handles, handle_request-Handles, send_request_conflict,
}

abbrev table : Table Friendship keep_id same_friendship
table = memory keep_id same_friendship

abbrev ann : User
ann = record { id = 1; user_display_id = "10001"; nickname = "Ann" }

abbrev bob : User
bob = record { id = 2; user_display_id = "10002"; nickname = "Bob" }

abbrev by_id : ℕ → Option User
by_id id = if id == 1 then some ann else if id == 2 then some bob else none

abbrev by_display_id : String → Option User
by_display_id d = if str_eq d "10001" then some ann else if str_eq d "10002" then some bob else none

abbrev asked : Friendship
asked = record { requester_id = 1; addressee_id = 2; status = "pending" }

abbrev history : List Call
history =
    sends (some "10002") 1
    ∷ handles (some 1) (some "reject") 2
    ∷ sends (some "10001") 2
    ∷ handles (some 2) (some "accept") 1
    ∷ sends (some "10002") 1
    ∷ []

history_test :
    run table by_id by_display_id history []
    ≡ record { requester_id = 2; addressee_id = 1; status = "accepted" } ∷ []
unfolding run send_request handle_request any filter
history_test = refl

empty-Inv : Inv []
unfolding count
empty-Inv = record { unique = λ a b. omega arith; sound = tt }

asked-Inv : Inv (asked ∷ [])
unfolding count
asked-Inv = record { unique = λ a b. ground arith; sound = ((inl refl, omega arith), tt) }

run-Inv_example : Inv (run table by_id by_display_id history [])
run-Inv_example =
    run-Inv table by_id by_display_id (first-ne-failed keep_id same_friendship) (λ p s. refl)
      history [] empty-Inv

handle_request-Handles_example :
    Handles table by_id by_display_id 1 "accept" 2
      (asked ∷ [])
      (handle_request table by_id by_display_id (some 1) (some "accept") 2 (asked ∷ [])).state
unfolding handle_request
handle_request-Handles_example =
    handle_request-Handles table by_id by_display_id 1 "accept" 2 (asked ∷ []) refl

send_request_conflict_example :
    send_request table by_id by_display_id (some "10001") 2 (asked ∷ [])
    ≡ record { answer = error 40901; events = []; state = asked ∷ [] }
unfolding count
send_request_conflict_example =
    send_request_conflict table by_id by_display_id "10001" 2 ann (asked ∷ [])
      (λ p. first-ne-failed keep_id same_friendship p (asked ∷ [])) refl (omega arith) asked-Inv
      (omega arith)
