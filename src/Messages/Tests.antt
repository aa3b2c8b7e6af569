-- ===== src/Messages/Tests.antt =====
-- A table of three messages of room 7, and pages of it.
use nexusroom.Base.{
  ℕ, ◌≡◌, refl, Bool, true, none, some, List, [], ◌∷◌, ◌++◌, reverse, take, filter, arith, ◌≤◌,
}
use nexusroom.Ws.Chat.{Message}
use nexusroom.Messages.{
  IsAscending, MessageTable, negsuc, success, newer, older, in_room, in_order, page_limit,
  get_messages_after, get_messages_before, get_latest_messages, page_of, get_messages,
}
use nexusroom.Messages.Reversal.{turn_around, reverse_loop}
use nexusroom.Messages.Slices.{last_of}
use nexusroom.Messages.Pages.{get_messages_after_lem, get_messages_before_lem}
use nexusroom.Messages.Bounds.{IsPage, get_messages-IsPage}

-- Rows that are kept in the order of their ids; no query fails.
abbrev sorted : MessageTable
sorted = record {
  State = (ms : List Message) × IsAscending ms;
  by_id = λ s. s.0;
  find_asc = λ p n s. some (take n (filter p s.0));
  find_desc = λ p n s. some (take n (filter p (reverse s.0)));
  ascending = λ s. s.1;
  find_asc_ok = λ p n s ms h. ground (arith, h);
  find_desc_ok = λ p n s ms h. ground (arith, h);
}

abbrev text : ℕ → Message
text n = record {
  id = n;
  room_id = 7;
  sender_id = 1;
  kind = "text";
  content = "hello";
  meta = none;
}

abbrev state : (ms : List Message) × IsAscending ms
state = (
  text 3 ∷ text 5 ∷ text 8 ∷ [],
  ((omega arith, (omega arith, tt)), ((omega arith, tt), (tt, tt))),
)

abbrev everybody : ℕ → ℕ → Bool
everybody room_id user_id = true

after_three : get_messages_after sorted 7 3 1 state ≡ some (text 5 ∷ [])
unfolding get_messages_after filter
after_three = refl

get_messages_after_lem_example :
    filter (newer 7 3) state.0 ≡ (text 5 ∷ []) ++ filter (newer 7 5) state.0
get_messages_after_lem_example = get_messages_after_lem sorted 7 3 1 state (text 5 ∷ []) after_three

before_eight : get_messages_before sorted 7 8 1 state ≡ some (text 5 ∷ [])
unfolding get_messages_before filter in_order turn_around reverse_loop reverse
before_eight = refl

latest_two : get_latest_messages sorted 7 1 state ≡ some (text 8 ∷ [])
unfolding get_latest_messages filter in_order turn_around reverse_loop reverse
latest_two = refl

get_messages_before_lem_example :
    (text 5 ∷ [] ≡ last_of 1 (filter (older 7 8) state.0))
    × (text 8 ∷ [] ≡ last_of 1 (filter (in_room 7) state.0))
get_messages_before_lem_example =
    get_messages_before_lem sorted 7 8 1 state (text 5 ∷ []) (text 8 ∷ []) before_eight latest_two

asked :
    get_messages sorted everybody (some 7) 1 3 0 (negsuc 0) state ≡ success (text 5 ∷ text 8 ∷ [])
unfolding get_messages page_of get_messages_after filter
asked = refl

get_messages-IsPage_example :
    (everybody 7 1 ≡ true)
    × IsPage 7 (page_limit (negsuc 0)) (text 5 ∷ text 8 ∷ [])
    × (page_limit (negsuc 0) ≤ 100)
get_messages-IsPage_example =
    get_messages-IsPage sorted everybody 7 1 3 0 (negsuc 0) state (text 5 ∷ text 8 ∷ []) asked
