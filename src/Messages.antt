-- ===== src/Messages.antt =====
-- server/internal/repository/message.go and server/internal/api/handler/message.go: the pages of a
-- room's messages. The object mapper is a parameter: a table of messages with its rows in the order
-- of their ids, and the two queries that the repository makes of it.
pub mod Reversal
pub mod Slices
pub mod Pages
pub mod Bounds
pub mod Tests
use nexusroom.Base.{
  ℕ, ◌<◌, ◌≡◌, Bool, ◌&&◌, ◌||◌, Option, none, some, List, [], ◌∷◌, ◌==◌, reverse, take, filter,
  if◌then◌else◌, ltb, All, not,
}
use nexusroom.Ws.Chat.{Message}
use nexusroom.Messages.Reversal.{turn_around}

-- Rows in a strictly ascending order of their ids.
abbrev pub IsAscending : List Message → Type 0
IsAscending [] = Unit
IsAscending (m ∷ ms) = All (λ (n : Message). m.id < n.id) ms × IsAscending ms

-- A query selects rows, orders them by id and returns at most `limit` of them, or fails.
pub record MessageTable : Type 1 where
  pub State : Type 0
  pub by_id : State → List Message
  pub find_asc : (Message → Bool) → (limit : ℕ) → State → Option (List Message)
  pub find_desc : (Message → Bool) → (limit : ℕ) → State → Option (List Message)
  pub ascending : (s : State) → IsAscending (by_id s)
  pub find_asc_ok :
      (p : Message → Bool) (n : ℕ) (s : State) (ms : List Message)
      → find_asc p n s ≡ some ms
      → ms ≡ take n (filter p (by_id s))
  pub find_desc_ok :
      (p : Message → Bool) (n : ℕ) (s : State) (ms : List Message)
      → find_desc p n s ≡ some ms
      → ms ≡ take n (filter p (reverse (by_id s)))

-- A Go `int`, as `Atoi` returns it.
pub data ℤ : Type 0 where
  pos : ℕ → ℤ
  negsuc : ℕ → ℤ

pub data Answer : Type 0 where
  success : List Message → Answer
  error : (code : ℕ) → Answer

abbrev pub in_room : ℕ → Message → Bool
in_room room_id m = m.room_id == room_id

abbrev pub newer : ℕ → ℕ → Message → Bool
newer room_id after_id m = in_room room_id m && ltb after_id m.id

abbrev pub older : ℕ → ℕ → Message → Bool
older room_id before_id m = in_room room_id m && ltb m.id before_id

unfoldable pub in_order : Option (List Message) → Option (List Message)
unfolding turn_around
in_order none = none
in_order (some ms) = some (turn_around ms)

abbrev pub page_limit : ℤ → ℕ
page_limit (negsuc n) = 50
page_limit (pos n) = if n == 0 || ltb 100 n then 50 else n

abbrev pub answer_of : Option (List Message) → Answer
answer_of none = error 50001
answer_of (some ms) = success ms

module _ (M : MessageTable) where
  open M use {State, find_asc, find_desc}

  unfoldable pub get_messages_after : ℕ → ℕ → ℕ → State → Option (List Message)
  get_messages_after room_id after_id limit s = find_asc (newer room_id after_id) limit s

  unfoldable pub get_messages_before : ℕ → ℕ → ℕ → State → Option (List Message)
  unfolding in_order
  get_messages_before room_id before_id limit s =
      in_order (find_desc (older room_id before_id) limit s)

  unfoldable pub get_latest_messages : ℕ → ℕ → State → Option (List Message)
  unfolding in_order
  get_latest_messages room_id limit s = in_order (find_desc (in_room room_id) limit s)

  -- The parameters of the query have been read: the room's id fails to parse as `none`, the other
  -- numbers as 0. `is_member` is the answer of the rooms' repository.
  unfoldable pub page_of : ℕ → ℕ → ℕ → ℕ → State → Option (List Message)
  unfolding get_messages_after get_messages_before get_latest_messages
  page_of room_id after_id before_id limit s =
      if ltb 0 after_id
      then get_messages_after room_id after_id limit s
      else if ltb 0 before_id
      then get_messages_before room_id before_id limit s
      else get_latest_messages room_id limit s

  unfoldable pub get_messages :
      (ℕ → ℕ → Bool) → Option ℕ → (user_id after_id before_id : ℕ) → ℤ → State → Answer
  unfolding page_of
  get_messages is_member none user_id after_id before_id limit s = error 40001
  get_messages is_member (some room_id) user_id after_id before_id limit s =
      if not (is_member room_id user_id)
      then error 40301
      else answer_of (page_of room_id after_id before_id (page_limit limit) s)
