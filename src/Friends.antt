-- ===== src/Friends.antt =====
-- server/internal/repository/friendship.go and server/internal/api/handler/friend.go. A handler
-- takes what the framework has bound of the request (`none` where the binding or the parsing of a
-- path parameter fails), and returns the answer's code with the new state. The messages that go
-- with the codes, and the two listings, which only read, are left out.
pub mod Pairs
pub mod Handlers
pub mod Answers
pub mod Tests
use Prim.Native.String.{String}
use text.Mathlib.Text.{◌==◌ as str_eq}
use nexusroom.Base.{
  ℕ, ◌≡◌, Bool, true, false, ◌&&◌, ◌||◌, Option, none, some, List, [], ◌∷◌, ◌++◌, ◌==◌,
  if◌then◌else◌,
}
use nexusroom.Orm.{Table, Found, found, not_found, failed}

pub record Friendship : Type 0 where
  pub requester_id : ℕ
  pub addressee_id : ℕ
  pub status : String

-- The columns of a user that the handlers read.
pub record User : Type 0 where
  pub id : ℕ
  pub user_display_id : String
  pub nickname : String

-- The primary key of `friendships` is the pair of columns; no key is generated.
abbrev pub same_friendship : Friendship → Friendship → Bool
same_friendship f g = f.requester_id == g.requester_id && f.addressee_id == g.addressee_id

abbrev pub keep_id : ℕ → Friendship → Friendship
keep_id n f = f

-- (requester_id = a AND addressee_id = b) OR (requester_id = b AND addressee_id = a)
abbrev pub between : ℕ → ℕ → Friendship → Bool
between a b f =
    (f.requester_id == a && f.addressee_id == b) || (f.requester_id == b && f.addressee_id == a)

-- What the hub is asked to send.
pub data Event : Type 0 where
  friend_request : (to_user from_user_id : ℕ) (nickname : String) → Event
  friend_accepted : (to_user user_id : ℕ) (nickname : String) → Event

pub data Answer : Type 0 where
  success : Answer
  error : ℕ → Answer

module _ (F : Table Friendship keep_id same_friendship) where
  open F use {State, create, delete_where, update_where, first_where}

  pub find_by_users : ℕ → ℕ → State → Found Friendship
  find_by_users a b = first_where (between a b)

  pub update_status : ℕ → ℕ → String → State → Bool × State
  update_status requester addressee status =
      update_where (λ f. f.requester_id == requester && f.addressee_id == addressee)
        (λ f. record f { status = status })

  pub delete_friendship : ℕ → ℕ → State → Bool × State
  delete_friendship a b = delete_where (between a b)

  pub record Outcome : Type 0 where
    pub answer : Answer
    pub events : List Event
    pub state : State

  abbrev pub refuse : ℕ → State → Outcome
  refuse code s = record { answer = error code; events = []; state = s }

  -- The user table is read by its two queries; a query that fails is `none`.
  module _ (find_by_id : ℕ → Option User) (find_by_display_id : String → Option User) where
    abbrev pub nickname_of : Option User → String
    nickname_of none = ""
    nickname_of (some user) = user.nickname

    abbrev pub sent : ℕ → ℕ → Option Friendship × State → Outcome
    sent user_id target (none, s) = refuse 50001 s
    sent user_id target (some row, s) = record {
      answer = success;
      events = friend_request target user_id (nickname_of (find_by_id user_id)) ∷ [];
      state = s;
    }

    -- `SendRequest`, from the creation of the row on.
    pub create_request : ℕ → ℕ → State → Outcome
    create_request user_id target s =
        sent user_id target
          (create (record { requester_id = user_id; addressee_id = target; status = "pending" }) s)

    -- The switch on the status of a relation that exists.
    pub on_existing : ℕ → ℕ → Found Friendship → State → Outcome
    unfolding create_request delete_friendship
    on_existing user_id target (found existing) s =
        if str_eq existing.status "accepted"
        then refuse 40901 s
        else if str_eq existing.status "pending"
        then refuse 40901 s
        else if str_eq existing.status "rejected"
        then create_request user_id target (delete_friendship user_id target s).1
        else create_request user_id target s
    on_existing user_id target not_found s = create_request user_id target s
    on_existing user_id target failed s = create_request user_id target s

    pub send_to : ℕ → Option User → State → Outcome
    unfolding on_existing find_by_users
    send_to user_id none s = refuse 40401 s
    send_to user_id (some target) s =
        if target.id == user_id
        then refuse 40001 s
        else on_existing user_id target.id (find_by_users user_id target.id s) s

    -- POST /friends/request
    pub send_request : Option String → ℕ → State → Outcome
    unfolding send_to
    send_request none user_id s = refuse 40001 s
    send_request (some display_id) user_id s = send_to user_id (find_by_display_id display_id) s

    abbrev pub handled : ℕ → ℕ → String → Bool × State → Outcome
    handled requester user_id status (false, s) = refuse 50001 s
    handled requester user_id status (true, s) = record {
      answer = success;
      events =
          if str_eq status "accepted"
          then friend_accepted requester user_id (nickname_of (find_by_id user_id)) ∷ []
          else [];
      state = s;
    }

    pub handle_found : ℕ → String → ℕ → Found Friendship → State → Outcome
    unfolding update_status
    handle_found requester action user_id not_found s = refuse 40401 s
    handle_found requester action user_id failed s = refuse 50001 s
    handle_found requester action user_id (found f) s =
        if f.addressee_id == user_id
        then (if str_eq f.status "pending"
            then (let status = if str_eq action "accept" then "accepted" else "rejected" in
                handled requester user_id status
                  (update_status f.requester_id f.addressee_id status s))
            else refuse 40001 s)
        else refuse 40301 s

    -- PATCH /friends/request/:requestId; the binding lets only accept and reject pass.
    pub handle_request : Option ℕ → Option String → ℕ → State → Outcome
    unfolding handle_found find_by_users
    handle_request none action user_id s = refuse 40001 s
    handle_request (some requester) none user_id s = refuse 40001 s
    handle_request (some requester) (some action) user_id s =
        handle_found requester action user_id (find_by_users requester user_id s) s
