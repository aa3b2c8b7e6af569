-- ===== src/Accounts/Access.antt =====
-- `Login` and `AuthMiddleware`: who is let in, also after an administrator has disabled the account.

use Prim.Native.String.{String}
use text.Mathlib.Text.{◌==◌ as str_eq}
use nexusroom.Base.{
  ℕ, ◌+◌, ◌*◌, ltb, ◌≡◌, true, false, Option, none, some, List, ◌∷◌, ◌++◌, ◌==◌, if◌then◌else◌,
}
use nexusroom.Orm.{Table}
use nexusroom.Accounts.{User, with_user_id, same_user, Claims, Library, claims_of, auth_middleware}

-- The text "Bearer ", followed by the token.
abbrev pub header : String → String
header token = String.◌∷◌ "B" (
    String.◌∷◌ "e"
      (String.◌∷◌ "a" (String.◌∷◌ "r" (String.◌∷◌ "e" (String.◌∷◌ "r" (String.◌∷◌ " " token))))))

-- The claims of a token before it expires, and none from then on.
abbrev pub until : (expires_at later : ℕ) → Claims → Option Claims
until expires_at later c = if ltb later expires_at then some c else none

module _ (x : Library) where
  -- When a token that is signed now expires.
  abbrev pub life : ℕ → ℕ
  life now = now + x.jwt_expire_hours * 3600

  module _ (U : Table User with_user_id same_user) where
    open U use {State, rows}

    -- The account that a login is for.
    pub record LoggedIn (now : ℕ) (name password : String) (user_id : ℕ) (token : String)
        (s : State) : Type 0 where
      pub user : User
      pub before : List User
      pub after : List User
      pub row : rows s ≡ before ++ user ∷ after
      pub username : user.username ≡ name
      pub id : user.id ≡ user_id
      pub matches : x.matches user.password_hash password ≡ true
      pub is_active : user.is_active ≡ true
      pub admitted :
          (later : ℕ)
          → auth_middleware x later (header token) ≡ until (life now) later (claims_of user)

    abbrev disabled : ℕ → User → User
    disabled user_id u = if u.id == user_id then record u { is_active = false } else u
