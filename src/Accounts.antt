-- ===== src/Accounts.antt =====
-- The accounts: server/internal/model/user.go, server/internal/repository/user.go, the handlers of
-- server/internal/api/handler/auth.go and ToggleUser of admin.go, server/internal/api/middleware/auth.go
-- and the codes of server/pkg/util/response.go. The hashing of passwords, the
-- validation of requests and the JWT library are third-party code, and parameters; of the times only
-- those of the tokens of server/pkg/jwt/jwt.go are here, in seconds.
pub mod Registration
pub mod Access
pub mod Rows
pub mod Tests
use Prim.Native.String
use Prim.Native.String.{String}
use Prim.Native.Char.{code}
use text.Mathlib.Text.{◌==◌ as str_eq}
use nexusroom.Base.{
  ℕ, zero, suc, ◌+◌, ◌*◌, ◌≡◌, Bool, true, false, not, ◌&&◌, ◌||◌, Option, none, some, ◌==◌,
  if◌then◌else◌, leb, ltb,
}
use nexusroom.Orm.{Table, Found, found, not_found, failed}

pub record User : Type 0 where
  pub id : ℕ
  pub user_display_id : String
  pub username : String
  pub password_hash : String
  pub nickname : String
  pub role : String
  pub is_active : Bool

abbrev pub with_user_id : ℕ → User → User
with_user_id n u = record u { id = n }

-- The unique columns.
abbrev pub same_user : User → User → Bool
same_user u v =
    u.id == v.id || (str_eq u.user_display_id v.user_display_id || str_eq u.username v.username)

pub record RegisterRequest : Type 0 where
  pub username : String
  pub password : String
  pub nickname : String
  pub admin_token : String

pub record Claims : Type 0 where
  pub user_id : ℕ
  pub username : String
  pub role : String

-- What `GenerateToken` hands to the JWT library: the claims with their two times.
pub record SignedClaims : Type 0 where
  pub claims : Claims
  pub expires_at : ℕ
  pub issued_at : ℕ

-- bcrypt, the validator, the JWT library, and the configuration. `parse_with_claims` asks a function
-- for the key, which is told whether the token was signed by HMAC; it answers with the claims and
-- whether the token is valid, or with an error. `signed_string` signs by HMAC: what it signed is
-- parsed with the same key before it expires, and is an error from then on.
pub record Library : Type 0 where
  pub hash : String → Option String
  pub matches : (hashed password : String) → Bool
  pub is_valid : RegisterRequest → Bool
  pub admin_token : String
  pub jwt_secret : String
  pub jwt_expire_hours : ℕ
  pub signed_string : (secret : String) → SignedClaims → Option String
  pub parse_with_claims :
      (key : Bool → Option String) (now : ℕ) → String → Option (SignedClaims × Bool)
  pub parse_signed :
      (secret : String) (key : Bool → Option String) (c : SignedClaims) (t : String) (now : ℕ)
      → key true ≡ some secret
      → signed_string secret c ≡ some t
      → parse_with_claims key now t ≡ (if ltb now c.expires_at then some (c, true) else none)

-- `GenerateToken` at the time `now`.
unfoldable pub generate_token : Library → (now : ℕ) → Claims → Option String
generate_token x now claims =
    x.signed_string x.jwt_secret
      (record { claims = claims; expires_at = now + x.jwt_expire_hours * 3600; issued_at = now })

abbrev pub signing_key : Library → (is_hmac : Bool) → Option String
signing_key x is_hmac = if is_hmac then some x.jwt_secret else none

abbrev pub valid_claims : Option (SignedClaims × Bool) → Option Claims
valid_claims none = none
valid_claims (some (c, valid)) = if valid then some c.claims else none

-- `ParseToken` at the time `now`; `none` is an error.
unfoldable pub parse_token : Library → (now : ℕ) → String → Option Claims
parse_token x now token = valid_claims (x.parse_with_claims (signing_key x) now token)

pub data Reply : Type 0 where
  done : Reply
  signed_in : (user_id : ℕ) (user_display_id token : String) → Reply
  error : (code : ℕ) → Reply

-- `mapCodeToHTTPStatus`
unfoldable pub map_code_to_http_status : ℕ → ℕ
map_code_to_http_status code =
    if code == 20000
    then 200
    else if leb 40001 code && ltb code 40100
    then 400
    else if leb 40101 code && ltb code 40300
    then 401
    else if leb 40301 code && ltb code 40400
    then 403
    else if leb 40401 code && ltb code 40900
    then 404
    else if leb 40901 code && ltb code 50000
    then 409
    else 500

abbrev pub claims_of : User → Claims
claims_of u = record { user_id = u.id; username = u.username; role = u.role }

abbrev pub signed : User → Option String → Reply
signed u none = error 50001
signed u (some token) = signed_in u.id u.user_display_id token

-- The role that a registration asks for; `none` where the token of the administrators is wrong.
unfoldable pub role_of : (admin_token asked : String) → Option String
role_of admin_token asked =
    if str_eq asked ""
    then some "user"
    else if str_eq admin_token "" || not (str_eq asked admin_token)
    then none
    else some "super_admin"

-- `strings.SplitN` at the first space, where there is one.
unfoldable pub split_space : String → Option (String × String)
split_space String.[] = none
split_space (String.◌∷◌ c s) =
    let rest = split_space s in
    if code c == 32
    then some ("", s)
    else elim rest [ none ↦ none | some (a, b) ↦ some (String.◌∷◌ c a, b) ]

unfoldable pub bearer : Library → (now : ℕ) → Option (String × String) → Option Claims
unfolding parse_token
bearer x now none = none
bearer x now (some (scheme, token)) =
    if str_eq scheme "Bearer" then parse_token x now token else none

-- `AuthMiddleware`: the claims that it stores; `none` is the answer 40101.
unfoldable pub auth_middleware : Library → (now : ℕ) → (header : String) → Option Claims
unfolding split_space bearer
auth_middleware x now header = if str_eq header "" then none else bearer x now (split_space header)

-- `AdminMiddleware` on the claims that are stored: whether the request goes on.
unfoldable pub admin_middleware : Option Claims → Bool
admin_middleware none = false
admin_middleware (some c) = str_eq c.role "super_admin"

module _ (U : Table User with_user_id same_user) where
  open U use {State, create, update_where, first_where}

  -- Create with the hook that fills in a display id; the database's default makes the user active.
  unfoldable pub create_user : (random : String) → User → State → Option User × State
  create_user random u s =
      create
        (record u {
          user_display_id = if str_eq u.user_display_id "" then random else u.user_display_id;
          is_active = true;
        })
        s

  abbrev pub find_by_username : String → State → Found User
  find_by_username username s = first_where (λ u. str_eq u.username username) s

  abbrev pub created_or : Option User × State → (State → Option User × State) → Option User × State
  created_or (some u, s) again = (some u, s)
  created_or (none, s) again = again s

  -- The loop of Register: `n` attempts, each but the first with a new display id.
  unfoldable pub create_loop : ℕ → (random : ℕ → String) → User → State → Option User × State
  unfolding create_user
  create_loop zero random u s = (none, s)
  create_loop (suc n) random u s =
      created_or (create_user (random (suc n)) u s)
        (create_loop n random (record u { user_display_id = random n }))

  unfoldable pub registered : Library → (now : ℕ) → Option User × State → Reply × State
  unfolding generate_token
  registered x now (none, s) = (error 50001, s)
  registered x now (some u, s) = (signed u (generate_token x now (claims_of u)), s)

  abbrev pub new_user : RegisterRequest → (password_hash role : String) → User
  new_user q password_hash role = record {
    id = 0;
    user_display_id = "";
    username = q.username;
    password_hash = password_hash;
    nickname = q.nickname;
    role = role;
    is_active = false;
  }

  unfoldable pub register_as :
      Library
      → (now : ℕ) → (ℕ → String)
      → RegisterRequest
      → (hashed role : Option String) → State
      → Reply × State
  unfolding create_loop registered
  register_as x now random q none role s = (error 50001, s)
  register_as x now random q (some hashed) none s = (error 40302, s)
  register_as x now random q (some hashed) (some role) s =
      registered x now (create_loop 3 random (new_user q hashed role) s)

  abbrev pub is_found : Found User → Bool
  is_found (found u) = true
  is_found not_found = false
  is_found failed = false

  -- POST /auth/register; the request is `none` where its body does not parse.
  unfoldable pub register :
      Library → (now : ℕ) → (random : ℕ → String) → Option RegisterRequest → State → Reply × State
  unfolding register_as role_of
  register x now random none s = (error 40001, s)
  register x now random (some q) s =
      if not (x.is_valid q)
      then (error 40001, s)
      else if is_found (find_by_username q.username s)
      then (error 40901, s)
      else register_as x now random q (x.hash q.password) (role_of x.admin_token q.admin_token) s

  -- The time of the last login is not modelled: the statement changes no other column.
  unfoldable pub update_last_login : ℕ → State → State
  update_last_login user_id s = (update_where (λ u. u.id == user_id) (λ u. u) s).1

  unfoldable pub login_as :
      Library → (now : ℕ) → (password : String) → Found User → State → Reply × State
  unfolding update_last_login generate_token
  login_as x now password not_found s = (error 40101, s)
  login_as x now password failed s = (error 40101, s)
  login_as x now password (found u) s =
      if not (x.matches u.password_hash password)
      then (error 40101, s)
      else if not u.is_active
      then (error 40301, s)
      else (signed u (generate_token x now (claims_of u)), update_last_login u.id s)

  -- POST /auth/login
  unfoldable pub login : Library → (now : ℕ) → Option (String × String) → State → Reply × State
  unfolding login_as
  login x now none s = (error 40001, s)
  login x now (some (username, password)) s =
      login_as x now password (find_by_username username s) s

  unfoldable pub set_active : ℕ → Bool → State → Bool × State
  set_active user_id active s =
      update_where (λ u. u.id == user_id) (λ u. record u { is_active = active }) s

  abbrev pub toggled : Bool × State → Reply × State
  toggled (true, s) = (done, s)
  toggled (false, s) = (error 50001, s)

  -- PATCH /admin/users/:userId; the user's id and the body are `none` where they do not parse.
  unfoldable pub toggle_user : Option ℕ → Option Bool → State → Reply × State
  unfolding set_active
  toggle_user none active s = (error 40001, s)
  toggle_user (some user_id) none s = (error 40001, s)
  toggle_user (some user_id) (some active) s = toggled (set_active user_id active s)
