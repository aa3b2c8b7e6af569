-- ===== src/Accounts/Tests.antt =====
-- Two accounts in a table in memory.
use Prim.Native.String.{String}
use text.Mathlib.Text.{◌==◌ as str_eq}
use text.Mathlib.TextEquality.{eq_iff}
use nexusroom.Base.{
  ℕ, ltb, Bool, sym, ap, inl, inr, arith, Bool-cases, ◌≡◌, ◌⊎◌, refl, true, false, Option, none,
  some, [], ◌∷◌, ◌==◌, if◌then◌else◌, any,
}
use nexusroom.Orm.{Table}
use nexusroom.Orm.Memory.{memory}
use nexusroom.Accounts.{
  User, with_user_id, same_user, RegisterRequest, Claims, SignedClaims, Library, register,
}
use nexusroom.Accounts.Registration.{Refused, Registered, register-Registered}
use nexusroom.Accounts.Rows.{Inv, registers, logs_in, toggles, run_requests, run_requests-Inv}

abbrev users : Table User with_user_id same_user
users = memory with_user_id same_user

abbrev ann : User
ann = record {
  id = 1;
  user_display_id = "10001";
  username = "ann";
  password_hash = "secret";
  nickname = "Ann";
  role = "user";
  is_active = true;
}

abbrev ann_claims : Claims
ann_claims = record { user_id = 1; username = "ann"; role = "user" }

-- Only Ann is signed for, and only at the time 1000.
abbrev sign : SignedClaims → Option String
sign c =
    if str_eq c.claims.username "ann"
    then if str_eq c.claims.role "user"
      then if c.claims.user_id == 1
        then if c.expires_at == 87400 then if c.issued_at == 1000 then some "t" else none else none
        else none
      else none
    else none

-- The one token that there is.
abbrev ann_signed : SignedClaims
ann_signed = record { claims = ann_claims; expires_at = 87400; issued_at = 1000 }

signed_eq :
    (c : SignedClaims)
    → c.claims.user_id ≡ 1
    → c.claims.username ≡ "ann"
    → c.claims.role ≡ "user"
    → c.expires_at ≡ 87400
    → c.issued_at ≡ 1000
    → ann_signed ≡ c
signed_eq c a b d e f i = record {
  claims = record { user_id = sym a i; username = sym b i; role = sym d i };
  expires_at = sym e i;
  issued_at = sym f i;
}

sign_lem : (c : SignedClaims) (t : String) → sign c ≡ some t → ann_signed ≡ c
sign_lem c t h = elim (Bool-cases (str_eq c.claims.username "ann")) [
  | inr a ↦ cc (rw a at h)
  | inl a ↦ elim (Bool-cases (str_eq c.claims.role "user")) [
    | inr b ↦ cc (rw (a, b) at h)
    | inl b ↦ elim (Bool-cases (c.claims.user_id == 1)) [
      | inr d ↦ cc (rw (a, b, d) at h)
      | inl d ↦ elim (Bool-cases (c.expires_at == 87400)) [
        | inr e ↦ cc (rw (a, b, d, e) at h)
        | inl e ↦ elim (Bool-cases (c.issued_at == 1000)) [
          | inr f ↦ cc (rw (a, b, d, e, f) at h)
          | inl f ↦
              signed_eq c (ground (arith, d)) ((eq_iff c.claims.username "ann").0 a)
                ((eq_iff c.claims.role "user").0 b) (ground (arith, e)) (ground (arith, f))
        ]
      ]
    ]
  ]
]

abbrev parse_until : ℕ → SignedClaims → Option (SignedClaims × Bool)
parse_until now c = if ltb now c.expires_at then some (c, true) else none

abbrev parse : ℕ → Option (SignedClaims × Bool)
parse now = parse_until now ann_signed

parse_signed :
    (c : SignedClaims) (t : String) (now : ℕ)
    → sign c ≡ some t
    → parse now ≡ (if ltb now c.expires_at then some (c, true) else none)
parse_signed c t now h = ap (parse_until now) (sign_lem c t h)

abbrev library : Library
library = record {
  hash = λ p. some p;
  matches = λ h p. str_eq h p;
  is_valid = λ q. true;
  admin_token = "";
  jwt_secret = "key";
  jwt_expire_hours = 24;
  signed_string = λ secret c. sign c;
  parse_with_claims = λ key now t. parse now;
  parse_signed = λ secret key c t now k. parse_signed c t now;
}

abbrev request : RegisterRequest
request = record { username = "ann"; password = "secret"; nickname = "Ann"; admin_token = "" }

register-Registered_example :
    Refused users [] (register users library 1000 (λ n. "10001") (some request) [])
    ⊎ Registered users library 1000 request []
        (register users library 1000 (λ n. "10001") (some request) [])
register-Registered_example = register-Registered users library 1000 (λ n. "10001") request []

ann-Inv : Inv users library (ann ∷ [])
unfolding any
ann-Inv = record { unique = (refl, tt); plain = λ t. (refl, tt) }

run_requests-Inv_example : Inv users library (
    run_requests users library
      (registers 5 (λ n. "10002") (some (record request { username = "bob" }))
        ∷ toggles (some 1) (some false)
        ∷ logs_in 6 (some ("bob", "secret"))
        ∷ [])
      (ann ∷ []))
run_requests-Inv_example =
    run_requests-Inv users library
      (registers 5 (λ n. "10002") (some (record request { username = "bob" }))
        ∷ toggles (some 1) (some false)
        ∷ logs_in 6 (some ("bob", "secret"))
        ∷ [])
      (ann ∷ []) ann-Inv
