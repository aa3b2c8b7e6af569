-- ===== src/Accounts/Registration.antt =====
-- `Register`: what becomes of the table, on each of its branches.
use Prim.Native.String.{String}
use text.Mathlib.Text.{◌==◌ as str_eq}
use text.Mathlib.TextEquality.{eq_iff}
use nexusroom.Base.{
  ℕ, zero, suc, ◌≡◌, ◌≢◌, refl, sym, ap, ◌∙◌, ◌⊎◌, inl, inr, Bool, true, false, not, Option, none,
  some, List, [], ◌∷◌, ◌++◌, if◌then◌else◌, any, arith, Bool-cases,
}
use nexusroom.Orm.{Table}
use nexusroom.Accounts.{
  User, with_user_id, same_user, RegisterRequest, Library, Reply, error, signed_in, signed,
  claims_of, generate_token, role_of, create_user, create_loop, created_or, registered, new_user,
  register_as, is_found, find_by_username, register,
}

-- Who sends no token becomes a user; who sends the configured one becomes an administrator.
abbrev pub RoleAllowed : (admin_token asked role : String) → Type 0
RoleAllowed admin_token asked role =
    ((asked ≡ "") × (role ≡ "user"))
    ⊎ ((asked ≢ "") × (asked ≡ admin_token) × (role ≡ "super_admin"))

-- The answer to a registration that stored the user, where the signing gave `signature`.
abbrev pub Answered : User → (signature : Option String) → Reply → Type 0
Answered user signature reply =
    ((signature ≡ none) × (reply ≡ error 50001))
    ⊎ ((token : String) × (signature ≡ some token)
        × (reply ≡ signed_in user.id user.user_display_id token))

signed-Answered : (u : User) (signature : Option String) → Answered u signature (signed u signature)
signed-Answered u none = inl (refl, refl)
signed-Answered u (some token) = inr (token, refl, refl)

role_of-RoleAllowed :
    (admin_token asked role : String)
    → role_of admin_token asked ≡ some role
    → RoleAllowed admin_token asked role
unfolding role_of
role_of-RoleAllowed admin_token asked role h = elim (Bool-cases (str_eq asked "")) [
  | inl e ↦ let same : "user" ≡ role = cc (rw e at h) in inl ((eq_iff asked "").0 e, sym same)
  | inr e ↦
      let sent : asked ≢ "" = λ i. cc ((eq_iff asked "").1 i, e) in
      elim (Bool-cases (str_eq admin_token "")) [
        | inl f ↦ cc (rw (e, f) at h)
        | inr f ↦ elim (Bool-cases (str_eq asked admin_token)) [
          | inl g ↦
              let same : "super_admin" ≡ role = cc (rw (e, f, g) at h) in
              inr (sent, (eq_iff asked admin_token).0 g, sym same)
          | inr g ↦ cc (rw (e, f, g) at h)
        ]
      ]
]

module _ (U : Table User with_user_id same_user) where
  open U use {State, rows}

  -- The row that was stored for the user u: its keys are new, and it is the last one of the table.
  pub record Stored (u v : User) (s s' : State) : Type 0 where
    pub username : v.username ≡ u.username
    pub password_hash : v.password_hash ≡ u.password_hash
    pub role : v.role ≡ u.role
    pub is_active : v.is_active ≡ true
    pub keys : any (same_user v) (rows s) ≡ false
    pub added : rows s' ≡ rows s ++ v ∷ []

  -- What an attempt to store comes to.
  abbrev Attempted : User → State → Option User × State → Type 0
  Attempted u s (none, s') = rows s' ≡ rows s
  Attempted u s (some v, s') = Stored u v s s'

  attempted :
      (u : User) (s : State) (o : Option User × State)
      → (o.0 ≡ none → rows o.1 ≡ rows s)
      → ((v : User) → o.0 ≡ some v → Stored u v s o.1)
      → Attempted u s o
  attempted u s (none, s') n k = n refl
  attempted u s (some v, s') n k = k v refl

  create_user-Attempted :
      (random : String) (u : User) (s : State) → Attempted u s (create_user U random u s)
  unfolding create_user
  create_user-Attempted random u s =
      let row : User = record u {
        user_display_id = if str_eq u.user_display_id "" then random else u.user_display_id;
        is_active = true;
      } in
      attempted u s (U.create row s) (U.create_failed row s) (λ v h.
        let (n, is, keys, added) = U.create_ok row s v h in
        record {
          username = ap (λ (w : User). w.username) is;
          password_hash = ap (λ (w : User). w.password_hash) is;
          role = ap (λ (w : User). w.role) is;
          is_active = ap (λ (w : User). w.is_active) is;
          keys = keys;
          added = added;
        })

  moved_on :
      (u u' : User) (s s' : State) (o : Option User × State)
      → u'.username ≡ u.username
      → u'.password_hash ≡ u.password_hash
      → u'.role ≡ u.role
      → rows s' ≡ rows s
      → Attempted u' s' o
      → Attempted u s o
  moved_on u u' s s' (none, s'') name hash role h a = a ∙ h
  moved_on u u' s s' (some v, s'') name hash role h a = record {
    username = a.username ∙ name;
    password_hash = a.password_hash ∙ hash;
    role = a.role ∙ role;
    is_active = a.is_active;
    keys = rw (← h) a.keys;
    added = a.added ∙ ap (λ (us : List User). us ++ v ∷ []) h;
  }

  -- The attempts after a failed one are for a user who differs in the display id only.
  again :
      (u u' : User) (s : State) (o : Option User × State) (k : State → Option User × State)
      → u'.username ≡ u.username
      → u'.password_hash ≡ u.password_hash
      → u'.role ≡ u.role
      → Attempted u s o
      → ((s' : State) → Attempted u' s' (k s'))
      → Attempted u s (created_or U o k)
  again u u' s (some v, s') k name hash role h next = h
  again u u' s (none, s') k name hash role h next =
      moved_on u u' s s' (k s') name hash role h (next s')

  create_loop-Attempted :
      (n : ℕ) (random : ℕ → String) (u : User) (s : State)
      → Attempted u s (create_loop U n random u s)
  unfolding create_loop
  create_loop-Attempted zero random u s = refl
  create_loop-Attempted (suc n) random u s =
      let u' : User = record u { user_display_id = random n } in
      again u u' s (create_user U (random (suc n)) u s) (create_loop U n random u') refl refl refl
        (create_user-Attempted (random (suc n)) u s) (create_loop-Attempted n random u')

  -- A registration that is refused leaves the rows as they were. One that is not has stored a row.
  abbrev pub Refused : State → Reply × State → Type 0
  Refused s (reply, s') = (code : ℕ) × (reply ≡ error code) × (rows s' ≡ rows s)

  pub record Registered (x : Library) (now : ℕ) (q : RegisterRequest) (s : State)
      (o : Reply × State) : Type 0 where
    pub user : User
    pub stored : Stored user user s o.1
    pub username : user.username ≡ q.username
    pub valid : x.is_valid q ≡ true
    pub hashed : x.hash q.password ≡ some user.password_hash
    pub role : RoleAllowed x.admin_token q.admin_token user.role
    pub reply : Answered user (generate_token x now (claims_of user)) o.0

  module _ (x : Library) (now : ℕ) (q : RegisterRequest) (s : State)
      (valid : x.is_valid q ≡ true) where
    loop_lem :
        (hashed role : String) (o : Option User × State)
        → x.hash q.password ≡ some hashed
        → role_of x.admin_token q.admin_token ≡ some role
        → Attempted (new_user U q hashed role) s o
        → Refused s (registered U x now o) ⊎ Registered x now q s (registered U x now o)
    unfolding registered
    loop_lem hashed role (none, s') h r a = inl (50001, refl, a)
    loop_lem hashed role (some v, s') h r a = inr (record {
      user = v;
      stored = record {
        username = refl;
        password_hash = refl;
        role = refl;
        is_active = a.is_active;
        keys = a.keys;
        added = a.added;
      };
      username = a.username;
      valid = valid;
      hashed = h ∙ ap (λ (t : String). some t) (sym a.password_hash);
      role =
          role_of-RoleAllowed x.admin_token q.admin_token v.role
            (r ∙ ap (λ (t : String). some t) (sym a.role));
      reply = signed-Answered v (generate_token x now (claims_of v));
    })

    register_as_lem :
        (random : ℕ → String) (h r : Option String)
        → x.hash q.password ≡ h
        → role_of x.admin_token q.admin_token ≡ r
        → Refused s (register_as U x now random q h r s)
          ⊎ Registered x now q s (register_as U x now random q h r s)
    unfolding register_as registered
    register_as_lem random none r eh er = inl (50001, refl, refl)
    register_as_lem random (some hashed) none eh er = inl (40302, refl, refl)
    register_as_lem random (some hashed) (some role) eh er =
        loop_lem hashed role (create_loop U 3 random (new_user U q hashed role) s) eh er
          (create_loop-Attempted 3 random (new_user U q hashed role) s)

  if_both :
      (P : Reply × State → Type 0) (b : Bool) (y z : Reply × State)
      → P y
      → (b ≡ false → P z)
      → P (if b then y else z)
  if_both P true y z py pz = py
  if_both P false y z py pz = pz refl

  -- A registration either is refused with a code and leaves the rows as they were, or the request
  -- was valid and the table has gained one row, at its end, with keys that no other row has: it has
  -- the name of the request, the hash of its password and the role of a user where
  -- it sent no token, or of an administrator where it sent the configured one. The answer has the
  -- row's ids and the signed token, or is an error where the signing fails.
  pub register-Registered :
      (x : Library) (now : ℕ) (random : ℕ → String) (q : RegisterRequest) (s : State)
      → Refused s (register U x now random (some q) s)
        ⊎ Registered x now q s (register U x now random (some q) s)
  unfolding register
  register-Registered x now random q s =
      let P = λ (o : Reply × State). Refused s o ⊎ Registered x now q s o in
      if_both P (not (x.is_valid q)) (error 40001, s) _ (inl (40001, refl, refl))
        (λ valid.
          if_both P (is_found U (find_by_username U q.username s)) (error 40901, s) _
            (inl (40901, refl, refl))
            (λ absent.
              register_as_lem x now q s (ground (arith, valid)) random (x.hash q.password)
                (role_of x.admin_token q.admin_token) refl refl))
