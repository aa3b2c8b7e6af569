-- ===== src/Accounts/Rows.antt =====
-- The rows of the accounts under any sequence of registrations, logins and changes by administrators.
use Prim.Native.String.{String}
use text.Mathlib.Text.{◌==◌ as str_eq}
use text.Mathlib.TextEquality.{eq_iff}
use nexusroom.Base.{
  ℕ, ◌≡◌, refl, sym, ap₂, subst, ◌∙◌, inl, inr, Bool, true, false, ◌||◌, Option, none, some, List,
  [], ◌∷◌, ◌++◌, ◌==◌, if◌then◌else◌, any, map, arith, Bool-cases, All,
}
use nexusroom.Orm.{Table, Found, found, not_found, failed}
use nexusroom.Accounts.{
  User, with_user_id, same_user, RegisterRequest, Library, find_by_username, register,
  update_last_login, login_as, login, set_active, toggled, toggle_user,
}
use nexusroom.Accounts.Registration.{RoleAllowed, register-Registered}

-- No two rows agree in a unique column.
abbrev pub Unique : List User → Type 0
Unique [] = Unit
Unique (u ∷ us) = (any (same_user u) us ≡ false) × Unique us

str_eq_sym : (a b : String) → str_eq a b ≡ str_eq b a
str_eq_sym a b = elim (Bool-cases (str_eq a b)) [
  | inl e ↦ let same = (eq_iff a b).0 e in e ∙ sym ((eq_iff b a).1 (sym same))
  | inr e ↦ elim (Bool-cases (str_eq b a)) [
    | inr f ↦ e ∙ sym f
    | inl f ↦ let same = (eq_iff b a).0 f in cc ((eq_iff a b).1 (sym same), e)
  ]
]

id_sym : (a b : ℕ) → (a == b) ≡ (b == a)
id_sym a b = ground arith

same_user_sym : (u v : User) → same_user u v ≡ same_user v u
same_user_sym u v =
    ap₂ ◌||◌ (id_sym u.id v.id)
      (ap₂ ◌||◌ (str_eq_sym u.user_display_id v.user_display_id) (str_eq_sym u.username v.username))

any_snoc : (p : User → Bool) (us : List User) (v : User) → any p (us ++ v ∷ []) ≡ (any p us || p v)
unfolding any
any_snoc p [] v = ground arith
any_snoc p (u ∷ us) v = elim (Bool-cases (p u)) [
  | inl e ↦ rw e refl
  | inr e ↦ rw e (any_snoc p us v)
]

or_false : (a b : Bool) → (a || b) ≡ false → (a ≡ false) × (b ≡ false)
or_false true b h = cc
or_false false b h = (refl, h)

snoc-Unique :
    (us : List User) (v : User) → Unique us → any (same_user v) us ≡ false → Unique (us ++ v ∷ [])
unfolding any
snoc-Unique [] v h new = (refl, tt)
snoc-Unique (u ∷ us) v (h, hs) new =
    let (first, rest) = or_false (same_user v u) (any (same_user v) us) new in
    (any_snoc (same_user u) us v ∙ rw h (same_user_sym u v ∙ first), snoc-Unique us v hs rest)

module _ (P : User → Type 0) where
  All-snoc : (us : List User) (v : User) → All P us → P v → All P (us ++ v ∷ [])
  All-snoc [] v h k = (k, tt)
  All-snoc (u ∷ us) v (h, hs) k = (h, All-snoc us v hs k)

-- What a change of rows leaves as it was.
abbrev Keeps : (User → User) → Type 0
Keeps g =
    (u : User)
    → ((g u).id ≡ u.id)
      × ((g u).user_display_id ≡ u.user_display_id)
      × ((g u).username ≡ u.username)
      × ((g u).role ≡ u.role)

same-Keeps : (g : User → User) (u v : User) → Keeps g → same_user (g u) (g v) ≡ same_user u v
same-Keeps g u v k =
    let (a, b, c, _) = k u in
    let (a', b', c', _) = k v in
    ap₂ ◌||◌ (ap₂ ◌==◌ a a') (ap₂ ◌||◌ (ap₂ str_eq b b') (ap₂ str_eq c c'))

any-Keeps :
    (g : User → User) (u : User) (us : List User)
    → Keeps g
    → any (same_user (g u)) (map g us) ≡ any (same_user u) us
unfolding any
any-Keeps g u [] k = refl
any-Keeps g u (v ∷ us) k = ap₂ ◌||◌ (same-Keeps g u v k) (any-Keeps g u us k)

map-Unique : (g : User → User) (us : List User) → Keeps g → Unique us → Unique (map g us)
map-Unique g [] k h = tt
map-Unique g (u ∷ us) k (h, hs) = (any-Keeps g u us k ∙ h, map-Unique g us k hs)

abbrev IsPlain : User → Type 0
IsPlain u = u.role ≡ "user"

map-IsPlain : (g : User → User) (us : List User) → Keeps g → All IsPlain us → All IsPlain (map g us)
map-IsPlain g [] k h = tt
map-IsPlain g (u ∷ us) k (h, hs) = ((k u).3 ∙ h, map-IsPlain g us k hs)

if_Keeps : (p : User → Bool) (g : User → User) → Keeps g → Keeps (λ u. if p u then g u else u)
if_Keeps p g k u = elim (Bool-cases (p u)) [
  | inl e ↦ rw e (k u)
  | inr e ↦ rw e (refl, refl, refl, refl)
]

plain_role :
    (admin_token asked role : String)
    → admin_token ≡ ""
    → RoleAllowed admin_token asked role
    → role ≡ "user"
plain_role admin_token asked role t (inl (_, h)) = h
plain_role admin_token asked role t (inr (sent, same, _)) = absurd (sent (same ∙ t))

module _ (U : Table User with_user_id same_user) (x : Library) where
  open U use {State, rows}

  -- No two accounts agree in a unique column; and where no token for administrators is configured,
  -- nobody is one.
  pub record Inv (s : State) : Type 0 where
    pub unique : Unique (rows s)
    pub plain : x.admin_token ≡ "" → All IsPlain (rows s)

  same-Inv : (s s' : State) → rows s' ≡ rows s → Inv s → Inv s'
  same-Inv s s' h i = record { unique = rw h i.unique; plain = λ t. rw h (i.plain t) }

  update-Inv :
      (p : User → Bool) (g : User → User) (s : State)
      → Keeps g
      → Inv s
      → Inv (U.update_where p g s).1
  update-Inv p g s k i = elim (Bool-cases (U.update_where p g s).0) [
    | inr e ↦ same-Inv s (U.update_where p g s).1 (U.update_failed p g s e) i
    | inl e ↦
        let changed = U.update_ok p g s e in
        let f : User → User = λ u. if p u then g u else u in
        record {
          unique = rw changed (map-Unique f (rows s) (if_Keeps p g k) i.unique);
          plain = λ t. rw changed (map-IsPlain f (rows s) (if_Keeps p g k) (i.plain t));
        }
  ]

  pub data Request : Type 0 where
    registers : (now : ℕ) (random : ℕ → String) → Option RegisterRequest → Request
    logs_in : (now : ℕ) → Option (String × String) → Request
    toggles : (user_id : Option ℕ) (active : Option Bool) → Request

  unfoldable pub handle : Request → State → State
  unfolding register login toggle_user
  handle (registers now random q) s = (register U x now random q s).1
  handle (logs_in now credentials) s = (login U x now credentials s).1
  handle (toggles user_id active) s = (toggle_user U user_id active s).1

  unfoldable pub run_requests : List Request → State → State
  unfolding handle
  run_requests [] s = s
  run_requests (q ∷ qs) s = run_requests qs (handle q s)

  register-Inv :
      (now : ℕ) (random : ℕ → String) (q : Option RegisterRequest) (s : State)
      → Inv s
      → Inv (register U x now random q s).1
  unfolding register
  register-Inv now random none s i = i
  register-Inv now random (some q) s i = elim (register-Registered U x now random q s) [
    | inl (code, _, same) ↦ same-Inv s (register U x now random (some q) s).1 same i
    | inr r ↦ record {
      unique = rw r.stored.added (snoc-Unique (rows s) r.user i.unique r.stored.keys);
      plain = λ t. rw r.stored.added (
          All-snoc IsPlain (rows s) r.user (i.plain t)
            (plain_role x.admin_token q.admin_token r.user.role t r.role));
    }
  ]

  login_as-Inv :
      (now : ℕ) (password : String) (o : Found User) (s : State)
      → Inv s
      → Inv (login_as U x now password o s).1
  unfolding login_as update_last_login
  login_as-Inv now password not_found s i = i
  login_as-Inv now password failed s i = i
  login_as-Inv now password (found u) s i = elim (Bool-cases (x.matches u.password_hash password)) [
    | inr a ↦ rw a i
    | inl a ↦ elim (Bool-cases u.is_active) [
      | inr b ↦ rw (a, b) i
      | inl b ↦
          rw (a, b)
            (update-Inv (λ (v : User). v.id == u.id) (λ (v : User). v) s
              (λ v. (refl, refl, refl, refl)) i)
    ]
  ]

  toggled_state : (o : Bool × State) → (toggled U o).1 ≡ o.1
  toggled_state (true, s) = refl
  toggled_state (false, s) = refl

  handle-Inv : (q : Request) (s : State) → Inv s → Inv (handle q s)
  unfolding handle login toggle_user set_active
  handle-Inv (registers now random q) s i = register-Inv now random q s i
  handle-Inv (logs_in now none) s i = i
  handle-Inv (logs_in now (some (name, password))) s i =
      login_as-Inv now password (find_by_username U name s) s i
  handle-Inv (toggles none active) s i = i
  handle-Inv (toggles (some user_id) none) s i = i
  handle-Inv (toggles (some user_id) (some active)) s i =
      subst Inv (sym (toggled_state (set_active U user_id active s))) (
        update-Inv (λ (u : User). u.id == user_id) (λ (u : User). record u { is_active = active }) s
          (λ u. (refl, refl, refl, refl)) i)

  -- Through any sequence of registrations, logins and changes by administrators, whichever
  -- statements fail, no two accounts come to agree in an id, a display id or a name; and where no
  -- token for administrators is configured, nobody becomes an administrator.
  pub run_requests-Inv : (qs : List Request) (s : State) → Inv s → Inv (run_requests qs s)
  unfolding run_requests
  run_requests-Inv [] s i = i
  run_requests-Inv (q ∷ qs) s i = run_requests-Inv qs (handle q s) (handle-Inv q s i)
