-- ===== src/Orm.antt =====
-- The object mapper (gorm over SQLite) that the repositories call, as an interface: what they rely
-- on of one table. The mapper is third-party code, so its states and statements are parameters.
pub mod Memory
use nexusroom.Base.{
  ℕ, ◌≡◌, Bool, true, false, not, Option, none, some, List, [], ◌∷◌, ◌++◌, map, any, count, filter,
  if◌then◌else◌,
}

-- The outcome of `First`: a row, gorm.ErrRecordNotFound, or another error.
pub data Found {ℓ} (Row : Type ℓ) : Type ℓ where
  found : Row → Found Row
  not_found failed : Found Row

-- A table of rows. `with_id` stores the key that the database gives a new row (the identity where
-- the key is not generated), and `clash` tests a unique key. A statement that fails changes nothing.
pub record Table (Row : Type 0) (with_id : ℕ → Row → Row) (clash : Row → Row → Bool) : Type 1 where
  pub State : Type 0
  pub rows : State → List Row
  pub create : Row → State → Option Row × State
  pub delete_where : (Row → Bool) → State → Bool × State
  pub update_where : (Row → Bool) → (Row → Row) → State → Bool × State
  pub first_where : (Row → Bool) → State → Found Row
  pub count_where : (Row → Bool) → State → Option ℕ
  pub find_where : (Row → Bool) → State → Option (List Row)
  pub create_ok :
      (r : Row) (s : State) (r' : Row)
      → (create r s).0 ≡ some r'
      → (n : ℕ) × (r' ≡ with_id n r)
        × (any (clash r') (rows s) ≡ false)
        × (rows (create r s).1 ≡ rows s ++ r' ∷ [])
  pub create_failed : (r : Row) (s : State) → (create r s).0 ≡ none → rows (create r s).1 ≡ rows s
  pub delete_ok :
      (p : Row → Bool) (s : State)
      → (delete_where p s).0 ≡ true
      → rows (delete_where p s).1 ≡ filter (λ r. not (p r)) (rows s)
  pub delete_failed :
      (p : Row → Bool) (s : State)
      → (delete_where p s).0 ≡ false
      → rows (delete_where p s).1 ≡ rows s
  pub update_ok :
      (p : Row → Bool) (f : Row → Row) (s : State)
      → (update_where p f s).0 ≡ true
      → rows (update_where p f s).1 ≡ map (λ r. if p r then f r else r) (rows s)
  pub update_failed :
      (p : Row → Bool) (f : Row → Row) (s : State)
      → (update_where p f s).0 ≡ false
      → rows (update_where p f s).1 ≡ rows s
  pub first_found :
      (p : Row → Bool) (s : State) (r : Row)
      → first_where p s ≡ found r
      → (before after : List Row) × (rows s ≡ before ++ r ∷ after) × (p r ≡ true)
  pub first_not_found :
      (p : Row → Bool) (s : State) → first_where p s ≡ not_found → filter p (rows s) ≡ []
  pub count_ok :
      (p : Row → Bool) (s : State) (n : ℕ) → count_where p s ≡ some n → n ≡ count p (rows s)
  pub find_ok :
      (p : Row → Bool) (s : State) (rs : List Row)
      → find_where p s ≡ some rs
      → rs ≡ filter p (rows s)
