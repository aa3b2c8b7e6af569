-- ===== src/Orm/Memory.antt =====
-- A table in memory on which every statement succeeds, but for a clash of keys: it meets the
-- interface, so the interface's laws can hold together.
use nexusroom.Base.{
  ℕ, ◌≡◌, ◌≢◌, refl, Bool, true, false, not, Option, none, some, List, [], ◌∷◌, ◌++◌, map, any,
  count, filter, if◌then◌else◌, arith, length, ap, Bool-cases, inl, inr, ◌+◌,
}
use nexusroom.Orm.{failed, Table, Found, found, not_found}

module _ {Row : Type 0} (with_id : ℕ → Row → Row) (clash : Row → Row → Bool) where
  abbrev insert : Bool → Row → List Row → Option Row × List Row
  insert true r s = (none, s)
  insert false r s = (some r, s ++ r ∷ [])

  abbrev pub create : Row → List Row → Option Row × List Row
  create r s = let r' = with_id (length s + 1) r in insert (any (clash r') s) r' s

  abbrev pub first : (Row → Bool) → List Row → Found Row
  first p [] = not_found
  first p (r ∷ rs) = if p r then found r else first p rs

  insert_ok :
      (b : Bool) (r : Row) (s : List Row) (r' : Row)
      → (insert b r s).0 ≡ some r'
      → (r' ≡ r) × (b ≡ false) × ((insert b r s).1 ≡ s ++ r' ∷ [])
  insert_ok true r s r' e = cc
  insert_ok false r s r' e = ground arith

  pub create_ok :
      (r : Row) (s : List Row) (r' : Row)
      → (create r s).0 ≡ some r'
      → (n : ℕ) × (r' ≡ with_id n r) × (any (clash r') s ≡ false) × ((create r s).1 ≡ s ++ r' ∷ [])
  create_ok r s r' e =
      let (same, free, stored) = insert_ok _ _ s r' e in (length s + 1, same, rw same free, stored)

  insert_failed :
      (b : Bool) (r : Row) (s : List Row) → (insert b r s).0 ≡ none → (insert b r s).1 ≡ s
  insert_failed true r s e = refl
  insert_failed false r s e = cc

  pub create_failed : (r : Row) (s : List Row) → (create r s).0 ≡ none → (create r s).1 ≡ s
  create_failed r s = insert_failed _ _ s

  pub never {ℓ} : {A : Type ℓ} (x y : A) → true ≡ false → x ≡ y
  never x y e = cc

  pub first_found :
      (p : Row → Bool) (s : List Row) (r : Row)
      → first p s ≡ found r
      → (before after : List Row) × (s ≡ before ++ r ∷ after) × (p r ≡ true)
  first_found p [] r e = cc
  first_found p (x ∷ xs) r e = elim (Bool-cases (p x)) [
    | inl hit ↦ ([], xs, ground arith, ground arith)
    | inr miss ↦
        let (before, after, same, holds) = first_found p xs r (ground arith) in
        (x ∷ before, after, ap (◌∷◌ x) same, holds)
  ]

  pub first_not_found : (p : Row → Bool) (s : List Row) → first p s ≡ not_found → filter p s ≡ []
  unfolding filter
  first_not_found p [] e = refl
  first_not_found p (x ∷ xs) e = ground (arith, first_not_found p xs)

  pub count_lem :
      (p : Row → Bool) (s : List Row) (n : ℕ) → some (count p s) ≡ some n → n ≡ count p s
  count_lem p s n e = ground arith

  pub find_lem : (p : Row → Bool) (s rs : List Row) → some (filter p s) ≡ some rs → rs ≡ filter p s
  find_lem p s rs e = ground arith

  abbrev pub memory : Table Row with_id clash
  memory = record {
    State = List Row;
    rows = λ s. s;
    create = create;
    delete_where = λ p s. (true, filter (λ r. not (p r)) s);
    update_where = λ p f s. (true, map (λ r. if p r then f r else r) s);
    first_where = first;
    count_where = λ p s. some (count p s);
    find_where = λ p s. some (filter p s);
    create_ok = create_ok;
    create_failed = create_failed;
    delete_ok = λ p s e. refl;
    delete_failed = λ p s. never _ s;
    update_ok = λ p f s e. refl;
    update_failed = λ p f s. never _ s;
    first_found = first_found;
    first_not_found = first_not_found;
    count_ok = count_lem;
    find_ok = find_lem;
  }

  pub first-ne-failed : (p : Row → Bool) (s : List Row) → first p s ≢ failed
  first-ne-failed p [] e = cc
  first-ne-failed p (x ∷ xs) e = ground (arith, first-ne-failed p xs)
