-- ===== src/Messages/Slices.antt =====
-- The first elements of a reversed list, and what a filter keeps of it.
use mathlib.Core.List.{reverse-cons, reverse-append}
use nexusroom.Base.{
  ℕ, zero, suc, ◌-◌, ◌≤◌, ◌≡◌, refl, sym, ap, ◌∙◌, inl, inr, Bool, List, [], ◌∷◌, ◌++◌, reverse,
  take, drop, filter, take-length-append, append-nil, length, leb, arith, Bool-cases,
}
use nexusroom.Messages.Reversal.{length-reverse}

module _ {ℓ} {A : Type ℓ} where
  -- The last n elements.
  abbrev pub last_of : ℕ → List A → List A
  last_of n xs = drop (length xs - n) xs

  take-drop : (n : ℕ) (xs : List A) → take n xs ++ drop n xs ≡ xs
  take-drop zero xs = refl
  take-drop (suc n) [] = refl
  take-drop (suc n) (x ∷ xs) = ap (◌∷◌ x) (take-drop n xs)

  pub length-drop : (n : ℕ) (xs : List A) → length (drop n xs) ≡ length xs - n
  length-drop zero xs = omega arith
  length-drop (suc n) [] = omega arith
  length-drop (suc n) (x ∷ xs) = omega (arith, length-drop n xs)

  take_all : (n : ℕ) (xs : List A) → length xs ≤ n → take n xs ≡ xs
  take_all zero [] h = refl
  take_all zero (x ∷ xs) h = absurd (omega (arith, h))
  take_all (suc n) [] h = refl
  take_all (suc n) (x ∷ xs) h = ap (◌∷◌ x) (take_all n xs (omega (arith, h)))

  pub take-reverse : (n : ℕ) (xs : List A) → take n (reverse xs) ≡ reverse (last_of n xs)
  take-reverse n xs = elim (Bool-cases (leb n (length xs))) [
    | inr more ↦
        let ge : length xs ≤ n = ground (arith, more) in
        take_all n (reverse xs) (omega (arith, ge, length-reverse xs))
        ∙ ap (λ (m : ℕ). reverse (drop m xs))
            (let nothing : 0 ≡ length xs - n = omega (arith, ge) in nothing)
    | inl less ↦
        let le : n ≤ length xs = ground (arith, less) in
        let m = length xs - n in
        let back = reverse (drop m xs) in
        let size : n ≡ length back =
          omega (arith, le, length-reverse (drop m xs), length-drop m xs) in
        ap (λ (ys : List A). take n (reverse ys)) (sym (take-drop m xs))
        ∙ ap (take n) (reverse-append (take m xs) (drop m xs))
        ∙ ap (λ (k : ℕ). take k (back ++ reverse (take m xs))) size
        ∙ take-length-append back (reverse (take m xs))
  ]

  filter-append : (p : A → Bool) (xs ys : List A) → filter p (xs ++ ys) ≡ filter p xs ++ filter p ys
  unfolding filter
  filter-append p [] ys = refl
  filter-append p (x ∷ xs) ys = elim (Bool-cases (p x)) [
    | inl h ↦ rw h (ap (◌∷◌ x) (filter-append p xs ys))
    | inr h ↦ rw h (filter-append p xs ys)
  ]

  pub filter-reverse : (p : A → Bool) (xs : List A) → filter p (reverse xs) ≡ reverse (filter p xs)
  unfolding filter
  filter-reverse p [] = refl
  filter-reverse p (x ∷ xs) =
      ap (filter p) (reverse-cons x xs)
      ∙ filter-append p (reverse xs) (x ∷ [])
      ∙ elim (Bool-cases (p x)) [
        | inl h ↦ rw (h, filter-reverse p xs) (sym (reverse-cons x (filter p xs)))
        | inr h ↦ rw (h, filter-reverse p xs) (append-nil (reverse (filter p xs)))
      ]
