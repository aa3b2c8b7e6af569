-- ===== src/Messages/Reversal.antt =====
-- The loop that turns a page around in place, and the reversal of a list.
use mathlib.Core.List.{reverse-cons}
use nexusroom.Base.{
  ℕ, zero, suc, ◌+◌, ◌-◌, ◌≤◌, ◌<◌, ◌≡◌, refl, sym, ap, ◌∙◌, ◌≢◌, ◌⊎◌, inl, inr, Option, none, some,
  List, [], ◌∷◌, ◌++◌, ◌==◌, reverse, length-append, if◌then◌else◌, length, ltb, arith, Bool-cases,
}

ℕ-cases : (a b : ℕ) → (a ≡ b) ⊎ (a ≢ b)
ℕ-cases a b = elim (Bool-cases (a == b)) [
  | inl e ↦ inl (ground (arith, e))
  | inr e ↦ inr (ground (arith, e))
]

module _ {ℓ} {A : Type ℓ} where
  abbrev pub nth : ℕ → List A → Option A
  nth k [] = none
  nth zero (x ∷ xs) = some x
  nth (suc k) (x ∷ xs) = nth k xs

  abbrev pub put_at : ℕ → Option A → List A → List A
  put_at i none xs = xs
  put_at i (some a) [] = []
  put_at zero (some a) (x ∷ xs) = a ∷ xs
  put_at (suc i) (some a) (x ∷ xs) = x ∷ put_at i (some a) xs

  abbrev pub swap : ℕ → ℕ → List A → List A
  swap i j xs = put_at j (nth i xs) (put_at i (nth j xs) xs)

  -- for i, j := …; i < j; i, j = i+1, j-1
  unfoldable pub reverse_loop : ℕ → ℕ → ℕ → List A → List A
  reverse_loop zero i j xs = xs
  reverse_loop (suc fuel) i j xs =
      let rest = reverse_loop fuel (i + 1) (j - 1) (swap i j xs) in if ltb i j then rest else xs

  unfoldable pub turn_around : List A → List A
  unfolding reverse_loop
  turn_around xs = reverse_loop (length xs) 0 (length xs - 1) xs

  length-put_at : (i : ℕ) (a : Option A) (xs : List A) → length (put_at i a xs) ≡ length xs
  length-put_at i none xs = refl
  length-put_at i (some a) [] = refl
  length-put_at zero (some a) (x ∷ xs) = refl
  length-put_at (suc i) (some a) (x ∷ xs) = ap suc (length-put_at i (some a) xs)

  nth-put_at : (i : ℕ) (a : A) (xs : List A) → i < length xs → nth i (put_at i (some a) xs) ≡ some a
  nth-put_at i a [] h = absurd (omega (arith, h))
  nth-put_at zero a (x ∷ xs) h = refl
  nth-put_at (suc i) a (x ∷ xs) h = nth-put_at i a xs (omega (arith, h))

  nth-put_at_ne : (k i : ℕ) (a : Option A) (xs : List A) → k ≢ i → nth k (put_at i a xs) ≡ nth k xs
  nth-put_at_ne k i none xs h = refl
  nth-put_at_ne k i (some a) [] h = refl
  nth-put_at_ne zero zero (some a) (x ∷ xs) h = absurd (h refl)
  nth-put_at_ne (suc k) zero (some a) (x ∷ xs) h = refl
  nth-put_at_ne zero (suc i) (some a) (x ∷ xs) h = refl
  nth-put_at_ne (suc k) (suc i) (some a) (x ∷ xs) h =
      nth-put_at_ne k i (some a) xs (λ e. h (ap suc e))

  nth-some : (k : ℕ) (xs : List A) → k < length xs → (a : A) × (nth k xs ≡ some a)
  nth-some k [] h = absurd (omega (arith, h))
  nth-some zero (x ∷ xs) h = (x, refl)
  nth-some (suc k) (x ∷ xs) h = nth-some k xs (omega (arith, h))

  nth-swap_right : (i j : ℕ) (xs : List A) → i < j → j < length xs → nth j (swap i j xs) ≡ nth i xs
  nth-swap_right i j xs lt h =
      let (a, ea) = nth-some i xs (omega arith) in
      rw ea (nth-put_at j a (put_at i (nth j xs) xs) (rw (length-put_at i (nth j xs) xs) h))

  nth-swap_left : (i j : ℕ) (xs : List A) → i < j → j < length xs → nth i (swap i j xs) ≡ nth j xs
  nth-swap_left i j xs lt h =
      let (b, eb) = nth-some j xs h in
      nth-put_at_ne i j (nth i xs) (put_at i (nth j xs) xs) (omega arith)
      ∙ rw eb (nth-put_at i b xs (omega arith))

  nth-swap_ne : (k i j : ℕ) (xs : List A) → k ≢ i → k ≢ j → nth k (swap i j xs) ≡ nth k xs
  nth-swap_ne k i j xs hi hj =
      nth-put_at_ne k j (nth i xs) (put_at i (nth j xs) xs) hj ∙ nth-put_at_ne k i (nth j xs) xs hi

  nth_ext : (xs ys : List A) → ((k : ℕ) → nth k xs ≡ nth k ys) → xs ≡ ys
  nth_ext [] [] h = refl
  nth_ext [] (y ∷ ys) h = cc (h 0)
  nth_ext (x ∷ xs) [] h = cc (h 0)
  nth_ext (x ∷ xs) (y ∷ ys) h =
      let first : x ≡ y = ground (arith, h 0) in
      rw first (ap (◌∷◌ y) (nth_ext xs ys (λ k. h (suc k))))

  nth_beyond : (k : ℕ) (xs : List A) → length xs ≤ k → nth k xs ≡ none
  nth_beyond k [] h = refl
  nth_beyond zero (x ∷ xs) h = absurd (omega (arith, h))
  nth_beyond (suc k) (x ∷ xs) h = nth_beyond k xs (omega (arith, h))

  length-swap : (i j : ℕ) (xs : List A) → length (swap i j xs) ≡ length xs
  length-swap i j xs =
      length-put_at j (nth i xs) (put_at i (nth j xs) xs) ∙ length-put_at i (nth j xs) xs

  -- Between the two indices the elements are mirrored, and elsewhere they are kept.
  record Mirrored (i j : ℕ) (xs ys : List A) : Type ℓ where
    inside : (k m : ℕ) → i ≤ k → k ≤ j → k + m + 1 ≡ length xs → nth k ys ≡ nth m xs
    outside : (k : ℕ) → (k < i) ⊎ (j < k) → nth k ys ≡ nth k xs

  mirror_step :
      (i j : ℕ) (xs ys : List A)
      → i + j + 1 ≡ length xs
      → i < j
      → Mirrored (i + 1) (j - 1) (swap i j xs) ys
      → Mirrored i j xs ys
  mirror_step i j xs ys sum lt h =
      let hj : j < length xs = omega arith in
      record {
        inside = λ k m below above mirror. elim (ℕ-cases k i) [
          | inl first ↦
              let last : m ≡ j = omega arith in
              rw (first, last) (h.outside i (inl (omega arith)) ∙ nth-swap_left i j xs lt hj)
          | inr not_first ↦ elim (ℕ-cases k j) [
            | inl last ↦
                let first : m ≡ i = omega arith in
                rw (last, first) (h.outside j (inr (omega arith)) ∙ nth-swap_right i j xs lt hj)
            | inr not_last ↦
                h.inside k m (omega arith) (omega arith) (omega (arith, length-swap i j xs))
                ∙ nth-swap_ne m i j xs (omega arith) (omega arith)
          ]
        ];
        outside = λ k out.
            h.outside k
              (elim out [ inl a ↦ inl (omega (arith, a)) | inr a ↦ inr (omega (arith, a)) ])
            ∙ nth-swap_ne k i j xs
                (elim out [ inl a ↦ omega (arith, a) | inr a ↦ omega (arith, a) ])
                (elim out [ inl a ↦ omega (arith, a) | inr a ↦ omega (arith, a) ]);
      }

  mirror_end : (i j : ℕ) (xs : List A) → i + j + 1 ≡ length xs → j ≤ i → Mirrored i j xs xs
  mirror_end i j xs sum le = record {
    inside =
        λ k m below above mirror. let same : k ≡ m = omega arith in ap (λ (n : ℕ). nth n xs) same;
    outside = λ k out. refl;
  }

  reverse_loop-Mirrored :
      (fuel i j : ℕ) (xs : List A)
      → i + j + 1 ≡ length xs
      → j ≤ i + fuel
      → Mirrored i j xs (reverse_loop fuel i j xs)
  unfolding reverse_loop
  reverse_loop-Mirrored zero i j xs sum enough = mirror_end i j xs sum (omega arith)
  reverse_loop-Mirrored (suc fuel) i j xs sum enough = elim (Bool-cases (ltb i j)) [
    | inr stop ↦ rw stop (mirror_end i j xs sum (ground (arith, stop)))
    | inl go ↦
        let lt : i < j = ground (arith, go) in
        rw go (
          mirror_step i j xs _ sum lt (
            reverse_loop-Mirrored fuel (i + 1) (j - 1) (swap i j xs)
              (omega (arith, length-swap i j xs)) (omega arith)))
  ]

  nth-append : (k : ℕ) (xs ys : List A) → k < length xs → nth k (xs ++ ys) ≡ nth k xs
  nth-append k [] ys h = absurd (omega (arith, h))
  nth-append zero (x ∷ xs) ys h = refl
  nth-append (suc k) (x ∷ xs) ys h = nth-append k xs ys (omega (arith, h))

  nth-append_last : (k : ℕ) (xs : List A) (y : A) → k ≡ length xs → nth k (xs ++ y ∷ []) ≡ some y
  nth-append_last zero [] y h = refl
  nth-append_last (suc k) [] y h = absurd (omega (arith, h))
  nth-append_last zero (x ∷ xs) y h = absurd (omega (arith, h))
  nth-append_last (suc k) (x ∷ xs) y h = nth-append_last k xs y (omega (arith, h))

  pub length-reverse : (xs : List A) → length (reverse xs) ≡ length xs
  length-reverse [] = refl
  length-reverse (x ∷ xs) =
      ap length (reverse-cons x xs)
      ∙ omega (arith, length-append (reverse xs) (x ∷ []), length-reverse xs)

  nth-reverse : (k m : ℕ) (xs : List A) → k + m + 1 ≡ length xs → nth k (reverse xs) ≡ nth m xs
  nth-reverse k m [] h = absurd (omega (arith, h))
  nth-reverse k zero (x ∷ xs) h =
      ap (nth k) (reverse-cons x xs)
      ∙ nth-append_last k (reverse xs) x (omega (arith, h, length-reverse xs))
  nth-reverse k (suc m) (x ∷ xs) h =
      ap (nth k) (reverse-cons x xs)
      ∙ nth-append k (reverse xs) (x ∷ []) (omega (arith, h, length-reverse xs))
      ∙ nth-reverse k m xs (omega (arith, h))

  -- The loop over the two indices, from both ends of the list, is the reversal of the list.
  pub turn_around-reverse : (xs : List A) → turn_around xs ≡ reverse xs
  unfolding turn_around reverse_loop
  turn_around-reverse [] = refl
  turn_around-reverse (x ∷ xs) =
      let all = x ∷ xs in
      let n = length all in
      let mirrored = reverse_loop-Mirrored n 0 (n - 1) all (omega arith) (omega arith) in
      nth_ext (turn_around all) (reverse all) (λ k. elim (Bool-cases (ltb k n)) [
        | inl inside ↦
            let lt : k < n = ground (arith, inside) in
            mirrored.inside k (n - 1 - k) (omega arith) (omega (arith, lt)) (omega (arith, lt))
            ∙ sym (nth-reverse k (n - 1 - k) all (omega (arith, lt)))
        | inr outside ↦
            let ge : n ≤ k = ground (arith, outside) in
            mirrored.outside k (inr (omega (arith, ge)))
            ∙ nth_beyond k all ge
            ∙ sym (nth_beyond k (reverse all) (omega (arith, ge, length-reverse all)))
      ])
