-- ===== src/Wg/Address.antt =====
-- Texts of addresses, and the loop that looks for a free one.
use nexusroom.Base.{
  ℕ, zero, suc, ◌+◌, ◌≤◌, ◌<◌, ◌≡◌, ◌≢◌, refl, sym, ap₂, inl, inr, true, false, none, some, List,
  [], ◌∷◌, ◌++◌, ◌==◌, ltb, any, All, All-append, arith, Bool-cases,
}
use nexusroom.Wg.{Text, text_eq, decimal, before_slash, candidate, with_mask, first_free}

pub text_eq→eq : (s t : Text) → text_eq s t ≡ true → s ≡ t
unfolding text_eq
text_eq→eq [] [] e = refl
text_eq→eq [] (b ∷ t) e = cc
text_eq→eq (a ∷ s) [] e = cc
text_eq→eq (a ∷ s) (b ∷ t) e =
    let first : a ≡ b = ground arith in
    let rest = text_eq→eq s t (ground arith) in ap₂ (λ (x : ℕ) (y : Text). x ∷ y) first rest

pub text_eq_refl : (s : Text) → text_eq s s ≡ true
unfolding text_eq
text_eq_refl [] = refl
text_eq_refl (a ∷ s) = ground (arith, text_eq_refl s)

abbrev NoSlash : Text → Type 0
NoSlash = All (λ (c : ℕ). c ≢ b'/')

before_slash-append :
    (host rest : Text) → NoSlash host → before_slash (host ++ (b'/' ∷ rest)) ≡ host
unfolding before_slash
before_slash-append [] rest h = refl
before_slash-append (c ∷ host) rest (apart, h) = ground (arith, before_slash-append host rest h)

decimal-NoSlash : (n : ℕ) → NoSlash (decimal n)
unfolding decimal
decimal-NoSlash n = elim (Bool-cases (ltb n 10)) [
  | inl e ↦ rw e (omega arith, tt)
  | inr e ↦ rw e (elim (Bool-cases (ltb n 100)) [
    | inl e' ↦ rw e' (omega arith, (omega arith, tt))
    | inr e' ↦ rw e' (omega arith, (omega arith, (omega arith, tt)))
  ])
]

dotted-NoSlash : (n : ℕ) (t : Text) → NoSlash t → NoSlash (decimal n ++ (b'.' ∷ t))
dotted-NoSlash n t h =
    All-append (λ (c : ℕ). c ≢ b'/') (decimal n) (b'.' ∷ t) (decimal-NoSlash n) (omega arith, h)

-- The part before the slash of an allocated address is the candidate that was chosen.
pub before_slash-with_mask :
    (net : ℕ × ℕ × ℕ × ℕ) (i ones : ℕ)
    → before_slash (with_mask (candidate net i) ones) ≡ candidate net i
unfolding with_mask candidate
before_slash-with_mask (a, b, c, o) i ones =
    before_slash-append _ (decimal ones)
      (dotted-NoSlash a _ (dotted-NoSlash b _ (dotted-NoSlash c _ (decimal-NoSlash i))))

module _ (net : ℕ × ℕ × ℕ × ℕ) (used : List Text) where
  -- What the loop returns is a candidate that is not in use, the first such.
  pub first_free-some :
      (n i : ℕ) (host : Text)
      → first_free net used n i ≡ some host
      → (k : ℕ) × (host ≡ candidate net k)
        × (any (text_eq host) used ≡ false)
        × (i ≤ k)
        × (k < i + n)
  unfolding first_free
  first_free-some zero i host e = cc
  first_free-some (suc n) i host e = elim (Bool-cases (any (text_eq (candidate net i)) used)) [
    | inl taken ↦
        let (k, same, free, low, high) = first_free-some n (suc i) host (rw taken at e) in
        (k, same, free, omega arith, omega arith)
    | inr open_one ↦
        let same : candidate net i ≡ host = ground (arith, rw open_one at e) in
        (i, sym same, rw (← same) open_one, omega arith, omega arith)
  ]

  -- It fails only if every candidate is in use.
  pub first_free-none :
      (n i k : ℕ)
      → first_free net used n i ≡ none
      → i ≤ k
      → k < i + n
      → any (text_eq (candidate net k)) used ≡ true
  unfolding first_free
  first_free-none zero i k e low high = absurd (omega arith)
  first_free-none (suc n) i k e low high =
      elim (Bool-cases (any (text_eq (candidate net i)) used)) [
        | inr open_one ↦ cc (rw open_one at e)
        | inl taken ↦ elim (Bool-cases (i == k)) [
          | inl same ↦ let here : i ≡ k = ground arith in rw (← here) taken
          | inr apart ↦ first_free-none n (suc i) k (rw taken at e) (ground arith) (omega arith)
        ]
      ]
