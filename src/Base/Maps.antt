-- ===== src/Base/Maps.antt =====
-- Association lists with numbers for keys: Go's maps, in the order in which a loop meets the entries.
use nexusroom.Base.Tests.{◌==◌, if◌then◌else◌, Bool-cases, ==-refl}
use nexusroom.Base.Lists.{All, All_imp}
use Prim.Native.Nat.{ℕ}
use mathlib.Core.Path.{◌≡◌, refl}
use mathlib.Core.Bool.{false}
use mathlib.Core.Logic.{inl, inr}
use mathlib.Core.Option.{Option, none, some}
use mathlib.Core.List.{List, [], ◌∷◌}
use native.Mathlib.Omega.{arith}

module _ {V : Type 0} where
  unfoldable pub lookup : ℕ → List (ℕ × V) → Option V
  lookup k [] = none
  lookup k ((j, v) ∷ m) = if j == k then some v else lookup k m

  unfoldable pub erase : ℕ → List (ℕ × V) → List (ℕ × V)
  erase k [] = []
  erase k ((j, v) ∷ m) = if j == k then erase k m else (j, v) ∷ erase k m

  -- m[k] = v
  unfoldable pub insert : ℕ → V → List (ℕ × V) → List (ℕ × V)
  unfolding erase
  insert k v m = (k, v) ∷ erase k m

  pub lookup-erase :
      (k j : ℕ) (m : List (ℕ × V)) → lookup j (erase k m) ≡ (if k == j then none else lookup j m)
  unfolding lookup erase
  lookup-erase k j [] = ground arith
  lookup-erase k j ((i, v) ∷ m) = ground (arith, lookup-erase k j m)

  pub lookup-insert :
      (k j : ℕ) (v : V) (m : List (ℕ × V))
      → lookup j (insert k v m) ≡ (if k == j then some v else lookup j m)
  unfolding lookup insert
  lookup-insert k j v m = ground (arith, lookup-erase k j m)

  module _ (P : ℕ × V → Type 0) where
    pub All-erase : (k : ℕ) (m : List (ℕ × V)) → All P m → All P (erase k m)
    unfolding erase
    All-erase k [] h = tt
    All-erase k ((j, v) ∷ m) (h, hs) = elim (Bool-cases (j == k)) [
      | inl e ↦ rw e (All-erase k m hs)
      | inr e ↦ rw e (h, All-erase k m hs)
    ]

    -- What holds of each entry holds of the one that is found.
    pub All-lookup : (k : ℕ) (v : V) (m : List (ℕ × V)) → All P m → lookup k m ≡ some v → P (k, v)
    unfolding lookup
    All-lookup k v [] h e = cc
    All-lookup k v ((j, w) ∷ m) (h, hs) e = elim (Bool-cases (j == k)) [
      | inr other ↦ All-lookup k v m hs (rw other at e)
      | inl same ↦
          let key : j ≡ k = ground arith in
          let value : w ≡ v = ground (arith, (rw same at e)) in rw (← key, ← value) h
    ]

module _ {V : Type 0} where
  pub erase-ne : (k : ℕ) (m : List (ℕ × V)) → All (λ (e : ℕ × V). e.0 == k ≡ false) (erase k m)
  unfolding erase
  erase-ne k [] = tt
  erase-ne k ((j, v) ∷ m) = elim (Bool-cases (j == k)) [
    | inl e ↦ rw e (erase-ne k m)
    | inr e ↦ rw e (e, erase-ne k m)
  ]

module _ {V : Type 0} where
  -- A key of the list is found.
  pub lookup-all : (m : List (ℕ × V)) → All (λ (e : ℕ × V). (v : V) × (lookup e.0 m ≡ some v)) m
  unfolding lookup
  lookup-all [] = tt
  lookup-all ((k, v) ∷ m) = (
    (v, rw (==-refl k) refl),
    All_imp (λ (e : ℕ × V). (v : V) × (lookup e.0 m ≡ some v))
        (λ (e : ℕ × V). (w : V) × (lookup e.0 ((k, v) ∷ m) ≡ some w)) m
        (λ e (w, h). elim (Bool-cases (k == e.0)) [
          | inl same ↦ (v, rw same refl)
          | inr other ↦ (w, rw other h)
        ])
        (lookup-all m),
  )
