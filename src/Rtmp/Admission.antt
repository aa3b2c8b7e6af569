-- ===== src/Rtmp/Admission.antt =====
-- Which keys are admitted.

use Prim.Native.String.{String, len}
use text.Mathlib.Text.{◌==◌ as str_eq}
use text.Mathlib.TextEquality.{eq_iff}
use nexusroom.Base.{
  ℕ, ◌≤◌, ◌≡◌, refl, ap, ◌∙◌, inl, inr, Bool, true, false, Option, none, some, List, [], ◌∷◌, ltb,
  arith, Bool-cases, Option-cases,
}
use nexusroom.Stream.Streams.{Registry, find}
use nexusroom.Rtmp.{
  admitted, Request, all_allowed, valid_stream_key, is_active, allows, admit_key, admit_parts,
  admit_path, admit,
}

-- What is known of a key that was admitted.
pub record IsAdmitted (authorize : Option (String → Bool)) (q : Request) (key : String)
    (r : Registry) : Type 0 where
  pub publishes : q.publishes ≡ true
  pub path : q.parts ≡ some ("live" ∷ key ∷ [])
  pub at_least : 8 ≤ len key
  pub at_most : len key ≤ 128
  pub letters : all_allowed key ≡ true
  pub authorized : allows authorize key ≡ true
  pub fresh : find key r.streams ≡ none

valid_lem :
    (key : String)
    → valid_stream_key key ≡ true
    → (8 ≤ len key) × (len key ≤ 128) × (all_allowed key ≡ true)
unfolding valid_stream_key
valid_lem key h = elim (Bool-cases (ltb (len key) 8)) [
  | inl a ↦ cc (rw a at h)
  | inr a ↦ elim (Bool-cases (ltb 128 (len key))) [
    | inl b ↦ cc (rw (a, b) at h)
    | inr b ↦ (ground (arith, a), ground (arith, b), rw (a, b) at h)
  ]
]

not_active : (o : Option ℕ) → is_active o ≡ false → o ≡ none
not_active none h = refl
not_active (some p) h = cc

-- `key'` is the key that the path names.
key_lem :
    (authorize : Option (String → Bool)) (key' key : String) (r : Registry)
    → admit_key authorize key' r ≡ admitted key
    → (key' ≡ key)
      × (valid_stream_key key' ≡ true)
      × (allows authorize key' ≡ true)
      × (find key' r.streams ≡ none)
unfolding admit_key
key_lem authorize key' key r h = elim (Bool-cases (valid_stream_key key')) [
  | inr a ↦ cc (rw a at h)
  | inl a ↦ elim (Bool-cases (allows authorize key')) [
    | inr b ↦ cc (rw (a, b) at h)
    | inl b ↦ elim (Bool-cases (is_active (find key' r.streams))) [
      | inl c ↦ cc (rw (a, b, c) at h)
      | inr c ↦ (cc (rw (a, b, c) at h), a, b, not_active (find key' r.streams) c)
    ]
  ]
]

parts_lem :
    (authorize : Option (String → Bool)) (parts : List String) (key : String) (r : Registry)
    → admit_parts authorize parts r ≡ admitted key
    → (key' : String) × (parts ≡ "live" ∷ key' ∷ []) × (admit_key authorize key' r ≡ admitted key)
unfolding admit_parts
parts_lem authorize [] key r h = cc
parts_lem authorize (app ∷ []) key r h = cc
parts_lem authorize (app ∷ key' ∷ x ∷ xs) key r h = cc
parts_lem authorize (app ∷ key' ∷ []) key r h = elim (Bool-cases (str_eq app "live")) [
  | inr a ↦ cc (rw a at h)
  | inl a ↦ (key', ap (λ (s : String). s ∷ key' ∷ []) ((eq_iff app "live").0 a), rw a at h)
]

-- A connection is admitted under a key only if it publishes to /live/{key}, the key has 8 to 128
-- bytes, all of them letters, digits, dashes or underscores, the key is authorized where there is
-- such a test, and no stream has the key at that moment.
pub admit-IsAdmitted :
    (authorize : Option (String → Bool)) (q : Request) (key : String) (r : Registry)
    → admit authorize q r ≡ admitted key
    → IsAdmitted authorize q key r
unfolding admit admit_path
admit-IsAdmitted authorize q key r h = elim (Bool-cases q.publishes) [
  | inr a ↦ cc (rw a at h)
  | inl a ↦ elim (Option-cases q.parts) [
    | inl b ↦ cc (rw (a, b) at h)
    | inr (parts, b) ↦
        let (key', path, k) = parts_lem authorize parts key r (rw (a, b) at h) in
        let (same, valid, allowed, fresh) = key_lem authorize key' key r k in
        let (low, high, letters) = valid_lem key' valid in
        rw (← same) (record {
          publishes = a;
          path = b ∙ ap (λ (p : List String). some p) path;
          at_least = low;
          at_most = high;
          letters = letters;
          authorized = allowed;
          fresh = fresh;
        })
  ]
]
