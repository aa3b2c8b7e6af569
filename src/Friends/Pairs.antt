-- ===== src/Friends/Pairs.antt =====
-- The invariant of the `friendships` table, and the statements that change the table.
use Prim.Native.String.{String}
use nexusroom.Base.{
  ℕ, ◌≤◌, ◌≡◌, ◌≢◌, refl, ◌⊎◌, inl, inr, Bool, true, List, [], ◌∷◌, ◌++◌, map, if◌then◌else◌, count,
  filter, All, All-append, All-filter, count-append, count-filter-le, count_congr, arith,
  Bool-cases,
}
use nexusroom.Friends.{Friendship, between}

-- The statuses that the handlers write.
abbrev pub IsStatus : String → Type 0
IsStatus t = (t ≡ "pending") ⊎ (t ≡ "accepted") ⊎ (t ≡ "rejected")

abbrev pub IsSound : Friendship → Type 0
IsSound f = IsStatus f.status × (f.requester_id ≢ f.addressee_id)

-- At most one row links two users, whatever its direction; the statuses are those of the program,
-- and nobody is linked to himself.
pub record Inv (rows : List Friendship) : Type 0 where
  pub unique : (a b : ℕ) → count (between a b) rows ≤ 1
  pub sound : All IsSound rows

between_same :
    (a b u t : ℕ) (f g : Friendship)
    → between u t f ≡ true
    → between a b f ≡ true
    → between a b g ≡ between u t g
between_same a b u t f g h k = ground arith

count-between :
    (a b u t : ℕ) (f : Friendship) (rows : List Friendship)
    → between u t f ≡ true
    → between a b f ≡ true
    → count (between a b) rows ≡ count (between u t) rows
count-between a b u t f rows h k =
    count_congr (between a b) (between u t) rows (λ g. between_same a b u t f g h k)

pub add-Inv :
    (u t : ℕ) (f : Friendship) (rows : List Friendship)
    → between u t f ≡ true
    → IsSound f
    → Inv rows
    → count (between u t) rows ≡ 0
    → Inv (rows ++ f ∷ [])
unfolding count
add-Inv u t f rows link sound v absent = record {
  unique = λ a b. elim (Bool-cases (between a b f)) [
    | inl e ↦
        rw (count-append (between a b) rows (f ∷ []), e)
          (omega (arith, count-between a b u t f rows link e))
    | inr e ↦ rw (count-append (between a b) rows (f ∷ []), e) (omega (arith, v.unique a b))
  ];
  sound = All-append IsSound rows (f ∷ []) v.sound (sound, tt);
}

pub remove-Inv : (p : Friendship → Bool) (rows : List Friendship) → Inv rows → Inv (filter p rows)
remove-Inv p rows v = record {
  unique = λ a b. omega (arith, count-filter-le (between a b) p rows, v.unique a b);
  sound = All-filter IsSound p rows v.sound;
}

abbrev pub restatus : (Friendship → Bool) → String → Friendship → Friendship
restatus p status f = if p f then record f { status = status } else f

-- A change of statuses keeps the pairs.
module _ (p : Friendship → Bool) (status : String) (known : IsStatus status) where
  count-restatus :
      (a b : ℕ) (rows : List Friendship)
      → count (between a b) (map (restatus p status) rows) ≡ count (between a b) rows
  unfolding count
  count-restatus a b [] = refl
  count-restatus a b (f ∷ rows) = ground (arith, count-restatus a b rows)

  restatus-IsSound :
      (rows : List Friendship) → All IsSound rows → All IsSound (map (restatus p status) rows)
  restatus-IsSound [] h = tt
  restatus-IsSound (f ∷ rows) (h, hs) = elim (Bool-cases (p f)) [
    | inl e ↦ rw e ((known, h.1), restatus-IsSound rows hs)
    | inr e ↦ rw e (h, restatus-IsSound rows hs)
  ]

  pub restatus-Inv : (rows : List Friendship) → Inv rows → Inv (map (restatus p status) rows)
  restatus-Inv rows v = record {
    unique = λ a b. omega (arith, count-restatus a b rows, v.unique a b);
    sound = restatus-IsSound rows v.sound;
  }
