-- ===== src/Playback/Subscribers.antt =====
-- The subscribers of an entry that is subscribed to and closed again.
use nexusroom.Base.{
  ℕ, ◌+◌, ◌≡◌, refl, ap, subst, inl, inr, Bool, true, false, not, Option, none, some, List, [], ◌∷◌,
  ◌==◌, if◌then◌else◌, filter, any, arith, Bool-cases,
}
use nexusroom.Stream.{Entry, Subscription, set, member, fresh, subscribe_entry}
use nexusroom.Stream.Entries.{Inv}
use nexusroom.Stream.Methods.{subscribe_entry-Inv}

pub filter_absent :
    (i : ℕ) (is : List ℕ) → member i is ≡ false → filter (λ (j : ℕ). not (j == i)) is ≡ is
unfolding member any filter
filter_absent i [] h = refl
filter_absent i (j ∷ is) h = elim (Bool-cases (j == i)) [
  | inl e ↦ cc (rw e at h)
  | inr e ↦ rw e (ap (◌∷◌ j) (filter_absent i is (rw e at h)))
]

pub fresh_id : (e : Entry) → Inv e → member e.next_id e.subscribers ≡ false
fresh_id e v = elim (Bool-cases (member e.next_id e.subscribers)) [
  | inr m ↦ m
  | inl m ↦ absurd (omega (arith, v.ids e.next_id m))
]

pub unclosed : {A : Type 0} (b : Bool) (y z : A) → b ≡ false → (if b then y else z) ≡ z
unclosed true y z h = cc
unclosed false y z h = refl

pub closed_first : {A : Type 0} (b : Bool) (y z : A) → b ≡ true → (if b then y else z) ≡ y
closed_first true y z h = refl
closed_first false y z h = cc

abbrev pub subscribers_of : Option Entry → List ℕ
subscribers_of none = []
subscribers_of (some e) = e.subscribers

pub subscribe_open :
    (e : Entry)
    → e.closed ≡ false
    → Inv e
    → Inv (record e {
      next_id = e.next_id + 1;
      subscribers = e.next_id ∷ e.subscribers;
      channels = set e.channels e.next_id fresh;
    })
unfolding subscribe_entry
subscribe_open e c v =
    subst Inv (ap (λ (y : Option Subscription × Entry). y.1) (unclosed e.closed _ _ c))
      (subscribe_entry-Inv e v)
