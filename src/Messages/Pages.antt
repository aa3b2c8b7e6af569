-- ===== src/Messages/Pages.antt =====
-- What the pages of a room's messages are, in terms of the room's history.
use nexusroom.Base.{
  ℕ, zero, suc, ◌<◌, ◌≡◌, refl, sym, ap, ◌∙◌, inl, inr, Bool, true, false, some, List, [], ◌∷◌,
  ◌++◌, reverse, take, filter, arith, Bool-cases, Option-cases, All, All_imp,
}
use mathlib.Core.List.{reverse-reverse}
use nexusroom.Ws.Chat.{Message}
use nexusroom.Messages.{
  IsAscending, MessageTable, in_room, newer, older, in_order, get_messages_after,
  get_messages_before, get_latest_messages,
}
use nexusroom.Messages.Reversal.{turn_around, turn_around-reverse}
use nexusroom.Messages.Slices.{last_of, take-reverse, filter-reverse}

-- The newest rows first, at most n, turned around: the last n rows in their order.
descending-last_of :
    (p : Message → Bool) (n : ℕ) (all : List Message)
    → turn_around (take n (filter p (reverse all))) ≡ last_of n (filter p all)
descending-last_of p n all =
    ap (λ (ms : List Message). turn_around (take n ms)) (filter-reverse p all)
    ∙ ap turn_around (take-reverse n (filter p all))
    ∙ turn_around-reverse (reverse (last_of n (filter p all)))
    ∙ reverse-reverse (last_of n (filter p all))

-- The id of the last message of a page, from which the next one is asked.
abbrev pub last_id : ℕ → List Message → ℕ
last_id after_id [] = after_id
last_id after_id (m ∷ ms) = last_id m.id ms

filter_ext :
    (p q : Message → Bool) (ms : List Message)
    → All (λ (m : Message). p m ≡ q m) ms
    → filter p ms ≡ filter q ms
unfolding filter
filter_ext p q [] h = refl
filter_ext p q (m ∷ ms) (h, hs) = rw (h, filter_ext p q ms hs) refl

pub filter-All :
    (p : Message → Bool) (ms : List Message) → All (λ (m : Message). p m ≡ true) (filter p ms)
unfolding filter
filter-All p [] = tt
filter-All p (m ∷ ms) = elim (Bool-cases (p m)) [
  | inl h ↦ rw h (h, filter-All p ms)
  | inr h ↦ rw h (filter-All p ms)
]

All-filter :
    (P : Message → Type 0) (p : Message → Bool) (ms : List Message) → All P ms → All P (filter p ms)
unfolding filter
All-filter P p [] h = tt
All-filter P p (m ∷ ms) (h, hs) = elim (Bool-cases (p m)) [
  | inl e ↦ rw e (h, All-filter P p ms hs)
  | inr e ↦ rw e (All-filter P p ms hs)
]

pub filter-IsAscending :
    (p : Message → Bool) (ms : List Message) → IsAscending ms → IsAscending (filter p ms)
unfolding filter
filter-IsAscending p [] h = tt
filter-IsAscending p (m ∷ ms) (h, hs) = elim (Bool-cases (p m)) [
  | inl e ↦ rw e (All-filter (λ (n : Message). m.id < n.id) p ms h, filter-IsAscending p ms hs)
  | inr e ↦ rw e (filter-IsAscending p ms hs)
]

heads_eq : (x y : Message) (xs ys : List Message) → x ∷ xs ≡ y ∷ ys → (x ≡ y) × (xs ≡ ys)
heads_eq x y xs ys h = (cc, cc)

newer_id : (room_id a : ℕ) (m : Message) → newer room_id a m ≡ true → a < m.id
newer_id room_id a m h = ground (arith, h)

not_newer :
    (room_id a b : ℕ) (m : Message) → newer room_id a m ≡ false → a < b → newer room_id b m ≡ false
not_newer room_id a b m h lt = ground (arith, h)

newer_same :
    (room_id a b : ℕ) (m : Message) → a < b → b < m.id → newer room_id b m ≡ newer room_id a m
newer_same room_id a b m lt lt' = ground arith

-- What is newer than the first message of a page is the rest of what the page begins with.
next_newer :
    (room_id a : ℕ) (y : Message) (xs ys : List Message)
    → IsAscending xs
    → filter (newer room_id a) xs ≡ y ∷ ys
    → filter (newer room_id y.id) xs ≡ ys
unfolding filter
next_newer room_id a y [] ys asc h = cc
next_newer room_id a y (x ∷ xs) ys (below, asc) h = elim (Bool-cases (newer room_id a x)) [
  | inl new ↦
      let (first, rest) = heads_eq x y (filter (newer room_id a) xs) ys (rw new at h) in
      let lt = newer_id room_id a x new in
      let own : newer room_id y.id x ≡ false = ground (arith, first) in
      rw own (
        filter_ext (newer room_id y.id) (newer room_id a) xs (
          All_imp (λ (m : Message). x.id < m.id)
            (λ (m : Message). newer room_id y.id m ≡ newer room_id a m) xs
            (λ m l. rw (← first) (newer_same room_id a x.id m lt l)) below)
        ∙ rest)
  | inr old ↦
      let h' = rw old at h in
      let inside = filter-All (newer room_id a) xs in
      let lt = newer_id room_id a y ((rw h' at inside).0) in
      rw (not_newer room_id a y.id x old lt) (next_newer room_id a y xs ys asc h')
]

module _ (room_id : ℕ) (all : List Message) (asc : IsAscending all) where
  abbrev Continues : ℕ → ℕ → List Message → Type 0
  Continues n a ms = ms ≡ take n ms ++ filter (newer room_id (last_id a (take n ms))) all

  continue_step :
      (n a : ℕ) (ms : List Message)
      → ((b : ℕ) → Continues n b (filter (newer room_id b) all))
      → filter (newer room_id a) all ≡ ms
      → Continues (suc n) a ms
  continue_step n a [] smaller e = sym e
  continue_step n a (m ∷ ms) smaller e =
      ap (◌∷◌ m) (rw (next_newer room_id a m all ms asc e) at (smaller m.id))

  pages_continue : (n a : ℕ) → Continues n a (filter (newer room_id a) all)
  pages_continue zero a = refl
  pages_continue (suc n) a =
      continue_step n a (filter (newer room_id a) all) (λ b. pages_continue n b) refl

module _ (M : MessageTable) where
  open M use {State, by_id}

  -- A page after an id that the query returns is the beginning of the messages of the room that are
  -- newer than the id: with the messages newer than the page's last one it makes up all of them.
  pub get_messages_after_lem :
      (room_id after_id limit : ℕ) (s : State) (ms : List Message)
      → get_messages_after M room_id after_id limit s ≡ some ms
      → filter (newer room_id after_id) (by_id s)
        ≡ ms ++ filter (newer room_id (last_id after_id ms)) (by_id s)
  unfolding get_messages_after
  get_messages_after_lem room_id after_id limit s ms h =
      let page = M.find_asc_ok (newer room_id after_id) limit s ms h in
      rw page (pages_continue room_id (by_id s) (M.ascending s) limit after_id)

  pub in_order_lem :
      (p : Message → Bool) (limit : ℕ) (s : State) (ms : List Message)
      → in_order (M.find_desc p limit s) ≡ some ms
      → ms ≡ last_of limit (filter p (by_id s))
  unfolding in_order
  in_order_lem p limit s ms h = elim (Option-cases (M.find_desc p limit s)) [
    | inl e ↦ cc (rw e at h)
    | inr (rows, e) ↦
        let turned : turn_around rows ≡ ms = ground (arith, (rw e at h)) in
        sym turned
        ∙ ap turn_around (M.find_desc_ok p limit s rows e)
        ∙ descending-last_of p limit (by_id s)
  ]

  -- A page before an id, and the latest page, are the last messages of the room, of those older
  -- than the id or of all, at most as many as the limit and in ascending order.
  pub get_messages_before_lem :
      (room_id before_id limit : ℕ) (s : State) (ms ns : List Message)
      → get_messages_before M room_id before_id limit s ≡ some ms
      → get_latest_messages M room_id limit s ≡ some ns
      → (ms ≡ last_of limit (filter (older room_id before_id) (by_id s)))
        × (ns ≡ last_of limit (filter (in_room room_id) (by_id s)))
  unfolding get_messages_before get_latest_messages
  get_messages_before_lem room_id before_id limit s ms ns h k = (
    in_order_lem (older room_id before_id) limit s ms h,
    in_order_lem (in_room room_id) limit s ns k,
  )
