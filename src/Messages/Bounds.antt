-- ===== src/Messages/Bounds.antt =====
-- What the handler of the pages answers with.
use nexusroom.Base.{
  ℕ, zero, suc, ◌-◌, ◌≤◌, ◌<◌, ◌≡◌, refl, inl, inr, Bool, true, false, ◌&&◌, some, List, [], ◌∷◌,
  take, drop, filter, length, ltb, arith, Bool-cases, Option-cases, All, All_imp,
}
use nexusroom.Ws.Chat.{Message}
use nexusroom.Messages.{
  IsAscending, MessageTable, ℤ, pos, negsuc, success, in_room, newer, older, page_limit,
  get_messages_after, get_messages_before, get_latest_messages, page_of, get_messages,
}
use nexusroom.Messages.Slices.{last_of, length-drop}
use nexusroom.Messages.Pages.{filter-All, filter-IsAscending, in_order_lem}

-- At most `limit` messages of one room in the order of their ids.
pub record IsPage (room_id limit : ℕ) (ms : List Message) : Type 0 where
  pub size : length ms ≤ limit
  pub order : IsAscending ms
  pub room : All (λ (m : Message). m.room_id ≡ room_id) ms

module _ {A : Type 0} (P : A → Type 0) where
  take-All : (n : ℕ) (xs : List A) → All P xs → All P (take n xs)
  take-All zero xs h = tt
  take-All (suc n) [] h = tt
  take-All (suc n) (x ∷ xs) (h, hs) = (h, take-All n xs hs)

  drop-All : (n : ℕ) (xs : List A) → All P xs → All P (drop n xs)
  drop-All zero xs h = h
  drop-All (suc n) [] h = tt
  drop-All (suc n) (x ∷ xs) (h, hs) = drop-All n xs hs

take-IsAscending : (n : ℕ) (ms : List Message) → IsAscending ms → IsAscending (take n ms)
take-IsAscending zero ms h = tt
take-IsAscending (suc n) [] h = tt
take-IsAscending (suc n) (m ∷ ms) (h, hs) =
    (take-All (λ (k : Message). m.id < k.id) n ms h, take-IsAscending n ms hs)

drop-IsAscending : (n : ℕ) (ms : List Message) → IsAscending ms → IsAscending (drop n ms)
drop-IsAscending zero ms h = h
drop-IsAscending (suc n) [] h = tt
drop-IsAscending (suc n) (m ∷ ms) (h, hs) = drop-IsAscending n ms hs

length-take : (n : ℕ) (ms : List Message) → length (take n ms) ≤ n
length-take zero ms = omega arith
length-take (suc n) [] = omega arith
length-take (suc n) (m ∷ ms) = omega (arith, length-take n ms)

page_limit-bounds : (n : ℤ) → (1 ≤ page_limit n) × (page_limit n ≤ 100)
page_limit-bounds (negsuc n) = (omega arith, omega arith)
page_limit-bounds (pos n) = ground arith

in_room_id : (room_id : ℕ) (m : Message) → in_room room_id m ≡ true → m.room_id ≡ room_id
in_room_id room_id m h = ground (arith, h)

and_left : (a b : Bool) → a && b ≡ true → a ≡ true
and_left true b h = refl
and_left false b h = cc

module _ (M : MessageTable) where
  open M use {State, by_id}

  filtered_rows :
      (room_id : ℕ) (p : Message → Bool) (s : State)
      → ((m : Message) → p m ≡ true → in_room room_id m ≡ true)
      → All (λ (m : Message). m.room_id ≡ room_id) (filter p (by_id s))
  filtered_rows room_id p s imp =
      All_imp (λ (m : Message). p m ≡ true) (λ (m : Message). m.room_id ≡ room_id)
        (filter p (by_id s)) (λ m h. in_room_id room_id m (imp m h)) (filter-All p (by_id s))

  first-IsPage :
      (room_id limit : ℕ) (p : Message → Bool) (s : State)
      → ((m : Message) → p m ≡ true → in_room room_id m ≡ true)
      → IsPage room_id limit (take limit (filter p (by_id s)))
  first-IsPage room_id limit p s imp =
      let rows = filter p (by_id s) in
      record {
        size = length-take limit rows;
        order = take-IsAscending limit rows (filter-IsAscending p (by_id s) (M.ascending s));
        room =
            take-All (λ (m : Message). m.room_id ≡ room_id) limit rows
              (filtered_rows room_id p s imp);
      }

  last-IsPage :
      (room_id limit : ℕ) (p : Message → Bool) (s : State)
      → ((m : Message) → p m ≡ true → in_room room_id m ≡ true)
      → IsPage room_id limit (last_of limit (filter p (by_id s)))
  last-IsPage room_id limit p s imp =
      let rows = filter p (by_id s) in
      let n = length rows - limit in
      record {
        size = omega (arith, length-drop n rows);
        order = drop-IsAscending n rows (filter-IsAscending p (by_id s) (M.ascending s));
        room =
            drop-All (λ (m : Message). m.room_id ≡ room_id) n rows (filtered_rows room_id p s imp);
      }

  page_of-IsPage :
      (room_id after_id before_id limit : ℕ) (s : State) (ms : List Message)
      → page_of M room_id after_id before_id limit s ≡ some ms
      → IsPage room_id limit ms
  unfolding page_of get_messages_after get_messages_before get_latest_messages
  page_of-IsPage room_id after_id before_id limit s ms h = elim (Bool-cases (ltb 0 after_id)) [
    | inl a ↦
        let p = newer room_id after_id in
        rw (M.find_asc_ok p limit s ms (rw a at h))
          (first-IsPage room_id limit p s (λ m i. and_left (in_room room_id m) _ i))
    | inr a ↦ elim (Bool-cases (ltb 0 before_id)) [
      | inl b ↦
          let p = older room_id before_id in
          rw (in_order_lem M p limit s ms (rw (a, b) at h))
            (last-IsPage room_id limit p s (λ m i. and_left (in_room room_id m) _ i))
      | inr b ↦
          rw (in_order_lem M (in_room room_id) limit s ms (rw (a, b) at h))
            (last-IsPage room_id limit (in_room room_id) s (λ m i. i))
    ]
  ]

  -- The messages that the handler answers with are asked for by a member of the room, are all of
  -- that room, stand in the order of their ids, and are at most 100, whatever limit is asked for.
  pub get_messages-IsPage :
      (is_member : ℕ → ℕ → Bool) (room_id user_id after_id before_id : ℕ) (limit : ℤ) (s : State)
      (ms : List Message)
      → get_messages M is_member (some room_id) user_id after_id before_id limit s ≡ success ms
      → (is_member room_id user_id ≡ true)
        × IsPage room_id (page_limit limit) ms
        × (page_limit limit ≤ 100)
  unfolding get_messages
  get_messages-IsPage is_member room_id user_id after_id before_id limit s ms h =
      elim (Bool-cases (is_member room_id user_id)) [
        | inr out ↦ cc (rw out at h)
        | inl inside ↦
            elim (Option-cases (page_of M room_id after_id before_id (page_limit limit) s)) [
              | inl e ↦ cc (rw (inside, e) at h)
              | inr (rows, e) ↦
                  let same : rows ≡ ms = ground (arith, (rw (inside, e) at h)) in
                  (
                    inside,
                    rw (← same)
                        (page_of-IsPage room_id after_id before_id (page_limit limit) s rows e),
                    (page_limit-bounds limit).1,
                  )
            ]
      ]
