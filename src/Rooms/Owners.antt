-- ===== src/Rooms/Owners.antt =====
-- Rooms whose owners are members, and what each change of the two tables does to that.
use nexusroom.Base.{
  ℕ, ◌≤◌, ◌≡◌, ◌≢◌, refl, sym, ap, ◌∙◌, inl, inr, Bool, true, false, not, List, [], ◌∷◌, ◌++◌, map,
  ◌==◌, if◌then◌else◌, any, count, filter, count-append, count-filter-le, All, All-append,
  All-filter, arith, Bool-cases, ==-refl,
}
use nexusroom.Rooms.{Room, RoomMember, same_room, member_of}

abbrev pub HasOwner : List RoomMember → Room → Type 0
HasOwner members r = any (member_of r.id r.owner_id) members ≡ true

-- The ids of the rooms are distinct, and the owner of each is a member of it.
pub record Owned (rooms : List Room) (members : List RoomMember) : Type 0 where
  pub ids : (n : ℕ) → count (λ (q : Room). q.id == n) rooms ≤ 1
  pub owners : All (HasOwner members) rooms

module _ {A : Type 0} where
  any-append : (p : A → Bool) (xs ys : List A) → any p xs ≡ true → any p (xs ++ ys) ≡ true
  unfolding any
  any-append p [] ys e = cc
  any-append p (x ∷ xs) ys e = ground (arith, any-append p xs ys)

  any-last : (p : A → Bool) (xs : List A) (y : A) → p y ≡ true → any p (xs ++ y ∷ []) ≡ true
  unfolding any
  any-last p [] y e = ground (arith, e)
  any-last p (x ∷ xs) y e = ground (arith, any-last p xs y e)

  any-filter :
      (p q : A → Bool) (xs : List A)
      → ((x : A) → p x ≡ true → q x ≡ true)
      → any p xs ≡ true
      → any p (filter q xs) ≡ true
  unfolding any filter
  any-filter p q [] h e = e
  any-filter p q (x ∷ xs) h e = elim (Bool-cases (p x)) [
    | inl hit ↦ rw (h x hit) (ground (arith, hit))
    | inr miss ↦ ground (arith, any-filter p q xs h, miss)
  ]

  All-apply : (P Q : A → Type 0) (xs : List A) → All (λ x. P x → Q x) xs → All P xs → All Q xs
  All-apply P Q [] h k = tt
  All-apply P Q (x ∷ xs) (f, h) (a, k) = (f a, All-apply P Q xs h k)

  All-every : {P : A → Type 0} (xs : List A) → ((x : A) → P x) → All P xs
  All-every [] h = tt
  All-every (x ∷ xs) h = (h x, All-every xs h)

  All-filter_test : (p : A → Bool) (xs : List A) → All (λ x. p x ≡ true) (filter p xs)
  unfolding filter
  All-filter_test p [] = tt
  All-filter_test p (x ∷ xs) = elim (Bool-cases (p x)) [
    | inl e ↦ rw e (e, All-filter_test p xs)
    | inr e ↦ rw e (All-filter_test p xs)
  ]

pub add_member-Owned :
    (rooms : List Room) (members : List RoomMember) (m : RoomMember)
    → Owned rooms members
    → Owned rooms (members ++ m ∷ [])
add_member-Owned rooms members m v = record {
  ids = v.ids;
  owners =
      All-apply (HasOwner members) (HasOwner (members ++ m ∷ [])) rooms
        (All-every rooms (λ r. any-append (member_of r.id r.owner_id) members (m ∷ []))) v.owners;
}

absent-All :
    (n : ℕ) (rooms : List Room)
    → count (λ (q : Room). q.id == n) rooms ≡ 0
    → All (λ (q : Room). q.id ≢ n) rooms
unfolding count
absent-All n [] e = tt
absent-All n (q ∷ rooms) e = (ground arith, absent-All n rooms (ground arith))

-- A room with the id of a listed room is that room, as far as the owner goes.
abbrev SameOwner : Room → Room → Type 0
SameOwner room q = q.id ≡ room.id → q.owner_id ≡ room.owner_id

same_owner :
    (room : Room) (before after : List Room)
    → count (λ (q : Room). q.id == room.id) (before ++ room ∷ after) ≤ 1
    → All (SameOwner room) (before ++ room ∷ after)
unfolding count
same_owner room before after one =
    let parts = count-append (λ (q : Room). q.id == room.id) before (room ∷ after) in
    let self = ==-refl room.id in
    let far = λ (rs : List Room) (e : count (λ (q : Room). q.id == room.id) rs ≡ 0).
      All-apply (λ (q : Room). q.id ≢ room.id) (SameOwner room) rs
        (All-every rs (λ q apart same. absurd (apart same))) (absent-All room.id rs e) in
    All-append (SameOwner room) before (room ∷ after) (far before (ground arith))
      (λ same. refl, far after (ground arith))

keep_owner :
    (room : Room) (u : ℕ) (members : List RoomMember) (q : Room)
    → u ≢ room.owner_id
    → SameOwner room q
    → HasOwner members q
    → HasOwner (filter (λ (m : RoomMember). not (member_of room.id u m)) members) q
keep_owner room u members q other same h =
    any-filter (member_of q.id q.owner_id) (λ m. not (member_of room.id u m)) members
      (λ m hit. elim (Bool-cases (member_of room.id u m)) [
        | inr miss ↦ rw miss refl
        | inl gone ↦
            let at_room : q.id ≡ room.id = ground arith in
            let owner = same at_room in absurd (other (ground arith))
      ])
      h

-- The owner stays when another member of the room is removed.
pub remove_member-Owned :
    (room : Room) (u : ℕ) (before after : List Room) (members : List RoomMember)
    → u ≢ room.owner_id
    → Owned (before ++ room ∷ after) members
    → Owned
        (before ++ room ∷ after)
        (filter (λ (m : RoomMember). not (member_of room.id u m)) members)
remove_member-Owned room u before after members other v = record {
  ids = v.ids;
  owners =
      let rooms = before ++ room ∷ after in
      All-apply (HasOwner members)
        (HasOwner (filter (λ (m : RoomMember). not (member_of room.id u m)) members)) rooms
        (All-apply (SameOwner room)
          (λ (q : Room).
            HasOwner members q
            → HasOwner (filter (λ (m : RoomMember). not (member_of room.id u m)) members) q)
          rooms (All-every rooms (λ q. keep_owner room u members q other))
          (same_owner room before after (v.ids room.id)))
        v.owners;
}

keep_in_other_room :
    (n : ℕ) (members : List RoomMember) (q : Room)
    → not (q.id == n) ≡ true
    → HasOwner members q
    → HasOwner (filter (λ (m : RoomMember). not (m.room_id == n)) members) q
keep_in_other_room n members q other h =
    any-filter (member_of q.id q.owner_id) (λ m. not (m.room_id == n)) members
      (λ m hit. ground arith) h

pub delete_room-Owned :
    (n : ℕ) (rooms : List Room) (members : List RoomMember)
    → Owned rooms members
    → Owned
        (filter (λ (r : Room). not (r.id == n)) rooms)
        (filter (λ (m : RoomMember). not (m.room_id == n)) members)
delete_room-Owned n rooms members v = record {
  ids = λ k. omega (
    arith,
    count-filter-le (λ (q : Room). q.id == k) (λ (r : Room). not (r.id == n)) rooms,
    v.ids k,
  );
  owners =
      let kept = filter (λ (r : Room). not (r.id == n)) rooms in
      All-apply (HasOwner members)
        (HasOwner (filter (λ (m : RoomMember). not (m.room_id == n)) members)) kept
        (All-apply (λ (q : Room). not (q.id == n) ≡ true)
          (λ (q : Room).
            HasOwner members q
            → HasOwner (filter (λ (m : RoomMember). not (m.room_id == n)) members) q)
          kept (All-every kept (keep_in_other_room n members))
          (All-filter_test (λ (r : Room). not (r.id == n)) rooms))
        (All-filter (HasOwner members) (λ (r : Room). not (r.id == n)) rooms v.owners);
}

module _ (room new : Room) (same_id : new.id ≡ room.id) where
  saved_ids :
      (n : ℕ) (rooms : List Room)
      → count (λ (q : Room). q.id == n) (map (λ r. if r.id == room.id then new else r) rooms)
        ≡ count (λ (q : Room). q.id == n) rooms
  unfolding count
  saved_ids n [] = refl
  saved_ids n (r ∷ rooms) = elim (Bool-cases (r.id == room.id)) [
    | inl e ↦
        let same : r.id ≡ new.id = ground (arith, same_id) in rw (e, saved_ids n rooms, same) refl
    | inr e ↦ rw (e, saved_ids n rooms) refl
  ]

  saved_owners :
      (members : List RoomMember) (rooms : List Room)
      → HasOwner members new
      → All (HasOwner members) rooms
      → All (HasOwner members) (map (λ r. if r.id == room.id then new else r) rooms)
  saved_owners members [] h k = tt
  saved_owners members (r ∷ rooms) h (a, k) = elim (Bool-cases (r.id == room.id)) [
    | inl e ↦ rw e (h, saved_owners members rooms h k)
    | inr e ↦ rw e (a, saved_owners members rooms h k)
  ]

  pub update_room-Owned :
      (rooms : List Room) (members : List RoomMember)
      → HasOwner members new
      → Owned rooms members
      → Owned (map (λ r. if r.id == room.id then new else r) rooms) members
  update_room-Owned rooms members h v = record {
    ids = λ n. rw (saved_ids n rooms) (v.ids n);
    owners = saved_owners members rooms h v.owners;
  }

new_id :
    (r : Room) (rooms : List Room)
    → any (same_room r) rooms ≡ false
    → count (λ (q : Room). q.id == r.id) rooms ≡ 0
unfolding any count
new_id r [] e = refl
new_id r (q ∷ rooms) e = ground (arith, new_id r rooms)

-- A new room whose creator becomes a member.
pub create_room-Owned :
    (r : Room) (m : RoomMember) (rooms : List Room) (members : List RoomMember)
    → any (same_room r) rooms ≡ false
    → member_of r.id r.owner_id m ≡ true
    → Owned rooms members
    → Owned (rooms ++ r ∷ []) (members ++ m ∷ [])
unfolding count
create_room-Owned r m rooms members fresh own v = record {
  ids = λ n.
      rw (count-append (λ (q : Room). q.id == n) rooms (r ∷ [])) (elim (Bool-cases (r.id == n)) [
        | inr e ↦ rw e (omega (arith, v.ids n))
        | inl e ↦
            let same : r.id ≡ n = ground arith in
            let free : count (λ (q : Room). q.id == n) rooms ≡ 0 =
              ap (λ (k : ℕ). count (λ (q : Room). q.id == k) rooms) (sym same)
              ∙ new_id r rooms fresh in
            rw e (omega (arith, free))
      ]);
  owners =
      All-append (HasOwner (members ++ m ∷ [])) rooms (r ∷ [])
        (add_member-Owned rooms members m v).owners
        (any-last (member_of r.id r.owner_id) members m own, tt);
}
