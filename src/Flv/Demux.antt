-- ===== src/Flv/Demux.antt =====
-- A reader of FLV tags, written from the file format, and the tags that muxer.go writes.
use nexusroom.Base.{
  ℕ, suc, zero, ◌+◌, ◌*◌, ◌%◌, ==-refl, ◌<◌, ◌≡◌, refl, ap, Option, none, some, List, [], ◌∷◌, ◌++◌,
  append_assoc, length, ◌==◌, if◌then◌else◌, arith,
}
use nexusroom.Flv.{put_uint32, uint32, byte0, byte8, byte16, byte24, tag_header}

pub record Tag : Type 0 where
  pub tag_type : ℕ
  pub timestamp : ℕ
  pub body : List ℕ

abbrev pub be24 : ℕ → ℕ → ℕ → ℕ
be24 a b c = a * 65536 + b * 256 + c

abbrev pub be32 : ℕ → ℕ → ℕ → ℕ → ℕ
be32 a b c d = a * 16777216 + b * 65536 + c * 256 + d

abbrev push_first : ℕ → Option (List ℕ × List ℕ) → Option (List ℕ × List ℕ)
push_first x none = none
push_first x (some (xs, rest)) = some (x ∷ xs, rest)

-- The first n bytes and the rest, if there are so many.
unfoldable pub split_at : ℕ → List ℕ → Option (List ℕ × List ℕ)
split_at zero bs = some ([], bs)
split_at (suc n) [] = none
split_at (suc n) (b ∷ bs) = push_first b (split_at n bs)

pub split_at-append : (xs ys : List ℕ) → split_at (length xs) (xs ++ ys) ≡ some (xs, ys)
unfolding split_at
split_at-append [] ys = refl
split_at-append (x ∷ xs) ys = ap (push_first x) (split_at-append xs ys)

-- The four bytes behind a tag repeat its size.
abbrev check_size : ℕ → ℕ → ℕ → List ℕ × List ℕ → Option (Tag × List ℕ)
check_size ty ts n (body, p3 ∷ p2 ∷ p1 ∷ p0 ∷ rest) =
    if be32 p3 p2 p1 p0 == 11 + n
    then some (record { tag_type = ty; timestamp = ts; body = body }, rest)
    else none
check_size ty ts n (body, _) = none

abbrev with_body : ℕ → ℕ → ℕ → Option (List ℕ × List ℕ) → Option (Tag × List ℕ)
with_body ty ts n none = none
with_body ty ts n (some r) = check_size ty ts n r

unfoldable pub parse_tag : List ℕ → Option (Tag × List ℕ)
parse_tag (ty ∷ n2 ∷ n1 ∷ n0 ∷ t2 ∷ t1 ∷ t0 ∷ t3 ∷ s2 ∷ s1 ∷ s0 ∷ rest) =
    if be24 s2 s1 s0 == 0
    then with_body ty (be32 t3 t2 t1 t0) (be24 n2 n1 n0) (split_at (be24 n2 n1 n0) rest)
    else none
parse_tag _ = none

pub be24-put_uint24 :
    (n : ℕ) → n < 16777216 → be24 (byte16 (uint32 n)) (byte8 (uint32 n)) (byte0 (uint32 n)) ≡ n
be24-put_uint24 n h = omega arith

-- The low 24 bits of a time stamp and, behind them, the upper 8.
timestamp_bytes :
    (t : ℕ)
    → t < 4294967296
    → be32 (byte24 t) (byte16 (t % 16777216)) (byte8 (t % 16777216)) (byte0 (t % 16777216)) ≡ t
timestamp_bytes t h = omega arith

pub be32-put_uint32 :
    (n : ℕ)
    → n < 4294967296
    → be32 (byte24 (uint32 n)) (byte16 (uint32 n)) (byte8 (uint32 n)) (byte0 (uint32 n)) ≡ n
be32-put_uint32 n h = omega arith

-- All the bytes of one tag.
abbrev pub tag_bytes : ℕ → ℕ → List ℕ → List ℕ
tag_bytes ty ts body = tag_header ty ts body ++ (body ++ put_uint32 (uint32 (11 + length body)))

pub parse_tag-tag_bytes :
    (ty ts : ℕ) (body rest : List ℕ)
    → ts < 4294967296
    → length body < 16777216
    → parse_tag (tag_bytes ty ts body ++ rest)
      ≡ some (record { tag_type = ty; timestamp = ts; body = body }, rest)
unfolding parse_tag tag_header
parse_tag-tag_bytes ty ts body rest ht hn =
    rw
      (
        timestamp_bytes ts ht,
        be24-put_uint24 (length body) hn,
        append_assoc body,
        split_at-append body,
      )
      (rw (be32-put_uint32 (11 + length body) (omega arith), ==-refl (11 + length body)))
