-- ===== src/Flv/Head.antt =====
-- `WriteHeader`, read back: the file's head, the H264 configuration and the AAC configuration.
use nexusroom.Base.{
  ℕ, suc, zero, ◌+◌, ◌*◌, ◌<◌, ◌≤◌, ◌≡◌, ap, subst, ◌↔◌, Bool, true, false, not, ◌||◌, Option, none,
  some, List, [], ◌∷◌, ◌++◌, append_assoc, append-nil, length, if◌then◌else◌, arith, Bool-cases,
  inl, inr, length-append, ltb,
}
use nexusroom.Flv.{
  Writer, Error, byte0, byte8, write_header, avc_config, is_empty, invalid_h264_config,
}
use nexusroom.Flv.Demux.{Tag, tag_bytes, parse_tag, parse_tag-tag_bytes, split_at, split_at-append}
use nexusroom.Flv.Video.{Sends, Sends-continue, Sends-nothing, put_sent, write_tag-Sends}

abbrev push_tag : Tag → Option (List Tag × List ℕ) → Option (List Tag × List ℕ)
push_tag tag none = none
push_tag tag (some (tags, rest)) = some (tag ∷ tags, rest)

abbrev then_tags :
    (List ℕ → Option (List Tag × List ℕ)) → Option (Tag × List ℕ) → Option (List Tag × List ℕ)
then_tags k none = none
then_tags k (some (tag, rest)) = push_tag tag (k rest)

-- The next n tags and what follows them.
unfoldable pub parse_tags : ℕ → List ℕ → Option (List Tag × List ℕ)
parse_tags zero bs = some ([], bs)
parse_tags (suc n) bs = then_tags (parse_tags n) (parse_tag bs)

abbrev be16 : ℕ → ℕ → ℕ
be16 a b = a * 256 + b

abbrev picture_set : List ℕ → Option (List ℕ × List ℕ) → Option (List ℕ × List ℕ)
picture_set sps none = none
picture_set sps (some (pps, rest)) = some (sps, pps)

abbrev after_sps : Option (List ℕ × List ℕ) → Option (List ℕ × List ℕ)
after_sps none = none
after_sps (some (sps, n ∷ m1 ∷ m0 ∷ rest)) = picture_set sps (split_at (be16 m1 m0) rest)
after_sps (some (sps, _)) = none

-- The parameter sets in an AVC sequence header.
unfoldable pub parse_config : List ℕ → Option (List ℕ × List ℕ)
parse_config (k ∷ a ∷ b ∷ c ∷ d ∷ v ∷ profile ∷ compat ∷ level ∷ x ∷ y ∷ n1 ∷ n0 ∷ bs) =
    after_sps (split_at (be16 n1 n0) bs)
parse_config _ = none

split_at-all : (xs : List ℕ) → split_at (length xs) xs ≡ some (xs, [])
split_at-all xs =
    subst (λ ys. split_at (length xs) ys ≡ some (xs, [])) (append-nil xs) (split_at-append xs [])

be16-put_uint16 : (n : ℕ) → n < 65536 → be16 (byte8 n) (byte0 n) ≡ n
be16-put_uint16 n h = omega arith

parse_config-avc_config :
    (sps pps : List ℕ)
    → length sps < 65536
    → length pps < 65536
    → parse_config (avc_config sps pps) ≡ some (sps, pps)
unfolding parse_config avc_config
parse_config-avc_config sps pps hs hp = rw (
  be16-put_uint16 (length sps) hs,
  split_at-append sps (1 ∷ byte8 (length pps) ∷ byte0 (length pps) ∷ pps),
  be16-put_uint16 (length pps) hp,
  split_at-all pps,
)

length-avc_config : (sps pps : List ℕ) → length (avc_config sps pps) ≡ 16 + length sps + length pps
unfolding avc_config
length-avc_config sps pps =
    omega (arith, length-append sps (1 ∷ byte8 (length pps) ∷ byte0 (length pps) ∷ pps))

-- The first thirteen bytes: signature, version, which tracks there are, and the head's length.
abbrev pub file_head : Bool → List ℕ
file_head has_audio =
    b'F' ∷ b'L' ∷ b'V' ∷ 1 ∷ (if has_audio then 5 else 1) ∷ 0 ∷ 0 ∷ 0 ∷ 9 ∷ 0 ∷ 0 ∷ 0 ∷ 0 ∷ []

abbrev pub config_tags : List ℕ → List ℕ → List ℕ → List Tag
config_tags sps pps aac =
    record { tag_type = 9; timestamp = 0; body = avc_config sps pps }
    ∷ (if is_empty aac
        then []
        else record { tag_type = 8; timestamp = 0; body = 0xaf ∷ 0 ∷ aac } ∷ [])

abbrev config_bytes : List ℕ → List ℕ → List ℕ → List ℕ
config_bytes sps pps aac =
    tag_bytes 9 0 (avc_config sps pps)
    ++ (if is_empty aac then [] else tag_bytes 8 0 (0xaf ∷ 0 ∷ aac))

-- The parameter sets that the muxer accepts.
abbrev pub Fits : List ℕ → List ℕ → Type 0
Fits sps pps = (4 ≤ length sps) × (length sps ≤ 65535) × (1 ≤ length pps) × (length pps ≤ 65535)

abbrev invalid : List ℕ → List ℕ → Bool
invalid sps pps =
    ltb (length sps) 4 || is_empty pps || ltb 0xffff (length sps) || ltb 0xffff (length pps)

module _ (S : Writer) where
  open S use {W, sent}

  write_header-Sends :
      (sps pps aac : List ℕ)
      → invalid sps pps ≡ false
      → Sends S
          (write_header S sps pps aac)
          (file_head (not (is_empty aac)) ++ config_bytes sps pps aac)
  unfolding write_header
  write_header-Sends sps pps [] e = rw e (
      Sends-continue S _ _ (file_head false) _ (put_sent S (file_head false)) (
        Sends-continue S _ _ (tag_bytes 9 0 (avc_config sps pps)) []
          (write_tag-Sends S 9 0 (avc_config sps pps)) (Sends-nothing S)))
  write_header-Sends sps pps (a ∷ aac) e = rw e (
      Sends-continue S _ _ (file_head true) _ (put_sent S (file_head true)) (
        Sends-continue S _ _ (tag_bytes 9 0 (avc_config sps pps)) _
          (write_tag-Sends S 9 0 (avc_config sps pps))
          (write_tag-Sends S 8 0 (0xaf ∷ 0 ∷ a ∷ aac))))

  write_header-invalid :
      (sps pps aac : List ℕ) (w : W)
      → invalid sps pps ≡ true
      → write_header S sps pps aac w ≡ (some invalid_h264_config, w)
  unfolding write_header
  write_header-invalid sps pps aac w e = rw e

invalid_iff : (sps pps : List ℕ) → (invalid sps pps ≡ false) ↔ Fits sps pps
invalid_iff sps [] = ground arith
invalid_iff sps (p ∷ pps) = ground arith

parse_tags-config_bytes :
    (sps pps aac rest : List ℕ)
    → Fits sps pps
    → length aac + 2 < 16777216
    → parse_tags (length (config_tags sps pps aac)) (config_bytes sps pps aac ++ rest)
      ≡ some (config_tags sps pps aac, rest)
unfolding parse_tags
parse_tags-config_bytes sps pps [] rest h small = rw (
  append-nil (tag_bytes 9 0 (avc_config sps pps)),
  parse_tag-tag_bytes 9 0 (avc_config sps pps) rest (omega arith)
      (omega (arith, length-avc_config sps pps)),
)
parse_tags-config_bytes sps pps (a ∷ aac) rest h small = rw (
  append_assoc (tag_bytes 9 0 (avc_config sps pps)) (tag_bytes 8 0 (0xaf ∷ 0 ∷ a ∷ aac)) rest,
  parse_tag-tag_bytes 9 0 (avc_config sps pps) (tag_bytes 8 0 (0xaf ∷ 0 ∷ a ∷ aac) ++ rest)
      (omega arith) (omega (arith, length-avc_config sps pps)),
  parse_tag-tag_bytes 8 0 (0xaf ∷ 0 ∷ a ∷ aac) rest (omega arith) (omega arith),
)

module _ (S : Writer) where
  open S use {W, sent}

  -- Parameter sets of the wrong sizes are refused before anything is written.
  pub write_header_refuses :
      (sps pps aac : List ℕ) (w : W)
      → ¬ Fits sps pps
      → write_header S sps pps aac w ≡ (some invalid_h264_config, w)
  write_header_refuses sps pps aac w bad = elim (Bool-cases (invalid sps pps)) [
    | inl e ↦ write_header-invalid S sps pps aac w e
    | inr e ↦ absurd (bad ((invalid_iff sps pps).0 e))
  ]

  write_header-Fits :
      (sps pps aac : List ℕ) (w : W) → (write_header S sps pps aac w).0 ≡ none → Fits sps pps
  write_header-Fits sps pps aac w fine = elim (Bool-cases (invalid sps pps)) [
    | inl e ↦ cc (ap (λ (r : Option Error × W). r.0) (write_header-invalid S sps pps aac w e))
    | inr e ↦ (invalid_iff sps pps).0 e
  ]

  -- Where `WriteHeader` reports no error, for an AAC configuration of less than 2 ^ 24 - 2 bytes:
  -- the SPS has 4 to 65535 bytes and the PPS 1 to 65535, and what has been added to the stream is
  -- the file's head, whose flags announce audio just if there is an AAC configuration, and then
  -- bytes that are read back, in front of any rest, as the AVC configuration tag, from which both
  -- parameter sets are recovered, and an AAC configuration tag if there is one.
  pub parse_tags-write_header :
      (sps pps aac rest : List ℕ) (w : W)
      → length aac + 2 < 16777216
      → (write_header S sps pps aac w).0 ≡ none
      → Fits sps pps
        × (bs : List ℕ) × (sent (write_header S sps pps aac w).1
            ≡ sent w ++ (file_head (not (is_empty aac)) ++ bs))
        × (parse_tags (length (config_tags sps pps aac)) (bs ++ rest)
            ≡ some (config_tags sps pps aac, rest))
        × (parse_config (avc_config sps pps) ≡ some (sps, pps))
  parse_tags-write_header sps pps aac rest w small fine =
      let h = write_header-Fits sps pps aac w fine in
      (
        h,
        config_bytes sps pps aac,
        write_header-Sends S sps pps aac ((invalid_iff sps pps).1 h) w fine,
        parse_tags-config_bytes sps pps aac rest h small,
        parse_config-avc_config sps pps (omega arith) (omega arith),
      )
