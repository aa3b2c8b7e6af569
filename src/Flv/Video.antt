-- ===== src/Flv/Video.antt =====
-- The muxer's writes, read back: tags, video frames and the stream's head.
use nexusroom.Base.{
  ℕ, suc, zero, ◌+◌, ◌-◌, ◌/◌, ◌%◌, ◌<◌, ◌≤◌, ◌≡◌, refl, sym, ap, ◌∙◌, Bool, true, false, Option,
  none, some, List, [], ◌∷◌, ◌++◌, append_assoc, append-nil, append-nil, length, ◌==◌,
  if◌then◌else◌, arith, All, length-append,
}
use nexusroom.Flv.{
  Writer, Error, Frame, put_uint32, byte0, byte8, byte16, uint32, quo64, sub64, millisecond,
  tag_header, put, checked, continue, write_tag, write_frame, frame_body, frame_size, nalu_bytes,
  is_empty,
}
use nexusroom.Flv.Demux.{
  Tag, tag_bytes, parse_tag, parse_tag-tag_bytes, split_at, split_at-append, be32, be24,
  be32-put_uint32,
}

module _ (S : Writer) where
  open S use {W, write, sent, write_sent}

  checked-none : (r : Bool × W) → (checked S r).0 ≡ none → (r.0 ≡ true) × (r.1 ≡ (checked S r).1)
  checked-none (true, w) e = (refl, refl)
  checked-none (false, w) e = cc

  pub put_sent : (bs : List ℕ) (w : W) → (put S bs w).0 ≡ none → sent (put S bs w).1 ≡ sent w ++ bs
  unfolding put
  put_sent bs w e =
      let (done, same) = checked-none (write bs w) e in ap sent (sym same) ∙ write_sent bs w done

  continue-none :
      (r : Option Error × W) (k : W → Option Error × W)
      → (continue S r k).0 ≡ none
      → (r.0 ≡ none) × (continue S r k ≡ k r.1)
  continue-none (none, w) k e = (refl, refl)
  continue-none (some x, w) k e = cc

  -- An action that, if it reports no error, has sent these bytes.
  abbrev pub Sends : (W → Option Error × W) → List ℕ → Type 0
  Sends m bs = (w : W) → (m w).0 ≡ none → sent (m w).1 ≡ sent w ++ bs

  pub Sends-continue :
      (m k : W → Option Error × W) (bs cs : List ℕ)
      → Sends m bs
      → Sends k cs
      → Sends (λ w. continue S (m w) k) (bs ++ cs)
  Sends-continue m k bs cs hm hk w e =
      let (fine, same) = continue-none (m w) k e in
      let fine_k = sym (ap (λ (r : Option Error × W). r.0) same) ∙ e in
      ap (λ (r : Option Error × W). sent r.1) same
      ∙ hk (m w).1 fine_k
      ∙ ap (λ (xs : List ℕ). xs ++ cs) (hm w fine)
      ∙ append_assoc (sent w) bs cs

  pub Sends-nothing : Sends (λ w. (none, w)) []
  Sends-nothing w e = sym (append-nil (sent w))

  pub write_tag-Sends :
      (ty ts : ℕ) (body : List ℕ) → Sends (write_tag S ty ts body) (tag_bytes ty ts body)
  unfolding write_tag
  write_tag-Sends ty ts body w e =
      Sends-continue (put S (tag_header ty ts body))
        (λ v. continue S (put S body v) (put S (put_uint32 (uint32 (11 + length body)))))
        (tag_header ty ts body) (body ++ put_uint32 (uint32 (11 + length body)))
        (put_sent (tag_header ty ts body))
        (Sends-continue (put S body) (put S (put_uint32 (uint32 (11 + length body)))) body
          (put_uint32 (uint32 (11 + length body))) (put_sent body)
          (put_sent (put_uint32 (uint32 (11 + length body)))))
        w e

-- The units of an access unit, each behind its length in four bytes; a reader on fuel.
abbrev push_nalu : List ℕ → Option (List (List ℕ)) → Option (List (List ℕ))
push_nalu nalu none = none
push_nalu nalu (some nalus) = some (nalu ∷ nalus)

abbrev then_nalus :
    (List ℕ → Option (List (List ℕ))) → Option (List ℕ × List ℕ) → Option (List (List ℕ))
then_nalus k none = none
then_nalus k (some (nalu, rest)) = push_nalu nalu (k rest)

unfoldable pub parse_nalus : ℕ → List ℕ → Option (List (List ℕ))
parse_nalus fuel [] = some []
parse_nalus (suc fuel) (a ∷ b ∷ c ∷ d ∷ bs) =
    then_nalus (parse_nalus fuel) (split_at (be32 a b c d) bs)
parse_nalus fuel _ = none

parse_nalus-nalu_bytes :
    (fuel : ℕ) (nalus : List (List ℕ))
    → length nalus ≤ fuel
    → All (λ nalu. length nalu < 4294967296) nalus
    → parse_nalus fuel (nalu_bytes nalus) ≡ some nalus
unfolding parse_nalus nalu_bytes
parse_nalus-nalu_bytes zero [] h b = refl
parse_nalus-nalu_bytes (suc fuel) [] h b = refl
parse_nalus-nalu_bytes zero (nalu ∷ nalus) h b = absurd (omega arith)
parse_nalus-nalu_bytes (suc fuel) (nalu ∷ nalus) h (small, b) =
    rw (be32-put_uint32 (length nalu) small, split_at-append nalu (nalu_bytes nalus))
      (ap (push_nalu nalu) (parse_nalus-nalu_bytes fuel nalus (omega arith) b))

-- What a player reads from the body of a video tag.
pub record Picture : Type 0 where
  pub is_key : Bool
  pub composition : ℕ
  pub nalus : List (List ℕ)

abbrev picture : ℕ → ℕ → Option (List (List ℕ)) → Option Picture
picture first composition none = none
picture first composition (some nalus) =
    some (record { is_key = first == 0x17; composition = composition; nalus = nalus })

unfoldable pub parse_picture : List ℕ → Option Picture
parse_picture (first ∷ packet ∷ c2 ∷ c1 ∷ c0 ∷ bs) =
    if packet == 1 then picture first (be24 c2 c1 c0) (parse_nalus (length bs) bs) else none
parse_picture _ = none

length-nalu_bytes : (nalus : List (List ℕ)) → length (nalu_bytes nalus) ≡ frame_size nalus
unfolding nalu_bytes frame_size
length-nalu_bytes [] = refl
length-nalu_bytes (nalu ∷ nalus) =
    omega (arith, length-append nalu (nalu_bytes nalus), length-nalu_bytes nalus)

-- The room that `WriteFrame` reserves for a body, 5 + frameSize, is exactly its length.
pub length-frame_body : (frame : Frame) → length (frame_body frame) ≡ 5 + frame_size frame.nalus
unfolding frame_body
length-frame_body frame = omega (arith, length-nalu_bytes frame.nalus)

length-le-frame_size : (nalus : List (List ℕ)) → length nalus ≤ frame_size nalus
unfolding frame_size
length-le-frame_size [] = omega arith
length-le-frame_size (nalu ∷ nalus) = omega (arith, length-le-frame_size nalus)

frame_size-All :
    (n : ℕ) (nalus : List (List ℕ)) → frame_size nalus < n → All (λ nalu. length nalu < n) nalus
unfolding frame_size
frame_size-All n [] h = tt
frame_size-All n (nalu ∷ nalus) h = (omega arith, frame_size-All n nalus (omega arith))

-- The composition time of a frame that is shown after it is decoded, in milliseconds.
composition_time :
    (pts dts : ℕ)
    → dts ≤ pts
    → pts < 9223372036854775808
    → (pts - dts) / millisecond < 8388608
    → let c = quo64 (sub64 pts dts) millisecond in
      be24 (byte16 c) (byte8 c) (byte0 c) ≡ (pts - dts) / millisecond
composition_time pts dts order small short =
    let e : sub64 pts dts ≡ pts - dts = omega arith in rw e (ground arith)

parse_picture-frame_body :
    (frame : Frame)
    → frame_size frame.nalus < 4294967296
    → frame.dts ≤ frame.pts
    → frame.pts < 9223372036854775808
    → (frame.pts - frame.dts) / millisecond < 8388608
    → parse_picture (frame_body frame)
      ≡ some (record {
        is_key = frame.key_frame;
        composition = (frame.pts - frame.dts) / millisecond;
        nalus = frame.nalus;
      })
unfolding parse_picture frame_body
parse_picture-frame_body frame small order range short =
    rw
      (
        composition_time frame.pts frame.dts order range short,
        parse_nalus-nalu_bytes (length (nalu_bytes frame.nalus)) frame.nalus
            (omega (arith, length-nalu_bytes frame.nalus, length-le-frame_size frame.nalus))
            (frame_size-All 4294967296 frame.nalus small),
      )
      (ground arith)

module _ (S : Writer) where
  open S use {W, sent}

  write_frame_lem :
      (frame : Frame)
      → is_empty frame.nalus ≡ false
      → write_frame S frame
        ≡ write_tag S 9 (uint32 (quo64 frame.dts millisecond)) (frame_body frame)
  unfolding write_frame
  write_frame_lem frame e = rw e

  -- A frame with units, at times 0 ≤ dts ≤ pts in the range of int64 and less than 2 ^ 23
  -- milliseconds apart, whose tag body fits 24 bits: where `WriteFrame` reports no error, the bytes
  -- that it has added to the stream are read back, in front of any rest, as one video
  -- tag at the decode time in milliseconds modulo 2 ^ 32, and its body as the same units, key flag
  -- and composition time.
  pub parse_tag-write_frame :
      (frame : Frame) (rest : List ℕ) (w : W)
      → is_empty frame.nalus ≡ false
      → frame_size frame.nalus + 5 < 16777216
      → frame.dts ≤ frame.pts
      → frame.pts < 9223372036854775808
      → (frame.pts - frame.dts) / millisecond < 8388608
      → (write_frame S frame w).0 ≡ none
      → (bs : List ℕ) × (tag : Tag) × (sent (write_frame S frame w).1 ≡ sent w ++ bs)
        × (parse_tag (bs ++ rest) ≡ some (tag, rest))
        × (tag.tag_type ≡ 9)
        × (tag.timestamp ≡ frame.dts / millisecond % 4294967296)
        × (parse_picture tag.body
            ≡ some (record {
              is_key = frame.key_frame;
              composition = (frame.pts - frame.dts) / millisecond;
              nalus = frame.nalus;
            }))
  parse_tag-write_frame frame rest w some_nalu small order range short fine =
      let ts : ℕ = uint32 (quo64 frame.dts millisecond) in
      let body = frame_body frame in
      let e : write_frame S frame ≡ write_tag S 9 ts body = write_frame_lem frame some_nalu in
      (
        tag_bytes 9 ts body,
        record { tag_type = 9; timestamp = ts; body = body },
        rw e (write_tag-Sends S 9 ts body w (rw e at fine)),
        parse_tag-tag_bytes 9 ts body rest (omega arith) (omega (arith, length-frame_body frame)),
        refl,
        ground arith,
        parse_picture-frame_body frame (omega arith) order range short,
      )
