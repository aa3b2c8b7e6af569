-- ===== src/Flv/Tests.antt =====
-- The muxer over a writer that keeps what it is given, and over one that fails.
use nexusroom.Base.{ℕ, ◌≡◌, refl, true, false, some, List, [], ◌∷◌, ◌++◌, arith}
use nexusroom.Flv.{
  Writer, Frame, write_frame, write_header, write_tag, frame_size, avc_config, invalid_h264_config,
  write_failed,
}
use nexusroom.Flv.Demux.{Tag, parse_tag}
use nexusroom.Flv.Video.{parse_picture, parse_tag-write_frame}
use nexusroom.Flv.Head.{
  Fits, file_head, config_tags, parse_tags, parse_config, parse_tags-write_header,
}

abbrev buffer : Writer
buffer = record {
  W = List ℕ;
  write = λ bs w. (true, w ++ bs);
  sent = λ w. w;
  write_sent = λ bs w e. refl;
}

nothing_sent : (bs w : List ℕ) → false ≡ true → w ≡ w ++ bs
nothing_sent bs w e = cc

abbrev broken : Writer
broken = record { W = List ℕ; write = λ bs w. (false, w); sent = λ w. w; write_sent = nothing_sent }

abbrev key_frame : Frame
key_frame = record {
  pts = 80000000;
  dts = 40000000;
  nalus = (0x65 ∷ 1 ∷ []) ∷ (0x41 ∷ []) ∷ [];
  key_frame = true;
}

write_frame_bytes :
    (write_frame buffer key_frame []).1
    ≡ 9 ∷ 0 ∷ 0 ∷ 16 ∷ 0 ∷ 0 ∷ 40 ∷ 0 ∷ 0 ∷ 0 ∷ 0 ∷ 0x17 ∷ 1 ∷ 0 ∷ 0 ∷ 40 ∷ 0 ∷ 0 ∷ 0 ∷ 2 ∷ 0x65 ∷ 1
      ∷ 0 ∷ 0 ∷ 0 ∷ 1 ∷ 0x41 ∷ 0 ∷ 0 ∷ 0 ∷ 27 ∷ []
unfolding write_frame write_tag
write_frame_bytes = refl

write_failed_test : (write_frame broken key_frame []).0 ≡ some write_failed
unfolding write_frame write_tag
write_failed_test = refl

parse_tag-write_frame_example :
    (bs : List ℕ) × (tag : Tag) × ((write_frame buffer key_frame (7 ∷ [])).1 ≡ (7 ∷ []) ++ bs)
    × (parse_tag (bs ++ (5 ∷ [])) ≡ some (tag, 5 ∷ []))
    × (tag.tag_type ≡ 9)
    × (tag.timestamp ≡ 40)
    × (parse_picture tag.body
        ≡ some (record { is_key = true; composition = 40; nalus = key_frame.nalus }))
unfolding write_frame write_tag frame_size
parse_tag-write_frame_example =
    parse_tag-write_frame buffer key_frame (5 ∷ []) (7 ∷ []) refl (omega arith) (omega arith)
      (omega arith) (omega arith) refl

abbrev sps : List ℕ
sps = 0x67 ∷ 0x64 ∷ 0 ∷ 0x1f ∷ 0xac ∷ []

parse_tags-write_header_example :
    Fits sps (0x68 ∷ [])
    × (bs : List ℕ) × ((write_header buffer sps (0x68 ∷ []) (0x12 ∷ []) []).1
        ≡ [] ++ (file_head true ++ bs))
    × (parse_tags 2 (bs ++ []) ≡ some (config_tags sps (0x68 ∷ []) (0x12 ∷ []), []))
    × (parse_config (avc_config sps (0x68 ∷ [])) ≡ some (sps, 0x68 ∷ []))
unfolding write_header write_tag
parse_tags-write_header_example =
    parse_tags-write_header buffer sps (0x68 ∷ []) (0x12 ∷ []) [] [] (omega arith) refl

write_header_short : (write_header buffer (1 ∷ []) (0x68 ∷ []) [] []).0 ≡ some invalid_h264_config
unfolding write_header
write_header_short = refl
