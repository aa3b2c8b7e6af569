-- ===== src/Flv.antt =====
-- server/internal/media/flv/muxer.go: the FLV muxer. A byte is a number below 256; an int64
-- (`time.Duration`) is its bit pattern, a number below 2 ^ 64; the `io.Writer` is a parameter.
pub mod Demux
pub mod Video
pub mod Head
pub mod Tests
use nexusroom.Base.{
  ℕ, ◌+◌, ◌-◌, ◌/◌, ◌%◌, ◌^◌, ◌≡◌, Bool, true, false, ◌||◌, Option, none, some, List, [], ◌∷◌, ◌++◌,
  length, ltb, ◌==◌, if◌then◌else◌,
}

-- An `io.Writer`: a write that reports no error has taken all the bytes.
pub record Writer : Type 1 where
  pub W : Type 0
  pub write : List ℕ → W → Bool × W
  pub sent : W → List ℕ
  pub write_sent :
      (bs : List ℕ) (w : W) → (write bs w).0 ≡ true → sent (write bs w).1 ≡ sent w ++ bs

pub data Error : Type 0 where
  invalid_h264_config write_failed : Error

pub record Frame : Type 0 where
  pub pts : ℕ
  pub dts : ℕ
  pub nalus : List (List ℕ)
  pub key_frame : Bool

pub record AudioFrame : Type 0 where
  pub pts : ℕ
  pub payload : List ℕ

-- `byte(value >> k)` of an unsigned value, or of the pattern of a signed one, for k = 0, 8, 16, 24.
abbrev pub byte0 : ℕ → ℕ
byte0 v = v % 256

abbrev pub byte8 : ℕ → ℕ
byte8 v = v / 256 % 256

abbrev pub byte16 : ℕ → ℕ
byte16 v = v / 65536 % 256

abbrev pub byte24 : ℕ → ℕ
byte24 v = v / 16777216 % 256

abbrev pub uint32 : ℕ → ℕ
uint32 v = v % 4294967296

abbrev pub int64_mod : ℕ
int64_mod = 18446744073709551616

abbrev pub put_uint16 : ℕ → List ℕ
put_uint16 v = byte8 v ∷ byte0 v ∷ []

pub put_uint24 : ℕ → List ℕ
put_uint24 v = byte16 v ∷ byte8 v ∷ byte0 v ∷ []

abbrev pub put_uint32 : ℕ → List ℕ
put_uint32 v = byte24 v ∷ byte16 v ∷ byte8 v ∷ byte0 v ∷ []

-- int64 subtraction, and division by a positive number, which rounds towards 0.
abbrev pub sub64 : ℕ → ℕ → ℕ
sub64 a b = (a + int64_mod - b) % int64_mod

abbrev pub quo64 : ℕ → ℕ → ℕ
quo64 a d =
    if ltb a 9223372036854775808 then a / d else (int64_mod - (int64_mod - a) / d) % int64_mod

abbrev pub millisecond : ℕ
millisecond = 1000000

pub frame_size : List (List ℕ) → ℕ
frame_size [] = 0
frame_size (nalu ∷ nalus) = 4 + length nalu + frame_size nalus

-- The eleven bytes that `writeTag` fills in before the body.
pub tag_header : ℕ → ℕ → List ℕ → List ℕ
unfolding put_uint24
tag_header tag_type timestamp body =
    tag_type
    ∷ (put_uint24 (uint32 (length body))
        ++ (put_uint24 (timestamp % 16777216) ++ (byte24 timestamp ∷ 0 ∷ 0 ∷ 0 ∷ [])))

pub nalu_bytes : List (List ℕ) → List ℕ
nalu_bytes [] = []
nalu_bytes (nalu ∷ nalus) = put_uint32 (uint32 (length nalu)) ++ (nalu ++ nalu_bytes nalus)

-- The body of a video tag, as `WriteFrame` appends it.
pub frame_body : Frame → List ℕ
unfolding nalu_bytes
frame_body frame =
    let composition : ℕ = quo64 (sub64 frame.pts frame.dts) millisecond in
    (if frame.key_frame then 0x17 else 0x27)
    ∷ 1
    ∷ byte16 composition
    ∷ byte8 composition
    ∷ byte0 composition
    ∷ nalu_bytes frame.nalus

-- An index below the length; the caller has checked the length.
abbrev byte_at : List ℕ → ℕ → ℕ
byte_at [] i = 0
byte_at (b ∷ bs) i = if i == 0 then b else byte_at bs (i - 1)

pub avc_config : List ℕ → List ℕ → List ℕ
avc_config sps pps =
    (0x17 ∷ 0 ∷ 0 ∷ 0 ∷ 0 ∷ [])
    ++ ((1 ∷ byte_at sps 1 ∷ byte_at sps 2 ∷ byte_at sps 3 ∷ 0xff ∷ 0xe1 ∷ [])
        ++ (put_uint16 (length sps) ++ (sps ++ (1 ∷ (put_uint16 (length pps) ++ pps)))))

abbrev pub is_empty {ℓ} : {A : Type ℓ} → List A → Bool
is_empty [] = true
is_empty (x ∷ xs) = false

module _ (S : Writer) where
  open S use {W, write}

  abbrev pub Action : Type 0
  Action = W → Option Error × W

  abbrev pub checked : Bool × W → Option Error × W
  checked (true, w) = (none, w)
  checked (false, w) = (some write_failed, w)

  -- `if _, err := m.w.Write(bs); err != nil { return err }`
  pub put : List ℕ → Action
  put bs w = checked (write bs w)

  abbrev pub continue : Option Error × W → Action → Option Error × W
  continue (none, w) k = k w
  continue (some e, w) k = (some e, w)

  infixl 5 ◌>>◌
  abbrev pub ◌>>◌ : Action → Action → Action
  ◌>>◌ m k w = continue (m w) k

  pub write_tag : ℕ → ℕ → List ℕ → Action
  unfolding tag_header put
  write_tag tag_type timestamp body = do
    put (tag_header tag_type timestamp body)
    put body
    put (put_uint32 (uint32 (11 + length body)))

  pub write_header : List ℕ → List ℕ → List ℕ → Action
  unfolding avc_config put
  write_header sps pps aac =
      if ltb (length sps) 4 || is_empty pps || ltb 0xffff (length sps) || ltb 0xffff (length pps)
      then (λ w. (some invalid_h264_config, w))
      else (do
        put (
            b'F'
            ∷ b'L'
            ∷ b'V'
            ∷ 1
            ∷ (if is_empty aac then 1 else 5)
            ∷ 0
            ∷ 0
            ∷ 0
            ∷ 9
            ∷ 0
            ∷ 0
            ∷ 0
            ∷ 0
            ∷ [])
        write_tag 9 0 (avc_config sps pps)
        (if is_empty aac then (λ w. (none, w)) else write_tag 8 0 (0xaf ∷ 0 ∷ aac)))

  pub write_audio : AudioFrame → Action
  write_audio frame =
      if is_empty frame.payload
      then (λ w. (none, w))
      else write_tag 8 (uint32 (quo64 frame.pts millisecond)) (0xaf ∷ 1 ∷ frame.payload)

  pub write_frame : Frame → Action
  unfolding frame_body
  write_frame frame =
      if is_empty frame.nalus
      then (λ w. (none, w))
      else write_tag 9 (uint32 (quo64 frame.dts millisecond)) (frame_body frame)
