-- ===== src/Smb/Frame.antt =====
-- smb_server/go/protocol.go: the header of a frame, the frame, and the body of an operation with
-- its stream. Bytes are numbers below 256; the JSON of a body is given as its bytes.
pub mod Codec
mod Tests
use orbit_cloud.Base.{
  ℕ, zero, suc, ◌+◌, ◌-◌, ◌*◌, ◌/◌, ◌%◌, ◌^◌, ◌≡◌, Bool, true, false, not, List, [], ◌∷◌, ◌++◌, ltb,
  ◌==◌, if◌then◌else◌, length, take, drop,
}

abbrev pub magic_number : ℕ
magic_number = 0x4F435354

abbrev pub protocol_version : ℕ
protocol_version = 1

abbrev pub max_body_len : ℕ
max_body_len = 16777216

abbrev pub header_len : ℕ
header_len = 16

-- `FrameHeader`
pub record FrameHeader : Type 0 where
  pub magic : ℕ
  pub version : ℕ
  pub flags : ℕ
  pub msg_type : ℕ
  pub seq : ℕ
  pub body_len : ℕ

-- The errors of this file.
pub data FrameError : Type 0 where
  header_too_short bad_magic version_mismatch body_too_large : FrameError
  operate_body_too_short json_len_overflow : FrameError

pub data Decoded {ℓ} (A : Type ℓ) : Type ℓ where
  decoded : A → Decoded A
  rejected : FrameError → Decoded A

-- binary.BigEndian.PutUint16 and PutUint32
abbrev pub put_uint16 : ℕ → List ℕ
put_uint16 n = n / 256 % 256 ∷ n % 256 ∷ []

abbrev pub put_uint32 : ℕ → List ℕ
put_uint32 n = n / 16777216 % 256 ∷ n / 65536 % 256 ∷ n / 256 % 256 ∷ n % 256 ∷ []

-- buf[i], where the code has tested the length
unfoldable pub byte : List ℕ → ℕ → ℕ
byte [] i = 0
byte (b ∷ rest) zero = b
byte (b ∷ rest) (suc i) = byte rest i

-- binary.BigEndian.Uint16 and Uint32 of buf[i:]
abbrev pub uint16 : List ℕ → ℕ → ℕ
uint16 buf i = byte buf i * 256 + byte buf (i + 1)

abbrev pub uint32 : List ℕ → ℕ → ℕ
uint32 buf i =
    byte buf i * 16777216 + byte buf (i + 1) * 65536 + byte buf (i + 2) * 256 + byte buf (i + 3)

-- `marshalFrameHeader`
unfoldable pub marshal_frame_header : FrameHeader → List ℕ
marshal_frame_header hdr =
    put_uint32 hdr.magic
    ++ (hdr.version
        ∷ hdr.flags
        ∷ (put_uint16 hdr.msg_type ++ (put_uint32 hdr.seq ++ put_uint32 hdr.body_len)))

-- The header that the bytes spell, untested.
unfoldable pub header_at : List ℕ → FrameHeader
unfolding byte
header_at buf = record {
  magic = uint32 buf 0;
  version = byte buf 4;
  flags = byte buf 5;
  msg_type = uint16 buf 6;
  seq = uint32 buf 8;
  body_len = uint32 buf 12;
}

-- The tests of `unmarshalFrameHeader`, in their order.
unfoldable pub checked_header : Bool → FrameHeader → Decoded FrameHeader
checked_header true hdr = rejected header_too_short
checked_header false hdr =
    if not (hdr.magic == magic_number)
    then rejected bad_magic
    else if not (hdr.version == protocol_version)
    then rejected version_mismatch
    else if ltb max_body_len hdr.body_len
    then rejected body_too_large
    else decoded hdr

-- `unmarshalFrameHeader`
unfoldable pub unmarshal_frame_header : List ℕ → Decoded FrameHeader
unfolding header_at checked_header
unmarshal_frame_header buf = checked_header (ltb (length buf) header_len) (header_at buf)

-- `marshalFrame`
unfoldable pub marshal_frame : FrameHeader → List ℕ → List ℕ
unfolding marshal_frame_header
marshal_frame hdr body =
    marshal_frame_header (record hdr {
      magic = magic_number;
      version = protocol_version;
      body_len = length body % 2 ^ 32;
    })
    ++ body

-- `marshalOperateBody`, behind `json.Marshal`
unfoldable pub marshal_operate_body : List ℕ → List ℕ → List ℕ
marshal_operate_body json stream = put_uint32 (length json % 2 ^ 32) ++ (json ++ stream)

-- The tests of `splitOperateBody` for a body that may be too short.
unfoldable pub split_checked : Bool → ℕ → List ℕ → Decoded (List ℕ × List ℕ)
split_checked true json_len body = rejected operate_body_too_short
split_checked false json_len body =
    if ltb (length body - 4) json_len
    then rejected json_len_overflow
    else decoded (take json_len (drop 4 body), drop (4 + json_len) body)

-- `splitOperateBody`
unfoldable pub split_operate_body : List ℕ → Decoded (List ℕ × List ℕ)
unfolding byte split_checked
split_operate_body body = split_checked (ltb (length body) 4) (uint32 body 0) body
