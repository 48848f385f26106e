-- ===== src/Smb/Frame/Codec.antt =====
-- What is sent is what is received, and what is not a frame of this protocol is rejected.
use orbit_cloud.Base.{
  ℕ, suc, ◌+◌, ◌-◌, ◌*◌, ◌/◌, ◌%◌, ◌^◌, ◌≤◌, ◌<◌, ◌≡◌, refl, ap, ◌∙◌, false, List, [], ◌∷◌, ◌++◌,
  ltb, length, take, drop, length-append, le→ltb, arith,
}
use orbit_cloud.Smb.Frame.{
  FrameHeader, decoded, magic_number, protocol_version, max_body_len, header_len, byte, uint32,
  header_at, unmarshal_frame_header, checked_header, split_checked, marshal_frame,
  marshal_operate_body, split_operate_body,
}

uint32-put :
    (n : ℕ)
    → n < 2 ^ 32
    → n / 16777216 % 256 * 16777216 + n / 65536 % 256 * 65536 + n / 256 % 256 * 256 + n % 256 ≡ n
uint32-put n h = omega arith

uint16-put : (n : ℕ) → n < 2 ^ 16 → n / 256 % 256 * 256 + n % 256 ≡ n
uint16-put n h = omega arith

-- The fields fit in their bytes.
abbrev pub Fits : FrameHeader → Type 0
Fits hdr = (hdr.flags < 256) × (hdr.msg_type < 2 ^ 16) × (hdr.seq < 2 ^ 32)

-- The header that a frame carries: the protocol's magic number and version, and the length of
-- the body.
abbrev pub stamped : FrameHeader → List ℕ → FrameHeader
stamped hdr body = record hdr {
  magic = magic_number;
  version = protocol_version;
  body_len = length body;
}

header-marshal :
    (hdr : FrameHeader) (body : List ℕ)
    → Fits hdr
    → length body ≤ max_body_len
    → header_at (marshal_frame hdr body) ≡ stamped hdr body
unfolding header_at marshal_frame byte
header-marshal hdr body (f, m, s) h =
    let n = length body % 2 ^ 32 in
    let whole : n ≡ length body = omega arith in
    let b = uint32-put n (omega arith) ∙ whole in
    λ i. record {
      magic = magic_number;
      version = protocol_version;
      flags = hdr.flags;
      msg_type = uint16-put hdr.msg_type m i;
      seq = uint32-put hdr.seq s i;
      body_len = b i;
    }

long : (hdr : FrameHeader) (body : List ℕ) → length (marshal_frame hdr body) ≡ 16 + length body
unfolding marshal_frame
long hdr body = omega arith

-- A frame whose body is not too long is received with the header that it was sent with.
pub unmarshal-marshal_frame :
    (hdr : FrameHeader) (body : List ℕ)
    → Fits hdr
    → length body ≤ max_body_len
    → unmarshal_frame_header (marshal_frame hdr body) ≡ decoded (stamped hdr body)
unfolding unmarshal_frame_header checked_header
unmarshal-marshal_frame hdr body fits h =
    let q = header-marshal hdr body fits h in
    let n : length (marshal_frame hdr body) ≡ 16 + length body = long hdr body in
    let l : ltb (length (marshal_frame hdr body)) 16 ≡ false = ground arith in
    let k : ltb max_body_len (length body) ≡ false = le→ltb max_body_len (length body) h in
    ap (λ short. checked_header short (header_at (marshal_frame hdr body))) l
    ∙ (ap (checked_header false) q ∙ rw k refl)

-- A header that is accepted stands in sixteen bytes, is of this protocol and version, and
-- announces a body that is not too long.
pub unmarshal_frame_header_accepts :
    (buf : List ℕ) (hdr : FrameHeader)
    → unmarshal_frame_header buf ≡ decoded hdr
    → (header_len ≤ length buf)
      × (hdr.magic ≡ magic_number)
      × (hdr.version ≡ protocol_version)
      × (hdr.body_len ≤ max_body_len)
unfolding unmarshal_frame_header checked_header
unmarshal_frame_header_accepts buf hdr e = ground arith

take_front : (xs ys : List ℕ) → take (length xs) (xs ++ ys) ≡ xs
take_front [] ys = refl
take_front (x ∷ xs) ys = ap (λ t. x ∷ t) (take_front xs ys)

drop_front : (xs ys : List ℕ) → drop (length xs) (xs ++ ys) ≡ ys
drop_front [] ys = refl
drop_front (x ∷ xs) ys = drop_front xs ys

module _ (b0 b1 b2 b3 : ℕ) where
  drop_prefix : (xs ys : List ℕ) → drop (4 + length xs) (b0 ∷ b1 ∷ b2 ∷ b3 ∷ (xs ++ ys)) ≡ ys
  drop_prefix xs ys =
      let four : 4 + length xs ≡ suc (suc (suc (suc (length xs)))) = omega arith in
      ap (λ k. drop k (b0 ∷ b1 ∷ b2 ∷ b3 ∷ (xs ++ ys))) four ∙ drop_front xs ys

-- The JSON and the stream of a body are taken apart as they were put together.
pub split-marshal_operate_body :
    (json stream : List ℕ)
    → length json < 2 ^ 32
    → split_operate_body (marshal_operate_body json stream) ≡ decoded (json, stream)
unfolding split_operate_body split_checked marshal_operate_body byte
split-marshal_operate_body json stream h =
    let n = length json % 2 ^ 32 in
    let u : n / 16777216 % 256 * 16777216 + n / 65536 % 256 * 65536 + n / 256 % 256 * 256 + n % 256
        ≡ length json =
      uint32-put n (omega arith) ∙ omega arith in
    let l = length-append json stream in
    let b : ltb (length (json ++ stream)) (length json) ≡ false = ground arith in
    let body = marshal_operate_body json stream in
    let a : ltb (length body) 4 ≡ false = ground arith in
    let c : ltb (length body - 4) (length json) ≡ false = ground arith in
    ap (λ short. split_checked short (uint32 body 0) body) a
    ∙ (ap (λ k. split_checked false k body) u
        ∙ (rw c (λ i. decoded (
          take_front json stream i,
          drop_prefix (byte body 0) (byte body 1) (byte body 2) (byte body 3) json stream i,
        ))))
