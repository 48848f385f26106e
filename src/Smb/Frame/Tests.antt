-- ===== src/Smb/Frame/Tests.antt =====
-- The theorems on frames at concrete frames.
use orbit_cloud.Base.{ℕ, ◌≡◌, refl, List, [], ◌∷◌, leb→le, ltb→lt}
use orbit_cloud.Smb.Frame.{FrameHeader, decoded, marshal_frame, unmarshal_frame_header}
use orbit_cloud.Smb.Frame.Codec.{stamped, unmarshal-marshal_frame}

abbrev request : FrameHeader
request = record { magic = 0; version = 0; flags = 2; msg_type = 258; seq = 70000; body_len = 0 }

abbrev payload : List ℕ
payload = 1 ∷ 2 ∷ 3 ∷ []

unmarshal-marshal_frame_example :
    unmarshal_frame_header (marshal_frame request payload) ≡ decoded (stamped request payload)
unmarshal-marshal_frame_example =
    unmarshal-marshal_frame request payload
      (ltb→lt 2 256 refl, ltb→lt 258 65536 refl, ltb→lt 70000 4294967296 refl)
      (leb→le 3 16777216 refl)
