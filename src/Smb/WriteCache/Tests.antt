-- ===== src/Smb/WriteCache/Tests.antt =====
-- The theorems on the write-back cache at concrete tables.
use orbit_cloud.Base.{◌≡◌, refl, true, false, [], ◌∷◌, arith}
use native.Mathlib.Decide.{dec_lt}
use orbit_cloud.Smb.WriteCache.{WriteBackCache, segment, apply_write}
use orbit_cloud.Smb.WriteCache.Segments.{Apart, byte_at, covering}
use orbit_cloud.Smb.WriteCache.Overlay.{overlay}
use orbit_cloud.Smb.WriteCache.Merge.{apply_write-Apart}
use orbit_cloud.Smb.WriteCache.LastWrite.{byte_at-apply_write}
use orbit_cloud.Smb.WriteCache.Outcome.{inner_write_is_lost}
use orbit_cloud.Smb.WriteCache.Read.{IsCovered}

abbrev two_segments : WriteBackCache
two_segments = record {
  ranges = segment 10 (1 ∷ 2 ∷ 3 ∷ 4 ∷ []) ∷ segment 20 (5 ∷ 6 ∷ []) ∷ [];
  max_size = 4194304;
  dirty = true;
}

two_segments-Apart : Apart two_segments.ranges
two_segments-Apart = (omega arith, refl, (omega arith, refl, tt))

-- Writing across the gap joins the two segments.
apply_write-Apart_example :
    Apart (apply_write false 12 (9 ∷ 9 ∷ 9 ∷ 9 ∷ 9 ∷ 9 ∷ 9 ∷ 9 ∷ 9 ∷ []) two_segments).0.ranges
apply_write-Apart_example =
    apply_write-Apart false 12 (9 ∷ 9 ∷ 9 ∷ 9 ∷ 9 ∷ 9 ∷ 9 ∷ 9 ∷ 9 ∷ []) two_segments
      two_segments-Apart

-- An old segment that ends later keeps its byte under the write.
byte_at-apply_write_example :
    byte_at (apply_write false 18 (9 ∷ 9 ∷ 9 ∷ []) two_segments).0.ranges 20
    ≡ overlay false (segment 18 (9 ∷ 9 ∷ 9 ∷ [])) two_segments.ranges 20
byte_at-apply_write_example =
    byte_at-apply_write false 18 (9 ∷ 9 ∷ 9 ∷ []) two_segments 20 two_segments-Apart

inner_write_is_lost_example :
    byte_at (apply_write false 11 (9 ∷ 9 ∷ []) two_segments).0.ranges 12
    ≡ byte_at two_segments.ranges 12
unfolding covering
inner_write_is_lost_example =
    inner_write_is_lost false 11 (9 ∷ 9 ∷ []) two_segments (segment 10 (1 ∷ 2 ∷ 3 ∷ 4 ∷ [])) 12
      two_segments-Apart refl (omega arith) (omega arith)

two_segments-IsCovered : IsCovered two_segments.ranges 11 13
unfolding byte_at
two_segments-IsCovered p h k = elim (dec_lt p 12) [
  | yes a ↦ let e : p ≡ 11 = omega arith in (2, rw e refl)
  | no a ↦ let e : p ≡ 12 = omega arith in (3, rw e refl)
]
