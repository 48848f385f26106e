-- ===== src/Smb/Handle/WriteRead.antt =====
-- A read of what the cache covers gives the cached bytes: what was written is read back.
use orbit_cloud.Base.{
  ℕ, suc, ◌+◌, ◌≤◌, ◌<◌, ◌≡◌, refl, ◌∙◌, ap, inl, inr, Bool, false, some, List, [], ◌∷◌, ltb, leb,
  if◌then◌else◌, length, take, Bool-cases, le→ltb, arith,
}
use orbit_cloud.Base.Errors.{ok}
use orbit_cloud.Storage.{Fetched, ObjectStorage}
use orbit_cloud.Smb.WriteCache.{
  WriteRange, WriteBackCache, segment, apply_write, read_range, read_from, min64, max64,
}
use orbit_cloud.Smb.WriteCache.Segments.{Apart, ApartFrom, byte_at}
use orbit_cloud.Smb.WriteCache.Overlay.{byte_at_below}
use orbit_cloud.Smb.WriteCache.Merge.{apply_write-Apart}
use orbit_cloud.Smb.WriteCache.Outcome.{Yields}
use orbit_cloud.Smb.WriteCache.Read.{
  IsCovered, IsCovered-tail, IsCovered-apply_write, read_range-apply_write,
}
use orbit_cloud.Smb.Handle.{
  RemoteHandle, cache_or_new, read_hole, read_tail, read_segments, fetch_of, read_inner,
  cache_write,
}
use orbit_cloud.Smb.Handle.Reading.{segment_passed, segment_beyond, segment_read}

IsCovered-from :
    (rs : List WriteRange) (from from' to : ℕ)
    → from ≤ from'
    → IsCovered rs from to
    → IsCovered rs from' to
IsCovered-from rs from from' to h c p k l = c p (omega arith) l

-- Nothing is covered before the first segment.
not_before :
    (s : WriteRange) (rest : List WriteRange) (lo cursor end : ℕ)
    → ApartFrom lo (s ∷ rest)
    → IsCovered (s ∷ rest) cursor end
    → cursor < end
    → s.off ≤ cursor
not_before s rest lo cursor end a c h = elim (Bool-cases (ltb cursor s.off)) [
  | inr b ↦ ground arith
  | inl b ↦
      let (x, e) = c cursor (omega arith) h in
      let e' = byte_at_below s.off (s ∷ rest) cursor (omega arith, a.1, a.2) (ground arith) in
      absurd (ground arith)
]

read_segments-IsCovered :
    (fetch : ℕ → ℕ → Fetched) (cursor end lo : ℕ) (rs : List WriteRange)
    → ApartFrom lo rs
    → cursor ≤ end
    → IsCovered rs cursor end
    → read_segments fetch cursor end rs ≡ ok (read_from cursor end rs)
unfolding read_segments read_from read_tail byte_at
read_segments-IsCovered fetch cursor end lo [] a h c = elim (Bool-cases (ltb cursor end)) [
  | inl b ↦ let (x, e) = c cursor (omega arith) (ground arith) in absurd (ground arith)
  | inr b ↦ rw b refl
]
read_segments-IsCovered fetch cursor end lo (s ∷ rest) a h c =
    elim (Bool-cases (leb s.end cursor)) [
      | inl b ↦
          segment_passed fetch cursor end s rest b
          ∙ rw b (
              read_segments-IsCovered fetch cursor end (suc s.end) rest a.2 h
                (IsCovered-tail cursor end s rest c (inl (ground arith))))
      | inr b ↦ elim (Bool-cases (leb end s.off)) [
        | inl d ↦
            let at_end : ltb cursor end ≡ false = elim (Bool-cases (ltb cursor end)) [
              | inl l ↦
                  let k = not_before s rest lo cursor end a c (ground arith) in
                  absurd (ground arith)
              | inr l ↦ l
            ] in
            segment_beyond fetch cursor end s rest b d ∙ rw (b, d, read_tail, at_end) refl
        | inr d ↦
            let k : s.off ≤ cursor = elim (Bool-cases (ltb cursor end)) [
              | inl l ↦ not_before s rest lo cursor end a c (ground arith)
              | inr l ↦ ground arith
            ] in
            let no_hole = le→ltb cursor s.off k in
            let start : max64 cursor s.off ≡ cursor = ground arith in
            let to = min64 s.end end in
            segment_read fetch cursor end s rest b d ∙ elim (Bool-cases (ltb cursor to)) [
              | inl t ↦
                  let rest_covered =
                    IsCovered-tail to end s rest
                      (IsCovered-from (s ∷ rest) cursor to end (ground arith) c) (ground arith) in
                  let later =
                    read_segments-IsCovered fetch to end (suc s.end) rest a.2 (ground arith)
                      rest_covered in
                  rw (b, d, read_hole, no_hole, start, t, later) refl
              | inr t ↦
                  let rest_covered = IsCovered-tail cursor end s rest c (ground arith) in
                  let later =
                    read_segments-IsCovered fetch cursor end (suc s.end) rest a.2 h rest_covered in
                  rw (b, d, read_hole, no_hole, start, t, later) refl
            ]
      ]
    ]

take-length : (bytes : List ℕ) → take (length bytes) bytes ≡ bytes
take-length [] = refl
take-length (x ∷ xs) = ap (λ t. x ∷ t) (take-length xs)

no_bytes : (bytes : List ℕ) → length bytes ≡ 0 → [] ≡ bytes
no_bytes [] h = refl
no_bytes (x ∷ xs) h = absurd (omega arith)

filled :
    (offset len : ℕ) (c : WriteBackCache) {out : List ℕ}
    → read_range offset len c ≡ some out
    → read_from offset (offset + len) c.ranges ≡ out
unfolding read_range
filled offset len c e = ground arith

module _ {S : Type 0} (st : ObjectStorage S) (s : S) (h : RemoteHandle) where
  -- What was written to a handle of a file is read back before any flush, where every segment of
  -- the cache lies before the write, lies behind it, or ends before the write ends.
  pub read_inner-cache_write :
      (tie : Bool) (offset : ℕ) (bytes : List ℕ)
      → h.is_dir ≡ false
      → Apart (cache_or_new h.write_cache).ranges
      → Yields (segment offset bytes) (cache_or_new h.write_cache).ranges
      → read_inner st s (cache_write tie h offset bytes).0 offset (length bytes) ≡ ok bytes
  unfolding read_inner cache_write
  read_inner-cache_write tie offset bytes f a y =
      let c = cache_or_new h.write_cache in
      let c1 = (apply_write tie offset bytes c).0 in
      let reached = offset + length bytes in
      let size = if ltb h.size reached then reached else h.size in
      let h1 = (cache_write tie h offset bytes).0 in
      let covered = IsCovered-apply_write tie offset bytes c a y in
      let read =
        read_segments-IsCovered (fetch_of st s h1) offset reached 0 c1.ranges
          (apply_write-Apart tie offset bytes c a) (omega arith) covered in
      let got = filled offset (length bytes) c1 (read_range-apply_write tie offset bytes c a y) in
      let end : min64 reached size ≡ reached = ground arith in
      elim (Bool-cases (leb size offset)) [
        | inl b ↦ rw (f, b) (ap ok (no_bytes bytes (ground arith)))
        | inr b ↦ rw (f, b, end, read, got) (ap ok (take-length bytes))
      ]
