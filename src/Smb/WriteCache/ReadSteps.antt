-- ===== src/Smb/WriteCache/ReadSteps.antt =====
-- The loop of `ReadRange`, one segment at a time.
use orbit_cloud.Base.{
  ℕ, suc, ◌+◌, ◌-◌, ◌≤◌, ◌<◌, ◌≡◌, ◌⊎◌, inl, inr, Option, List, [], ◌∷◌, ◌++◌, ltb, leb,
  if◌then◌else◌, length, get_elem?, drop, length-append, length-take, length-drop, get_elem?-append,
  get_elem?-take, get_elem?-drop, Bool-cases, lt→leb, lt→ltb, arith,
}
use orbit_cloud.Smb.WriteCache.{WriteRange, max64, min64, slice, read_from}
use orbit_cloud.Smb.WriteCache.Segments.{ApartFrom, covers, byte_in}
use orbit_cloud.Smb.WriteCache.Merge.{IsSized}

pub length-slice :
    (r : WriteRange) (from to : ℕ)
    → IsSized r
    → r.off ≤ from
    → to ≤ r.end
    → length (slice (from - r.off) (to - r.off) r.bytes) ≡ to - from
length-slice r from to z h k = omega (
  arith,
  length-take (to - r.off - (from - r.off)) (drop (from - r.off) r.bytes),
  length-drop (from - r.off) r.bytes,
)

-- What is appended fits in what is left of the range.
pub length-read_from :
    (cursor end lo : ℕ) (rs : List WriteRange)
    → ApartFrom lo rs
    → length (read_from cursor end rs) ≤ end - cursor
unfolding read_from
length-read_from cursor end lo [] a = omega arith
length-read_from cursor end lo (r ∷ rs) a =
    let from = max64 cursor r.off in
    let to = min64 r.end end in
    ground (
      arith,
      length-read_from cursor end (suc r.end) rs a.2,
      length-read_from to end (suc r.end) rs a.2,
      length-append (slice (from - r.off) (to - r.off) r.bytes) (read_from to end rs),
      length-slice r from to a.1,
    )

pub slice-byte :
    (r : WriteRange) (from to i : ℕ)
    → r.off ≤ from
    → i < to - from
    → get_elem? (slice (from - r.off) (to - r.off) r.bytes) i ≡ byte_in r (from + i)
slice-byte r from to i h k = ground (
  arith,
  get_elem?-take (to - r.off - (from - r.off)) (drop (from - r.off) r.bytes) i,
  get_elem?-drop (from - r.off) r.bytes i,
)

-- One segment that meets the range: what it and the later segments give.
pub read_taken :
    (cursor end i : ℕ) (r : WriteRange) (rest : List ℕ) (later : Option ℕ)
    → IsSized r
    → r.off ≤ cursor
    → cursor < r.end
    → cursor < end
    → i < end - cursor
    → (min64 r.end end ≤ cursor + i → get_elem? rest (cursor + i - min64 r.end end) ≡ later)
    → get_elem? (slice (cursor - r.off) (min64 r.end end - r.off) r.bytes ++ rest) i
      ≡ (if covers r (cursor + i) then byte_in r (cursor + i) else later)
read_taken cursor end i r rest later z h k e j ih =
    let to = min64 r.end end in
    ground (
      arith,
      ih,
      slice-byte r cursor to i,
      length-slice r cursor to z,
      get_elem?-append (slice (cursor - r.off) (to - r.off) r.bytes) rest i,
    )

abbrev pub IsMet : ℕ → ℕ → WriteRange → Type 0
IsMet cursor end r = (cursor < r.end) × (r.off < end) × (max64 cursor r.off < min64 r.end end)

pub read_from_met :
    (cursor end : ℕ) (r : WriteRange) (rs : List WriteRange)
    → IsMet cursor end r
    → read_from cursor end (r ∷ rs)
      ≡ slice (max64 cursor r.off - r.off) (min64 r.end end - r.off) r.bytes
        ++ read_from (min64 r.end end) end rs
unfolding read_from
read_from_met cursor end r rs m = rw (
  lt→leb r.end cursor m.0,
  lt→leb end r.off m.1,
  lt→ltb (max64 cursor r.off) (min64 r.end end) m.2,
)

pub data Meeting (cursor end : ℕ) (r : WriteRange) (rs : List WriteRange) : Type 0 where
  met : IsMet cursor end r → Meeting cursor end r rs
  beyond :
      cursor < r.end → end ≤ r.off → read_from cursor end (r ∷ rs) ≡ [] → Meeting cursor end r rs
  missed :
      (r.end ≤ cursor) ⊎ ((end ≤ cursor) ⊎ (r.end ≤ r.off))
      → read_from cursor end (r ∷ rs) ≡ read_from cursor end rs
      → Meeting cursor end r rs

pub meeting : (cursor end : ℕ) (r : WriteRange) (rs : List WriteRange) → Meeting cursor end r rs
unfolding read_from
meeting cursor end r rs = elim (Bool-cases (leb r.end cursor)) [
  | inl b ↦ missed (inl (ground arith)) (rw b)
  | inr b ↦ elim (Bool-cases (leb end r.off)) [
    | inl b' ↦ beyond (ground arith) (ground arith) (rw (b, b'))
    | inr b' ↦ elim (Bool-cases (ltb (max64 cursor r.off) (min64 r.end end))) [
      | inl b'' ↦ met (ground arith, ground arith, ground arith)
      | inr b'' ↦ missed (ground arith) (rw (b, b', b''))
    ]
  ]
]
