-- ===== src/Smb/WriteCache/Merge.antt =====
-- `mergeLocked` keeps the segments apart.
use orbit_cloud.Base.{
  ℕ, suc, ◌+◌, ◌-◌, ◌≤◌, ◌≡◌, refl, ap, inl, inr, Bool, true, false, List, [], ◌∷◌, ◌++◌, ltb, leb,
  length, take, length-append, length-take, Bool-cases, lt→leb, arith,
}
use orbit_cloud.Smb.WriteCache.{
  WriteRange, WriteBackCache, goes_before, insert_by_off, absorb, merge_from, merge_sorted,
  merge_locked, segment, apply_write,
}
use Prim.Native.Nat.{zero-le}
use orbit_cloud.Smb.WriteCache.Order.{sort-append}
use orbit_cloud.Smb.WriteCache.Segments.{ApartFrom, Apart}

abbrev pub IsSized : WriteRange → Type 0
IsSized r = r.end ≡ r.off + length r.bytes

pub ApartFrom-le : (lo hi : ℕ) (rs : List WriteRange) → lo ≤ hi → ApartFrom hi rs → ApartFrom lo rs
ApartFrom-le lo hi [] h a = tt
ApartFrom-le lo hi (r ∷ rs) h a = (omega arith, a.1, a.2)

-- Segments that lie apart are left as they are.
pub merge_from-apart :
    (l : WriteRange) (rs : List WriteRange) → ApartFrom (suc l.end) rs → merge_from l rs ≡ l ∷ rs
unfolding merge_from
merge_from-apart l [] a = refl
merge_from-apart l (r ∷ rs) a = ground (arith, merge_from-apart r rs a.2)

pub absorb-IsSized :
    (l s : WriteRange)
    → IsSized l
    → IsSized s
    → l.off ≤ s.off
    → s.off ≤ l.end
    → IsSized (absorb l s)
unfolding absorb
absorb-IsSized l s hl hs h k = ground (
  arith,
  length-append (take (s.off - l.off) l.bytes) s.bytes,
  length-take (s.off - l.off) l.bytes,
  length-append (take (length l.bytes) l.bytes) s.bytes,
  length-take (length l.bytes) l.bytes,
)

pub off-absorb : (l s : WriteRange) → (absorb l s).off ≡ l.off
unfolding absorb
off-absorb l s = ground arith

pub merge_from-ApartFrom :
    (lo : ℕ) (l : WriteRange) (rs : List WriteRange)
    → lo ≤ l.off
    → IsSized l
    → ApartFrom l.off rs
    → ApartFrom lo (merge_from l rs)
unfolding merge_from
merge_from-ApartFrom lo l [] h z a = (h, z, tt)
merge_from-ApartFrom lo l (s ∷ rs) h z a = elim (Bool-cases (leb s.off l.end)) [
  | inl touch ↦
      let k : s.off ≤ l.end = ground arith in
      let z' : IsSized (absorb l s) = absorb-IsSized l s z a.1 a.0 k in
      let o : (absorb l s).off ≡ l.off = off-absorb l s in
      rw touch (
        merge_from-ApartFrom lo (absorb l s) rs (omega arith) z'
          (ApartFrom-le (absorb l s).off (suc s.end) rs (omega arith) a.2))
  | inr apart ↦ rw apart (
    h,
    z,
    merge_from-ApartFrom (suc l.end) s rs (ground arith) a.1
        (ApartFrom-le s.off (suc s.end) rs (omega arith) a.2),
  )
]

pub goes_before-le : (tie : Bool) (s r : WriteRange) → goes_before tie s r ≡ true → s.off ≤ r.off
unfolding goes_before
goes_before-le tie s r h = ground arith

pub goes_after-le : (tie : Bool) (s r : WriteRange) → goes_before tie s r ≡ false → r.off ≤ s.off
unfolding goes_before
goes_after-le tie s r h = ground arith

-- Here the second segment need not lie apart from what follows.
merge_from_two :
    (lo : ℕ) (l s : WriteRange) (rs : List WriteRange)
    → lo ≤ l.off
    → IsSized l
    → IsSized s
    → l.off ≤ s.off
    → ApartFrom s.off rs
    → ApartFrom lo (merge_from l (s ∷ rs))
unfolding merge_from
merge_from_two lo l s rs h z z' o a = elim (Bool-cases (leb s.off l.end)) [
  | inl touch ↦
      let e : (absorb l s).off ≡ l.off = off-absorb l s in
      rw touch (
        merge_from-ApartFrom lo (absorb l s) rs (omega arith)
          (absorb-IsSized l s z z' o (ground arith))
          (ApartFrom-le (absorb l s).off s.off rs (omega arith) a))
  | inr apart ↦ rw apart (h, z, merge_from-ApartFrom (suc l.end) s rs (ground arith) z' a)
]

-- With one segment put in its place among segments that lie apart, merging makes them lie apart.
merge_insert-ApartFrom :
    (tie : Bool) (lo : ℕ) (l s : WriteRange) (rs : List WriteRange)
    → lo ≤ l.off
    → IsSized l
    → IsSized s
    → l.off ≤ s.off
    → ApartFrom (suc l.end) rs
    → ApartFrom lo (merge_from l (insert_by_off tie s rs))
unfolding insert_by_off merge_from
merge_insert-ApartFrom tie lo l s [] h z z' o a = merge_from_two lo l s [] h z z' o tt
merge_insert-ApartFrom tie lo l s (r ∷ rs) h z z' o a = elim (Bool-cases (goes_before tie s r)) [
  | inl first ↦
      rw first (merge_from_two lo l s (r ∷ rs) h z z' o (goes_before-le tie s r first, a.1, a.2))
  | inr later ↦ rw later (
      rw (lt→leb r.off l.end a.0) (
        h,
        z,
        merge_insert-ApartFrom tie (suc l.end) r s rs a.0 a.1 z' (goes_after-le tie s r later) a.2,
      ))
]

merge_sorted-Apart :
    (tie : Bool) (s : WriteRange) (rs : List WriteRange)
    → IsSized s
    → Apart rs
    → Apart (merge_sorted (insert_by_off tie s rs))
unfolding insert_by_off merge_sorted
merge_sorted-Apart tie s [] z a = (zero-le, z, tt)
merge_sorted-Apart tie s (r ∷ rs) z a = elim (Bool-cases (goes_before tie s r)) [
  | inl first ↦
      rw first
        (merge_from-ApartFrom 0 s (r ∷ rs) (omega arith) z (goes_before-le tie s r first, a.1, a.2))
  | inr later ↦
      rw later
        (merge_insert-ApartFrom tie 0 r s rs (omega arith) a.1 z (goes_after-le tie s r later) a.2)
]

merge_locked-append :
    (tie : Bool) (s : WriteRange) (rs : List WriteRange) (c : WriteBackCache)
    → Apart rs
    → (merge_locked tie (record c { ranges = rs ++ s ∷ [] })).ranges
      ≡ merge_sorted (insert_by_off tie s rs)
unfolding merge_locked insert_by_off
merge_locked-append tie s [] c a = refl
merge_locked-append tie s (r ∷ rs) c a =
    let long : ltb (suc (length (rs ++ s ∷ []))) 2 ≡ false =
      ground (arith, length-append rs (s ∷ [])) in
    rw long (ap merge_sorted (sort-append tie (r ∷ rs) s a))

-- The table after a write: the new segment put in its place, and merged.
pub ranges-apply_write :
    (tie : Bool) (off : ℕ) (bytes : List ℕ) (c : WriteBackCache)
    → Apart c.ranges
    → (apply_write tie off bytes c).0.ranges
      ≡ merge_sorted (insert_by_off tie (segment off bytes) c.ranges)
unfolding apply_write
ranges-apply_write tie off bytes c a = merge_locked-append tie (segment off bytes) c.ranges c a

-- A write keeps the segments of the table sorted, apart from one another, and as long as their
-- bounds say.
pub apply_write-Apart :
    (tie : Bool) (off : ℕ) (bytes : List ℕ) (c : WriteBackCache)
    → Apart c.ranges
    → Apart (apply_write tie off bytes c).0.ranges
apply_write-Apart tie off bytes c a =
    rw (ranges-apply_write tie off bytes c a)
      (merge_sorted-Apart tie (segment off bytes) c.ranges refl a)
