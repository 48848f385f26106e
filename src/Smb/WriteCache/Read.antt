-- ===== src/Smb/WriteCache/Read.antt =====
-- `ReadRange`: it answers exactly where the table covers the whole range, and then with its bytes.
use orbit_cloud.Base.{
  ℕ, suc, ◌+◌, ◌-◌, ◌≤◌, ◌<◌, ◌≡◌, refl, sym, ap, ◌∙◌, ◌⊎◌, Bool, true, some, List, [], ◌∷◌, ◌++◌,
  if◌then◌else◌, length, get_elem?, length-append, list_ext, arith,
}
use orbit_cloud.Smb.WriteCache.{
  WriteRange, WriteBackCache, max64, min64, slice, read_from, read_range, segment, apply_write,
}
use orbit_cloud.Smb.WriteCache.Segments.{ApartFrom, Apart, covers, byte_in, byte_at}
use orbit_cloud.Smb.WriteCache.Merge.{IsSized}
use orbit_cloud.Smb.WriteCache.Overlay.{byte_at_below}
use native.Mathlib.Decide.{dec_lt}
use orbit_cloud.Smb.WriteCache.Merge.{apply_write-Apart}
use orbit_cloud.Smb.WriteCache.Overlay.{byte_in_covered}
use orbit_cloud.Smb.WriteCache.Outcome.{Yields, last_write_wins}
use orbit_cloud.Smb.WriteCache.ReadSteps.{
  length-slice, length-read_from, read_taken, IsMet, read_from_met, met, beyond, missed, meeting,
}

-- A range that is filled begins in the segment that it meets first, and the rest of it is filled.
met_filled :
    (cursor end : ℕ) (r : WriteRange) (rs : List WriteRange)
    → IsMet cursor end r
    → IsSized r
    → ApartFrom (suc r.end) rs
    → length (read_from cursor end (r ∷ rs)) ≡ end - cursor
    → (r.off ≤ cursor) × (length (read_from (min64 r.end end) end rs) ≡ end - min64 r.end end)
met_filled cursor end r rs m z a e =
    let from = max64 cursor r.off in
    let to = min64 r.end end in
    let e' : length (slice (from - r.off) (to - r.off) r.bytes ++ read_from to end rs)
        ≡ end - cursor =
      ap length (sym (read_from_met cursor end r rs m)) ∙ e in
    ground (
      arith,
      e',
      length-append (slice (from - r.off) (to - r.off) r.bytes) (read_from to end rs),
      length-slice r from to z,
      length-read_from to end (suc r.end) rs a,
    )

met_byte :
    (cursor end i : ℕ) (r : WriteRange) (rs : List WriteRange)
    → IsMet cursor end r
    → IsSized r
    → r.off ≤ cursor
    → i < end - cursor
    → (min64 r.end end ≤ cursor + i
        → get_elem? (read_from (min64 r.end end) end rs) (cursor + i - min64 r.end end)
          ≡ byte_at rs (cursor + i))
    → get_elem? (read_from cursor end (r ∷ rs)) i ≡ byte_at (r ∷ rs) (cursor + i)
unfolding byte_at
met_byte cursor end i r rs m z o h ih =
    let f : max64 cursor r.off ≡ cursor = ground arith in
    ap (λ t. get_elem? t i) (read_from_met cursor end r rs m)
    ∙ ap
        (λ n.
          get_elem?
            (slice (n - r.off) (min64 r.end end - r.off) r.bytes
              ++ read_from (min64 r.end end) end rs)
            i)
        f
    ∙ read_taken cursor end i r (read_from (min64 r.end end) end rs) (byte_at rs (cursor + i)) z o
        m.0 (ground arith) h ih

missed_byte :
    (cursor end i : ℕ) (r : WriteRange) (rs : List WriteRange)
    → (r.end ≤ cursor) ⊎ ((end ≤ cursor) ⊎ (r.end ≤ r.off))
    → i < end - cursor
    → byte_at (r ∷ rs) (cursor + i) ≡ byte_at rs (cursor + i)
unfolding byte_at
missed_byte cursor end i r rs b h = ground arith

-- Where the range is filled, each byte of it is the table's.
read_from-byte :
    (cursor end lo : ℕ) (rs : List WriteRange) (i : ℕ)
    → ApartFrom lo rs
    → length (read_from cursor end rs) ≡ end - cursor
    → i < end - cursor
    → get_elem? (read_from cursor end rs) i ≡ byte_at rs (cursor + i)
read_from-byte cursor end lo [] i a e h = absurd (unfold read_from in omega arith)
read_from-byte cursor end lo (r ∷ rs) i a e h = elim (meeting cursor end r rs) [
  | met m ↦
      let filled = met_filled cursor end r rs m a.1 a.2 e in
      let to = min64 r.end end in
      met_byte cursor end i r rs m a.1 filled.0 h (λ k.
        read_from-byte to end (suc r.end) rs (cursor + i - to) a.2 filled.1 (omega arith)
        ∙ ap (byte_at rs) (omega arith))
  | beyond b c q ↦ let none_left : 0 ≡ end - cursor = ap length (sym q) ∙ e in absurd (omega arith)
  | missed b q ↦
      ap (λ t. get_elem? t i) q
      ∙ read_from-byte cursor end (suc r.end) rs i a.2 (ap length (sym q) ∙ e) h
      ∙ sym (missed_byte cursor end i r rs b h)
]

-- Does the table give a byte at every position of [from, to)?
abbrev pub IsCovered : List WriteRange → ℕ → ℕ → Type 0
IsCovered rs from to = (p : ℕ) → from ≤ p → p < to → (b : ℕ) × (byte_at rs p ≡ some b)

pub IsCovered-tail :
    (from to : ℕ) (r : WriteRange) (rs : List WriteRange)
    → IsCovered (r ∷ rs) from to
    → (r.end ≤ from) ⊎ ((to ≤ from) ⊎ (r.end ≤ r.off))
    → IsCovered rs from to
unfolding byte_at
IsCovered-tail from to r rs c b p h k = let (x, e) = c p h k in (x, ground arith)

covered_start :
    (from to : ℕ) (r : WriteRange) (rs : List WriteRange)
    → IsCovered (r ∷ rs) from to
    → ApartFrom (suc r.end) rs
    → IsSized r
    → from < to
    → r.off ≤ from
unfolding byte_at
covered_start from to r rs c a z h =
    let (x, e) = c from (omega arith) h in ground (arith, byte_at_below (suc r.end) rs from a)

read_from_covered :
    (cursor end lo : ℕ) (rs : List WriteRange)
    → ApartFrom lo rs
    → cursor ≤ end
    → IsCovered rs cursor end
    → length (read_from cursor end rs) ≡ end - cursor
read_from_covered cursor end lo [] a k c = elim (dec_lt cursor end) [
  | yes h ↦ let (b, e) = c cursor (omega arith) h in unfold byte_at in cc
  | no h ↦ unfold read_from in omega arith
]
read_from_covered cursor end lo (r ∷ rs) a k c = elim (meeting cursor end r rs) [
  | met m ↦
      let from = max64 cursor r.off in
      let to = min64 r.end end in
      let o : r.off ≤ cursor = covered_start cursor end r rs c a.2 a.1 (ground arith) in
      let rec = read_from_covered to end (suc r.end) rs a.2 (ground arith) (λ p h k.
        IsCovered-tail to end r rs (λ p' h' k'. c p' (ground arith) k') (ground arith) p h k) in
      ap length (read_from_met cursor end r rs m)
      ∙ ground (
        arith,
        rec,
        length-append (slice (from - r.off) (to - r.off) r.bytes) (read_from to end rs),
        length-slice r from to a.1,
      )
  | beyond b b' q ↦ elim (dec_lt cursor end) [
    | yes h ↦
        let o : r.off ≤ cursor = covered_start cursor end r rs c a.2 a.1 h in absurd (omega arith)
    | no h ↦ ap length q ∙ omega arith
  ]
  | missed b q ↦
      ap length q
      ∙ read_from_covered cursor end (suc r.end) rs a.2 k (IsCovered-tail cursor end r rs c b)
]

-- An answer of `ReadRange` has the length asked for, and at each index the table's byte.
pub read_range-byte :
    (offset len : ℕ) (c : WriteBackCache) {out : List ℕ}
    → Apart c.ranges
    → read_range offset len c ≡ some out
    → (length out ≡ len) × ((i : ℕ) → i < len → get_elem? out i ≡ byte_at c.ranges (offset + i))
unfolding read_range
read_range-byte offset len c {out} a e =
    let filled = read_from offset (offset + len) c.ranges in
    let l : length filled ≡ len = ground arith in
    let same : filled ≡ out = ground arith in
    (
      ap length (sym same) ∙ l,
      λ i h.
          ap (λ t. get_elem? t i) (sym same)
          ∙ read_from-byte offset (offset + len) 0 c.ranges i a (omega arith) (omega arith),
    )

-- Where the table gives a byte at every position of the range, `ReadRange` answers.
pub read_range_covered :
    (offset len : ℕ) (c : WriteBackCache)
    → Apart c.ranges
    → IsCovered c.ranges offset (offset + len)
    → (out : List ℕ) × (read_range offset len c ≡ some out)
unfolding read_range
read_range_covered offset len c a cov =
    let filled = read_from offset (offset + len) c.ranges in
    let l : length filled ≡ offset + len - offset =
      read_from_covered offset (offset + len) 0 c.ranges a (omega arith) cov in
    (filled, ground arith)

IsCovered-write :
    (w : WriteRange) (rs : List WriteRange) (old : List WriteRange)
    → IsSized w
    → ((p : ℕ) → byte_at rs p ≡ (if covers w p then byte_in w p else byte_at old p))
    → IsCovered rs w.off w.end
IsCovered-write w rs old z e p h k =
    let c : covers w p ≡ true = ground arith in
    let (b, found) = byte_in_covered w p z c in (b, e p ∙ rw c found)

-- Where nothing outlasts a write, the table covers what was written.
pub IsCovered-apply_write :
    (tie : Bool) (off : ℕ) (bytes : List ℕ) (c : WriteBackCache)
    → Apart c.ranges
    → Yields (segment off bytes) c.ranges
    → IsCovered (apply_write tie off bytes c).0.ranges off (off + length bytes)
IsCovered-apply_write tie off bytes c a y =
    IsCovered-write (segment off bytes) (apply_write tie off bytes c).0.ranges c.ranges refl
      (λ p. last_write_wins tie off bytes c p a y)

-- What was written is read back, where every segment of the table lies before the write, lies
-- behind it, or ends before the write ends.
pub read_range-apply_write :
    (tie : Bool) (off : ℕ) (bytes : List ℕ) (c : WriteBackCache)
    → Apart c.ranges
    → Yields (segment off bytes) c.ranges
    → read_range off (length bytes) (apply_write tie off bytes c).0 ≡ some bytes
read_range-apply_write tie off bytes c a y =
    let w = segment off bytes in
    let c' = (apply_write tie off bytes c).0 in
    let a' = apply_write-Apart tie off bytes c a in
    let wins = λ (p : ℕ). last_write_wins tie off bytes c p a y in
    let (out, e) =
      read_range_covered off (length bytes) c' a' (IsCovered-apply_write tie off bytes c a y) in
    let (l, b) = read_range-byte off (length bytes) c' a' e in
    e
    ∙ ap some (
        list_ext out bytes l (λ i h.
          let k : i < length bytes = omega arith in
          let c : covers w (off + i) ≡ true = ground arith in
          b i k ∙ wins (off + i) ∙ rw c (ap (get_elem? bytes) (omega arith))))
