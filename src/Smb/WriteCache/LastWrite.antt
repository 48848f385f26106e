-- ===== src/Smb/WriteCache/LastWrite.antt =====
-- `ApplyWrite` position by position, and when the last write wins.
use orbit_cloud.Base.{
  ℕ, suc, ◌≤◌, ◌<◌, ◌≡◌, refl, ◌∙◌, ap, inl, inr, Bool, false, List, [], ◌∷◌, ltb, leb, Bool-cases,
  arith,
}
use orbit_cloud.Smb.WriteCache.{
  WriteRange, WriteBackCache, goes_before, insert_by_off, absorb, merge_from, merge_sorted, segment,
  apply_write,
}
use orbit_cloud.Smb.WriteCache.Segments.{ApartFrom, Apart, covers, byte_at}
use orbit_cloud.Smb.WriteCache.Merge.{
  IsSized, ApartFrom-le, off-absorb, absorb-IsSized, goes_before-le, goes_after-le,
  merge_from-apart, ranges-apply_write,
}
use orbit_cloud.Smb.WriteCache.Overlay.{
  outlasts, overlay, or_else, or_else_assoc, outlasting, overlay_below, overlay_outside,
  byte_in_covered, absorb-byte,
}
use orbit_cloud.Smb.WriteCache.MergedBytes.{
  overlay_first, overlay_before, merge_from-byte, merge_from_touching, absorb_shorter, end-absorb,
  merge_from_gap,
}

-- The write inside the last merged segment.
inside_byte :
    (tie : Bool) (l w : WriteRange) (rs : List WriteRange) (p : ℕ)
    → goes_before tie w l ≡ false
    → IsSized l
    → w.end ≤ l.end
    → ApartFrom (suc l.end) rs
    → byte_at (l ∷ rs) p ≡ overlay tie w (l ∷ rs) p
unfolding byte_at overlay outlasts
inside_byte tie l w rs p g z h a =
    let o : l.off ≤ w.off = goes_after-le tie w l g in ground (arith, overlay_outside tie w rs p)

-- The write that starts inside the last merged segment and ends after it.
past_byte :
    (tie : Bool) (l w : WriteRange) (rs : List WriteRange) (p : ℕ)
    → goes_before tie w l ≡ false
    → IsSized l
    → IsSized w
    → l.end < w.end
    → ApartFrom (suc l.end) rs
    → or_else (overlay tie w rs p) (byte_at (l ∷ []) p) ≡ overlay tie w (l ∷ rs) p
unfolding byte_at overlay outlasts
past_byte tie l w rs p g z zw h a = elim (Bool-cases (covers w p)) [
  | inl c ↦
      let (x, found) = byte_in_covered w p zw c in
      ground (arith, found, overlay_below tie w (suc l.end) rs p a)
  | inr c ↦ ground (arith, overlay_below tie w (suc l.end) rs p a)
]

-- The write behind the last merged segment.
behind_byte :
    (tie : Bool) (l w : WriteRange) (rs m : List WriteRange) (p : ℕ)
    → l.end < w.off
    → byte_at m p ≡ overlay tie w rs p
    → byte_at (l ∷ m) p ≡ overlay tie w (l ∷ rs) p
unfolding byte_at overlay
behind_byte tie l w rs m p h e = ground arith

-- The write just after the last merged segment `l`, and before the rest.
next_byte :
    (tie : Bool) (l w : WriteRange) (rs : List WriteRange) (p : ℕ)
    → goes_before tie w l ≡ false
    → IsSized l
    → IsSized w
    → ApartFrom (suc l.end) rs
    → ApartFrom w.off rs
    → or_else (byte_at (outlasting w.end rs) p) (byte_at (w ∷ []) p) ≡ overlay tie w rs p
    → byte_at (merge_from l (w ∷ rs)) p ≡ overlay tie w (l ∷ rs) p
next_byte tie l w rs p g z zw a a' before = elim (Bool-cases (leb w.off l.end)) [
  | inl touch ↦
      let k : w.off ≤ l.end = ground arith in
      let o : l.off ≤ w.off = goes_after-le tie w l g in
      rw (merge_from_touching l w rs k) (elim (Bool-cases (ltb l.end w.end)) [
        | inl b ↦
            let e : l.end < w.end = ground arith in
            let lo : (absorb l w).off ≡ l.off = off-absorb l w in
            merge_from-byte (absorb l w) rs p (absorb-IsSized l w z zw o k)
              (ApartFrom-le (absorb l w).off (suc l.end) rs (omega arith) a)
            ∙ ap (λ n. or_else (byte_at (outlasting n rs) p) (byte_at (absorb l w ∷ []) p))
                (end-absorb l w e)
            ∙ ap (or_else (byte_at (outlasting w.end rs) p)) (absorb-byte l w p z zw o k e)
            ∙ or_else_assoc (byte_at (outlasting w.end rs) p) (byte_at (w ∷ []) p)
                (byte_at (l ∷ []) p)
            ∙ ap (λ x. or_else x (byte_at (l ∷ []) p)) before
            ∙ past_byte tie l w rs p g z zw e a
        | inr b ↦
            let e : w.end ≤ l.end = ground arith in
            ap (λ r. byte_at (merge_from r rs) p) (absorb_shorter l w e)
            ∙ ap (λ t. byte_at t p) (merge_from-apart l rs a)
            ∙ inside_byte tie l w rs p g z e a
      ])
  | inr apart ↦
      let k : l.end < w.off = ground arith in
      rw (merge_from_gap l w rs k)
        (behind_byte tie l w rs (merge_from w rs) p k (merge_from-byte w rs p zw a' ∙ before))
]

insert_byte :
    (tie : Bool) (l w : WriteRange) (rs : List WriteRange) (p : ℕ)
    → goes_before tie w l ≡ false
    → IsSized l
    → IsSized w
    → ApartFrom (suc l.end) rs
    → byte_at (merge_from l (insert_by_off tie w rs)) p ≡ overlay tie w (l ∷ rs) p
unfolding insert_by_off
insert_byte tie l w [] p g z zw a =
    next_byte tie l w [] p g z zw tt tt (overlay_before tie w [] p zw tt)
insert_byte tie l w (r ∷ rs) p g z zw a = elim (Bool-cases (goes_before tie w r)) [
  | inl first ↦
      let le : w.off ≤ r.off = goes_before-le tie w r first in
      rw first (
        next_byte tie l w (r ∷ rs) p g z zw a (le, a.1, a.2)
          (overlay_first tie w r rs p zw a.1 first a.2 (
            overlay_before tie w rs p zw
              (ApartFrom-le (suc w.off) (suc r.end) rs (omega arith) a.2))))
  | inr later ↦
      let le : r.off ≤ w.off = goes_after-le tie w r later in
      rw later (
        rw (merge_from_gap l r (insert_by_off tie w rs) a.0) (
          behind_byte tie l w (r ∷ rs) (merge_from r (insert_by_off tie w rs)) p (omega arith)
            (insert_byte tie r w rs p later a.1 zw a.2)))
]

merge_sorted-byte :
    (tie : Bool) (w : WriteRange) (rs : List WriteRange) (p : ℕ)
    → IsSized w
    → Apart rs
    → byte_at (merge_sorted (insert_by_off tie w rs)) p ≡ overlay tie w rs p
unfolding insert_by_off merge_sorted
merge_sorted-byte tie w [] p z a = merge_from-byte w [] p z tt ∙ overlay_before tie w [] p z tt
merge_sorted-byte tie w (r ∷ rs) p z a = elim (Bool-cases (goes_before tie w r)) [
  | inl first ↦
      let le : w.off ≤ r.off = goes_before-le tie w r first in
      rw first (
        merge_from-byte w (r ∷ rs) p z (le, a.1, a.2)
        ∙ overlay_first tie w r rs p z a.1 first a.2 (
            overlay_before tie w rs p z
              (ApartFrom-le (suc w.off) (suc r.end) rs (omega arith) a.2)))
  | inr later ↦ rw later (insert_byte tie r w rs p later a.1 z a.2)
]

-- After a write to a table whose segments lie apart, the byte at every position is the new one
-- where the write covers it, unless an old segment there outlasts the write; else it is the old
-- one, if there was any.
pub byte_at-apply_write :
    (tie : Bool) (off : ℕ) (bytes : List ℕ) (c : WriteBackCache) (p : ℕ)
    → Apart c.ranges
    → byte_at (apply_write tie off bytes c).0.ranges p ≡ overlay tie (segment off bytes) c.ranges p
byte_at-apply_write tie off bytes c p a =
    ap (λ t. byte_at t p) (ranges-apply_write tie off bytes c a)
    ∙ merge_sorted-byte tie (segment off bytes) c.ranges p refl a
