-- ===== src/Smb/WriteCache/MergedBytes.antt =====
-- The byte that `mergeLocked` leaves at a position, where it merges from one segment on.
use orbit_cloud.Base.{
  ℕ, suc, ◌≤◌, ◌<◌, ◌≡◌, refl, ◌∙◌, sym, ap, inl, inr, Bool, true, List, [], ◌∷◌, ltb, leb,
  if◌then◌else◌, Bool-cases, lt→ltb, lt→leb, le→ltb, le→leb, arith,
}
use orbit_cloud.Smb.WriteCache.{WriteRange, goes_before, absorb, merge_from}
use orbit_cloud.Smb.WriteCache.Segments.{ApartFrom, covers, byte_in, byte_at}
use orbit_cloud.Smb.WriteCache.Merge.{
  IsSized, ApartFrom-le, merge_from-apart, off-absorb, absorb-IsSized, goes_before-le,
}
use orbit_cloud.Smb.WriteCache.Overlay.{
  outlasts, overlay, or_else, or_else_assoc, outlasting, outlasting-ApartFrom, outlasting_apart,
  byte_at_below, byte_in_covered, absorb-byte,
}

goes_before_lt : (tie : Bool) (w r : WriteRange) → w.off < r.off → goes_before tie w r ≡ true
unfolding goes_before
goes_before_lt tie w r h = ground arith

byte_at-cons :
    (r : WriteRange) (rs : List WriteRange) (p : ℕ)
    → byte_at (r ∷ rs) p ≡ (if covers r p then byte_in r p else byte_at rs p)
unfolding byte_at
byte_at-cons r rs p = refl

pub absorb_shorter : (l s : WriteRange) → s.end ≤ l.end → absorb l s ≡ l
unfolding absorb
absorb_shorter l s h = ground arith

pub end-absorb : (l s : WriteRange) → l.end < s.end → (absorb l s).end ≡ s.end
unfolding absorb
end-absorb l s h = ground arith

pub merge_from_touching :
    (l s : WriteRange) (rs : List WriteRange)
    → s.off ≤ l.end
    → merge_from l (s ∷ rs) ≡ merge_from (absorb l s) rs
unfolding merge_from
merge_from_touching l s rs h = rw (le→leb s.off l.end h)

pub merge_from_gap :
    (l s : WriteRange) (rs : List WriteRange)
    → l.end < s.off
    → merge_from l (s ∷ rs) ≡ l ∷ merge_from s rs
unfolding merge_from
merge_from_gap l s rs h = rw (lt→leb s.off l.end h)

outlasting_longer :
    (e : ℕ) (s : WriteRange) (rs : List WriteRange)
    → e < s.end
    → outlasting e (s ∷ rs) ≡ s ∷ outlasting e rs
unfolding outlasting
outlasting_longer e s rs h = rw (lt→ltb e s.end h)

outlasting_shorter :
    (e : ℕ) (s : WriteRange) (rs : List WriteRange)
    → s.end ≤ e
    → outlasting e (s ∷ rs) ≡ outlasting e rs
unfolding outlasting
outlasting_shorter e s rs h = rw (le→ltb e s.end h)

-- Of segments that lie apart it does not matter which is asked first.
pub byte_at-cons_apart :
    (l : WriteRange) (rs : List WriteRange) (p : ℕ)
    → ApartFrom (suc l.end) rs
    → byte_at (l ∷ rs) p ≡ or_else (byte_at rs p) (byte_at (l ∷ []) p)
unfolding byte_at
byte_at-cons_apart l rs p a = ground (arith, byte_at_below (suc l.end) rs p a)

-- A segment that reaches further than `l`, merged into it.
merge_from-byte_longer :
    (l s : WriteRange) (rs : List WriteRange) (p : ℕ)
    → IsSized l
    → ApartFrom l.off (s ∷ rs)
    → s.off ≤ l.end
    → l.end < s.end
    → or_else (byte_at (outlasting s.end rs) p) (byte_at (absorb l s ∷ []) p)
      ≡ or_else (byte_at (outlasting l.end (s ∷ rs)) p) (byte_at (l ∷ []) p)
merge_from-byte_longer l s rs p z a k e =
    rw
      (
        outlasting_longer l.end s rs e,
        outlasting_apart s.end rs a.2,
        outlasting_apart l.end rs (ApartFrom-le (suc l.end) (suc s.end) rs (omega arith) a.2),
        absorb-byte l s p z a.1 a.0 k e,
        byte_at-cons_apart s rs p a.2,
      )
      (or_else_assoc (byte_at rs p) (byte_at (s ∷ []) p) (byte_at (l ∷ []) p))

-- Merging from `l` on: a later segment that ends after `l` gives the byte, else `l` does.
pub merge_from-byte :
    (l : WriteRange) (rs : List WriteRange) (p : ℕ)
    → IsSized l
    → ApartFrom l.off rs
    → byte_at (merge_from l rs) p ≡ or_else (byte_at (outlasting l.end rs) p) (byte_at (l ∷ []) p)
merge_from-byte l [] p z a = unfold byte_at merge_from outlasting in refl
merge_from-byte l (s ∷ rs) p z a = elim (Bool-cases (leb s.off l.end)) [
  | inl touch ↦
      let k : s.off ≤ l.end = ground arith in
      let o : (absorb l s).off ≡ l.off = off-absorb l s in
      let rec =
        merge_from-byte (absorb l s) rs p (absorb-IsSized l s z a.1 a.0 k)
          (ApartFrom-le (absorb l s).off (suc s.end) rs (omega arith) a.2) in
      rw (merge_from_touching l s rs k) (elim (Bool-cases (ltb l.end s.end)) [
        | inl b ↦
            let e : l.end < s.end = ground arith in
            rec
            ∙ ap (λ n. or_else (byte_at (outlasting n rs) p) (byte_at (absorb l s ∷ []) p))
                (end-absorb l s e)
            ∙ merge_from-byte_longer l s rs p z a k e
        | inr b ↦
            let e : s.end ≤ l.end = ground arith in
            rec
            ∙ ap (λ r. or_else (byte_at (outlasting r.end rs) p) (byte_at (r ∷ []) p))
                (absorb_shorter l s e)
            ∙ ap (λ t. or_else (byte_at t p) (byte_at (l ∷ []) p))
                (sym (outlasting_shorter l.end s rs e))
      ])
  | inr apart ↦
      let a' : ApartFrom (suc l.end) (s ∷ rs) = (ground arith, a.1, a.2) in
      rw (merge_from-apart l (s ∷ rs) a', outlasting_apart l.end (s ∷ rs) a')
        (byte_at-cons_apart l (s ∷ rs) p a')
]

-- A write that stands before the first segment `r` of a table.
pub overlay_first :
    (tie : Bool) (w r : WriteRange) (rs : List WriteRange) (p : ℕ)
    → IsSized w
    → IsSized r
    → goes_before tie w r ≡ true
    → ApartFrom (suc r.end) rs
    → or_else (byte_at (outlasting w.end rs) p) (byte_at (w ∷ []) p) ≡ overlay tie w rs p
    → or_else (byte_at (outlasting w.end (r ∷ rs)) p) (byte_at (w ∷ []) p)
      ≡ overlay tie w (r ∷ rs) p
unfolding outlasting overlay outlasts byte_at
overlay_first tie w r rs p zw zr b a ih = elim (Bool-cases (covers r p)) [
  | inl c ↦
      let (x, found) = byte_in_covered r p zr c in
      let le : w.off ≤ r.off = goes_before-le tie w r b in
      ground (
        arith,
        found,
        byte_at_below (suc r.end) (outlasting w.end rs) p
            (outlasting-ApartFrom w.end (suc r.end) rs a),
      )
  | inr c ↦ ground arith
]

-- A write that stands before a whole table, merged with it.
pub overlay_before :
    (tie : Bool) (w : WriteRange) (rs : List WriteRange) (p : ℕ)
    → IsSized w
    → ApartFrom (suc w.off) rs
    → or_else (byte_at (outlasting w.end rs) p) (byte_at (w ∷ []) p) ≡ overlay tie w rs p
overlay_before tie w [] p z a = unfold outlasting overlay byte_at in refl
overlay_before tie w (r ∷ rs) p z a =
    overlay_first tie w r rs p z a.1 (goes_before_lt tie w r a.0) a.2
      (overlay_before tie w rs p z (ApartFrom-le (suc w.off) (suc r.end) rs (omega arith) a.2))
