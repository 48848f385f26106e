-- ===== src/Smb/WriteCache/Overlay.antt =====
-- Which byte `ApplyWrite` leaves at each position: the new one or an old one.
use orbit_cloud.Base.{
  ℕ, suc, ◌-◌, ◌≤◌, ◌<◌, ◌≡◌, refl, ◌∙◌, ap, inl, inr, Bool, true, false, not, ◌&&◌, Option, none,
  some, List, [], ◌∷◌, ◌++◌, ltb, leb, if◌then◌else◌, length, take, length-take, get_elem?-append,
  get_elem?-take, get_elem?_in_range, Bool-cases, lt→ltb, lt→leb, le→ltb, arith,
}
use orbit_cloud.Smb.WriteCache.{WriteRange, goes_before, absorb}
use orbit_cloud.Smb.WriteCache.Segments.{ApartFrom, covers, byte_in, byte_at}
use orbit_cloud.Smb.WriteCache.Merge.{IsSized, ApartFrom-le}

-- Does an old segment `r` keep its bytes under the write `w`? It does if it ends later, and also
-- if it ends where `w` ends and `w` does not stand before it.
unfoldable pub outlasts : Bool → WriteRange → WriteRange → Bool
outlasts tie w r = if goes_before tie w r then ltb w.end r.end else leb w.end r.end

-- The byte at `p` after the write `w`, by the table before it.
unfoldable pub overlay : Bool → WriteRange → List WriteRange → ℕ → Option ℕ
overlay tie w [] p = if covers w p then byte_in w p else none
overlay tie w (r ∷ rs) p =
    let rest = overlay tie w rs p in
    if covers r p
    then (if covers w p && not (outlasts tie w r) then byte_in w p else byte_in r p)
    else rest

abbrev pub or_else : Option ℕ → Option ℕ → Option ℕ
or_else (some a) o = some a
or_else none o = o

pub or_else_assoc : (a b c : Option ℕ) → or_else a (or_else b c) ≡ or_else (or_else a b) c
or_else_assoc none b c = refl
or_else_assoc (some a) b c = refl

unfoldable pub outlasting : ℕ → List WriteRange → List WriteRange
outlasting e [] = []
outlasting e (r ∷ rs) = let rest = outlasting e rs in if ltb e r.end then r ∷ rest else rest

pub outlasting-ApartFrom :
    (e lo : ℕ) (rs : List WriteRange) → ApartFrom lo rs → ApartFrom lo (outlasting e rs)
unfolding outlasting
outlasting-ApartFrom e lo [] a = tt
outlasting-ApartFrom e lo (r ∷ rs) a = elim (Bool-cases (ltb e r.end)) [
  | inl b ↦ rw b (a.0, a.1, outlasting-ApartFrom e (suc r.end) rs a.2)
  | inr b ↦ rw b (
      ApartFrom-le lo (suc r.end) (outlasting e rs) (omega arith)
        (outlasting-ApartFrom e (suc r.end) rs a.2))
]

pub outlasting_apart : (e : ℕ) (rs : List WriteRange) → ApartFrom (suc e) rs → outlasting e rs ≡ rs
unfolding outlasting
outlasting_apart e [] a = refl
outlasting_apart e (r ∷ rs) a = rw (lt→ltb e r.end (omega arith)) (
    ap (λ t. r ∷ t) (outlasting_apart e rs (ApartFrom-le (suc e) (suc r.end) rs (omega arith) a.2)))

pub byte_at_below :
    (lo : ℕ) (rs : List WriteRange) (p : ℕ) → ApartFrom lo rs → p < lo → byte_at rs p ≡ none
unfolding byte_at
byte_at_below lo [] p a h = refl
byte_at_below lo (r ∷ rs) p a h = ground (arith, byte_at_below (suc r.end) rs p a.2)

pub overlay_below :
    (tie : Bool) (w : WriteRange) (lo : ℕ) (rs : List WriteRange) (p : ℕ)
    → ApartFrom lo rs
    → p < lo
    → overlay tie w rs p ≡ byte_at (w ∷ []) p
unfolding overlay byte_at
overlay_below tie w lo [] p a h = refl
overlay_below tie w lo (r ∷ rs) p a h = ground (arith, overlay_below tie w (suc r.end) rs p a.2)

-- A write changes no byte outside its bounds.
pub overlay_outside :
    (tie : Bool) (w : WriteRange) (rs : List WriteRange) (p : ℕ)
    → covers w p ≡ false
    → overlay tie w rs p ≡ byte_at rs p
unfolding overlay byte_at
overlay_outside tie w [] p h = ground arith
overlay_outside tie w (r ∷ rs) p h = ground (arith, overlay_outside tie w rs p)

pub byte_in_covered :
    (r : WriteRange) (p : ℕ) → IsSized r → covers r p ≡ true → (b : ℕ) × (byte_in r p ≡ some b)
byte_in_covered r p z h = get_elem?_in_range r.bytes (p - r.off) (ground arith)

absorb_longer :
    (l s : WriteRange)
    → IsSized l
    → s.off ≤ l.end
    → l.end < s.end
    → absorb l s
      ≡ record { off = l.off; end = s.end; bytes = take (s.off - l.off) l.bytes ++ s.bytes }
unfolding absorb
absorb_longer l s z k e =
    rw (lt→leb s.end l.end e) (rw (le→ltb (length l.bytes) (s.off - l.off) (omega arith)) refl)

-- The bytes of an old prefix followed by the new segment.
prefix-byte :
    (l s : WriteRange) (p : ℕ)
    → IsSized l
    → IsSized s
    → l.off ≤ s.off
    → s.off ≤ l.end
    → l.end < s.end
    → byte_at
        (record { off = l.off; end = s.end; bytes = take (s.off - l.off) l.bytes ++ s.bytes } ∷ [])
        p
      ≡ or_else (byte_at (s ∷ []) p) (byte_at (l ∷ []) p)
unfolding byte_at
prefix-byte l s p zl zs h k e = elim (Bool-cases (covers s p)) [
  | inl new ↦
      let (b, found) = byte_in_covered s p zs new in
      ground (
        arith,
        found,
        get_elem?-append (take (s.off - l.off) l.bytes) s.bytes (p - l.off),
        length-take (s.off - l.off) l.bytes,
      )
  | inr old ↦ ground (
    arith,
    get_elem?-append (take (s.off - l.off) l.bytes) s.bytes (p - l.off),
    length-take (s.off - l.off) l.bytes,
    get_elem?-take (s.off - l.off) l.bytes (p - l.off),
  )
]

pub absorb-byte :
    (l s : WriteRange) (p : ℕ)
    → IsSized l
    → IsSized s
    → l.off ≤ s.off
    → s.off ≤ l.end
    → l.end < s.end
    → byte_at (absorb l s ∷ []) p ≡ or_else (byte_at (s ∷ []) p) (byte_at (l ∷ []) p)
absorb-byte l s p zl zs h k e =
    ap (λ r. byte_at (r ∷ []) p) (absorb_longer l s zl k e) ∙ prefix-byte l s p zl zs h k e
