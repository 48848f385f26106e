-- ===== src/Smb/WriteCache/Outcome.antt =====
-- Where the last write wins, and where it is lost.
use orbit_cloud.Base.{
  ℕ, suc, ◌+◌, ◌≤◌, ◌<◌, ◌≡◌, refl, ◌∙◌, ◌⊎◌, inl, inr, Bool, none, some, List, [], ◌∷◌,
  if◌then◌else◌, length, Bool-cases, arith,
}
use orbit_cloud.Smb.WriteCache.{WriteRange, WriteBackCache, goes_before, segment, apply_write}
use orbit_cloud.Smb.WriteCache.Segments.{ApartFrom, Apart, covers, byte_in, byte_at, covering}
use orbit_cloud.Smb.WriteCache.Overlay.{outlasts, overlay, overlay_outside}
use orbit_cloud.Smb.WriteCache.LastWrite.{byte_at-apply_write}

-- Every segment of the table lies before the write, lies behind it, or ends before it ends.
abbrev pub Yields : WriteRange → List WriteRange → Type 0
Yields w [] = Unit
Yields w (r ∷ rs) = ((r.end ≤ w.off) ⊎ ((w.end ≤ r.off) ⊎ (r.end < w.end))) × Yields w rs

overlay-Yields :
    (tie : Bool) (w : WriteRange) (rs : List WriteRange) (p : ℕ)
    → Yields w rs
    → overlay tie w rs p ≡ (if covers w p then byte_in w p else byte_at rs p)
unfolding overlay outlasts byte_at
overlay-Yields tie w [] p y = refl
overlay-Yields tie w (r ∷ rs) p y = ground (arith, overlay-Yields tie w rs p y.1)

-- Where every segment of the table lies before the write, lies behind it, or ends before the
-- write ends, the last write wins: the bytes written are there, and no other byte is changed.
pub last_write_wins :
    (tie : Bool) (off : ℕ) (bytes : List ℕ) (c : WriteBackCache) (p : ℕ)
    → Apart c.ranges
    → Yields (segment off bytes) c.ranges
    → byte_at (apply_write tie off bytes c).0.ranges p
      ≡ (if covers (segment off bytes) p then byte_in (segment off bytes) p else byte_at c.ranges p)
last_write_wins tie off bytes c p a y =
    byte_at-apply_write tie off bytes c p a ∙ overlay-Yields tie (segment off bytes) c.ranges p y

covering_below :
    (lo : ℕ) (rs : List WriteRange) (p : ℕ) → ApartFrom lo rs → p < lo → covering rs p ≡ none
unfolding covering
covering_below lo [] p a h = refl
covering_below lo (r ∷ rs) p a h = ground (arith, covering_below (suc r.end) rs p a.2)

overlay_inside :
    (tie : Bool) (w r : WriteRange) (lo : ℕ) (rs : List WriteRange) (p : ℕ)
    → ApartFrom lo rs
    → covering rs w.off ≡ some r
    → r.off < w.off
    → w.end ≤ r.end
    → overlay tie w rs p ≡ byte_at rs p
unfolding covering overlay byte_at outlasts goes_before
overlay_inside tie w r lo [] p a e h k = cc
overlay_inside tie w r lo (s ∷ rs) p a e h k = elim (Bool-cases (covers s w.off)) [
  | inl c ↦ ground (arith, overlay_outside tie w rs p)
  | inr c ↦
      ground (
        arith,
        overlay_inside tie w r (suc s.end) rs p a.2,
        covering_below (suc s.end) rs w.off a.2,
      )
]

-- A write that starts inside an old segment, behind its start, and ends no later than it, is
-- lost: the table gives the same byte as before at every position.
pub inner_write_is_lost :
    (tie : Bool) (off : ℕ) (bytes : List ℕ) (c : WriteBackCache) (r : WriteRange) (p : ℕ)
    → Apart c.ranges
    → covering c.ranges off ≡ some r
    → r.off < off
    → off + length bytes ≤ r.end
    → byte_at (apply_write tie off bytes c).0.ranges p ≡ byte_at c.ranges p
inner_write_is_lost tie off bytes c r p a e h k =
    byte_at-apply_write tie off bytes c p a
    ∙ overlay_inside tie (segment off bytes) r 0 c.ranges p a e h k
