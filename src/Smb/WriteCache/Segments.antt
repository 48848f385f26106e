-- ===== src/Smb/WriteCache/Segments.antt =====
-- Tables of segments: what holds of one, and which byte one gives at a position.
use orbit_cloud.Base.{
  ℕ, suc, ◌+◌, ◌-◌, ◌≤◌, ◌≡◌, Bool, Option, none, some, List, [], ◌∷◌, ltb, leb, ◌&&◌,
  if◌then◌else◌, length, get_elem?,
}
use orbit_cloud.Smb.WriteCache.{WriteRange}

-- Every segment has as many bytes as its bounds say, and lies apart from the one before it, which
-- ended before `lo`.
abbrev pub ApartFrom : ℕ → List WriteRange → Type 0
ApartFrom lo [] = Unit
ApartFrom lo (r ∷ rs) = (lo ≤ r.off) × (r.end ≡ r.off + length r.bytes) × ApartFrom (suc r.end) rs

abbrev pub Apart : List WriteRange → Type 0
Apart rs = ApartFrom 0 rs

abbrev pub covers : WriteRange → ℕ → Bool
covers r p = leb r.off p && ltb p r.end

-- The first segment that holds position `p`.
unfoldable pub covering : List WriteRange → ℕ → Option WriteRange
covering [] p = none
covering (r ∷ rs) p = if covers r p then some r else covering rs p

abbrev pub byte_in : WriteRange → ℕ → Option ℕ
byte_in r p = get_elem? r.bytes (p - r.off)

-- The byte that the table gives at `p`.
unfoldable pub byte_at : List WriteRange → ℕ → Option ℕ
byte_at [] p = none
byte_at (r ∷ rs) p = if covers r p then byte_in r p else byte_at rs p
