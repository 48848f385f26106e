-- ===== src/Range/Tests.antt =====
-- The theorems on Range headers at concrete headers.
use orbit_cloud.Base.{ℕ, refl, List, [], ◌∷◌, ◌++◌}
use orbit_cloud.Range.{
  ByteRange, parse_range, unit_prefix, equal_fold, trim_left, trim_right, has_comma, split_dash,
}
use orbit_cloud.Range.Within.{Within, parse_range-Within}

-- " bytes=2-9 "
abbrev header : List ℕ
header = b' ' ∷ (unit_prefix ++ (b'2' ∷ b'-' ∷ b'9' ∷ b' ' ∷ []))

abbrev clipped : ByteRange
clipped = record { start = 2; end = 4 }

parse_range-Within_example : Within 5 clipped
unfolding parse_range trim_right trim_left equal_fold has_comma split_dash
parse_range-Within_example = parse_range-Within header 5 clipped refl
