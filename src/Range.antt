-- ===== src/Range.antt =====
-- utils/range.go and utils/byte_range.go: the Range header of a download. A header is the list of
-- its bytes, and holds ASCII.
pub mod Within
pub mod Closed
mod Tests
use orbit_cloud.Base.{
  ℕ, suc, ◌+◌, ◌-◌, ◌*◌, ◌^◌, ◌≡◌, Bool, true, false, not, ◌&&◌, ◌||◌, Option, none, some, List, [],
  ◌∷◌, ltb, leb, ◌==◌, if◌then◌else◌, take, drop,
}
use orbit_cloud.Base.Errors.{Result, ok, err, range_not_satisfiable, ◌>>=◌}

-- `ByteRange`; both ends are in the range.
pub record ByteRange : Type 0 where
  pub start : ℕ
  pub end : ℕ

-- `Length`
abbrev pub range_length : ByteRange → ℕ
range_length r = r.end - r.start + 1

-- strings.TrimSpace
abbrev pub is_space : ℕ → Bool
is_space c = c == b' ' || (leb 9 c && leb c 13)

unfoldable pub trim_left : List ℕ → List ℕ
trim_left [] = []
trim_left (c ∷ rest) = let trimmed = trim_left rest in if is_space c then trimmed else c ∷ rest

unfoldable pub trim_right : List ℕ → List ℕ
trim_right [] = []
trim_right (c ∷ rest) = elim (trim_right rest) [
  | [] ↦ if is_space c then [] else c ∷ []
  | d ∷ ds ↦ c ∷ d ∷ ds
]

-- strings.EqualFold, on ASCII
abbrev pub lower : ℕ → ℕ
lower c = if leb b'A' c && leb c b'Z' then c + 32 else c

unfoldable pub equal_fold : List ℕ → List ℕ → Bool
equal_fold [] [] = true
equal_fold [] (d ∷ ds) = false
equal_fold (c ∷ cs) [] = false
equal_fold (c ∷ cs) (d ∷ ds) = lower c == lower d && equal_fold cs ds

abbrev pub unit_prefix : List ℕ
unit_prefix = b'b' ∷ b'y' ∷ b't' ∷ b'e' ∷ b's' ∷ b'=' ∷ []

-- strings.Contains(value, ",")
unfoldable pub has_comma : List ℕ → Bool
has_comma [] = false
has_comma (c ∷ rest) = c == b',' || has_comma rest

-- What stands before the first dash and behind it; `none` where there is no dash.
unfoldable pub split_dash : List ℕ → Option (List ℕ × List ℕ)
split_dash [] = none
split_dash (c ∷ rest) =
    let later = split_dash rest in
    if c == b'-'
    then some ([], rest)
    else elim later [ none ↦ none | some parts ↦ some (c ∷ parts.0, parts.1) ]

abbrev pub is_digit : ℕ → Bool
is_digit c = leb b'0' c && leb c b'9'

unfoldable pub all_digits : List ℕ → Bool
all_digits [] = true
all_digits (c ∷ rest) = is_digit c && all_digits rest

-- strconv.ParseInt of digits, before its test for overflow
unfoldable pub number : ℕ → List ℕ → ℕ
number read [] = read
number read (c ∷ rest) = number (read * 10 + (c - b'0')) rest

-- `parseUintPart`
unfoldable pub parse_uint_part : List ℕ → Result ℕ
unfolding all_digits number
parse_uint_part [] = err range_not_satisfiable
parse_uint_part (c ∷ rest) =
    if all_digits (c ∷ rest) && ltb (number 0 (c ∷ rest)) (2 ^ 63)
    then ok (number 0 (c ∷ rest))
    else err range_not_satisfiable

-- `finalizeRange`
unfoldable pub finalize_range : ℕ → ℕ → ℕ → Result (Option ByteRange)
finalize_range start end size =
    if size == 0 || leb size start
    then err range_not_satisfiable
    else ok (some (record { start = start; end = if leb size end then size - 1 else end }))

-- The three forms of a range: a suffix, an open range, a closed one.
unfoldable pub range_of_parts : List ℕ → List ℕ → ℕ → Result (Option ByteRange)
unfolding parse_uint_part finalize_range
range_of_parts [] [] size = err range_not_satisfiable
range_of_parts [] (d ∷ ds) size = parse_uint_part (d ∷ ds) >>= λ suffix.
    if leb suffix 0
    then err range_not_satisfiable
    else finalize_range (size - suffix) (size - 1) size
range_of_parts (c ∷ cs) [] size =
    parse_uint_part (c ∷ cs) >>= λ start. finalize_range start (size - 1) size
range_of_parts (c ∷ cs) (d ∷ ds) size = parse_uint_part (c ∷ cs) >>= λ start.
    parse_uint_part (d ∷ ds) >>= λ end.
    if ltb end start then err range_not_satisfiable else finalize_range start end size

-- The value behind "bytes=". Several ranges count as no header.
unfoldable pub range_of_value : List ℕ → ℕ → Result (Option ByteRange)
unfolding range_of_parts
range_of_value value size = if has_comma value then ok none else elim (split_dash value) [
  | none ↦ err range_not_satisfiable
  | some parts ↦ range_of_parts parts.0 parts.1 size
]

-- `ParseRange`, behind the trimming. A short header does not start with the prefix either.
unfoldable pub parse_trimmed : List ℕ → ℕ → Result (Option ByteRange)
unfolding range_of_value
parse_trimmed [] size = ok none
parse_trimmed (c ∷ rest) size =
    if equal_fold (take 6 (c ∷ rest)) unit_prefix
    then range_of_value (drop 6 (c ∷ rest)) size
    else err range_not_satisfiable

-- `ParseRange`
unfoldable pub parse_range : List ℕ → ℕ → Result (Option ByteRange)
unfolding parse_trimmed
parse_range header size = parse_trimmed (trim_right (trim_left header)) size
