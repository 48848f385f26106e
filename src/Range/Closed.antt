-- ===== src/Range/Closed.antt =====
-- A header with a start and an end gives that range, cut at the end of the file.
use orbit_cloud.Base.{
  ℕ, ◌-◌, ◌^◌, ◌≤◌, ◌<◌, ◌≡◌, refl, sym, ap, ◌∙◌, ◌||◌, true, false, some, List, [], ◌∷◌, ◌++◌, leb,
  ◌==◌, if◌then◌else◌, le→ltb, lt→ltb, arith,
}
use orbit_cloud.Base.Errors.{ok}
use orbit_cloud.Range.{
  is_space, all_digits, number, parse_uint_part, finalize_range, range_of_parts, has_comma,
  split_dash, range_of_value, equal_fold, unit_prefix, parse_trimmed, parse_range, trim_left,
  trim_right,
}
use orbit_cloud.Range.Within.{value_parts}

-- One or more digits, whose number is an int64.
abbrev pub IsNumber : List ℕ → Type 0
IsNumber [] = ⊥
IsNumber (c ∷ cs) = (all_digits (c ∷ cs) ≡ true) × (number 0 (c ∷ cs) < 2 ^ 63)

abbrev pub closed_header : List ℕ → List ℕ → List ℕ
closed_header before behind = unit_prefix ++ (before ++ (b'-' ∷ behind))

no_comma : (xs : List ℕ) → all_digits xs ≡ true → has_comma xs ≡ false
unfolding all_digits has_comma
no_comma [] h = refl
no_comma (c ∷ rest) h = ground (arith, no_comma rest)

no_comma_closed :
    (before behind : List ℕ)
    → all_digits before ≡ true
    → all_digits behind ≡ true
    → has_comma (before ++ (b'-' ∷ behind)) ≡ false
unfolding all_digits has_comma
no_comma_closed [] behind a b = no_comma behind b
no_comma_closed (c ∷ rest) behind a b =
    let r : all_digits rest ≡ true = ground arith in ground (arith, no_comma_closed rest behind r b)

split_closed :
    (before behind : List ℕ)
    → all_digits before ≡ true
    → split_dash (before ++ (b'-' ∷ behind)) ≡ some (before, behind)
unfolding all_digits split_dash
split_closed [] behind a = refl
split_closed (c ∷ rest) behind a =
    let r : all_digits rest ≡ true = ground arith in
    let other : (c == b'-') ≡ false = ground arith in rw (other, split_closed rest behind r) refl

-- Digits at the end keep the trimming away.
trim_digits : (c : ℕ) (cs : List ℕ) → all_digits (c ∷ cs) ≡ true → trim_right (c ∷ cs) ≡ c ∷ cs
unfolding all_digits trim_right
trim_digits c [] a = let s : is_space c ≡ false = ground arith in rw s refl
trim_digits c (d ∷ ds) a =
    let r : all_digits (d ∷ ds) ≡ true = ground arith in rw (trim_digits d ds r) refl

trim_kept :
    (before : List ℕ) (c : ℕ) (cs : List ℕ)
    → all_digits (c ∷ cs) ≡ true
    → trim_right (before ++ (c ∷ cs)) ≡ before ++ (c ∷ cs)
unfolding trim_right
trim_kept [] c cs a = trim_digits c cs a
trim_kept (b ∷ []) c cs a = rw (trim_digits c cs a) refl
trim_kept (b ∷ b' ∷ rest) c cs a = rw (trim_kept (b' ∷ rest) c cs a) refl

parse_number : (xs : List ℕ) → IsNumber xs → parse_uint_part xs ≡ ok (number 0 xs)
unfolding parse_uint_part
parse_number [] n = absurd n
parse_number (c ∷ cs) (a, l) = rw (parse_uint_part, a, lt→ltb (number 0 (c ∷ cs)) (2 ^ 63) l) refl

parts_closed :
    (before behind : List ℕ) (size : ℕ)
    → IsNumber before
    → IsNumber behind
    → number 0 before ≤ number 0 behind
    → range_of_parts before behind size ≡ finalize_range (number 0 before) (number 0 behind) size
unfolding range_of_parts
parts_closed [] behind size n m h = absurd n
parts_closed (c ∷ cs) [] size n m h = absurd m
parts_closed (c ∷ cs) (d ∷ ds) size n m h =
    rw
      (
        parse_number (c ∷ cs) n,
        parse_number (d ∷ ds) m,
        le→ltb (number 0 (d ∷ ds)) (number 0 (c ∷ cs)) h,
      )
      refl

left_kept :
    (before behind : List ℕ) → trim_left (closed_header before behind) ≡ closed_header before behind
unfolding trim_left
left_kept before behind = refl

regrouped : (before ys : List ℕ) → (before ++ (b'-' ∷ [])) ++ ys ≡ before ++ (b'-' ∷ ys)
regrouped [] ys = refl
regrouped (x ∷ xs) ys = ap (λ t. x ∷ t) (regrouped xs ys)

right_kept :
    (before behind : List ℕ)
    → IsNumber behind
    → trim_right (closed_header before behind) ≡ closed_header before behind
right_kept before [] m = absurd m
right_kept before (c ∷ cs) m =
    let same : (unit_prefix ++ (before ++ (b'-' ∷ []))) ++ (c ∷ cs)
        ≡ closed_header before (c ∷ cs) =
      ap (λ t. unit_prefix ++ t) (regrouped before (c ∷ cs)) in
    ap trim_right (sym same) ∙ (trim_kept (unit_prefix ++ (before ++ (b'-' ∷ []))) c cs m.0 ∙ same)

trimmed_closed :
    (before behind : List ℕ) (size : ℕ)
    → parse_trimmed (closed_header before behind) size
      ≡ range_of_value (before ++ (b'-' ∷ behind)) size
unfolding parse_trimmed equal_fold
trimmed_closed before behind size = refl

finalize_inside :
    (start end size : ℕ)
    → start < size
    → finalize_range start end size
      ≡ ok (some (record { start = start; end = if leb size end then size - 1 else end }))
unfolding finalize_range
finalize_inside start end size l =
    let b : (size == 0 || leb size start) ≡ false = ground arith in rw b refl

digits_of : (xs : List ℕ) → IsNumber xs → all_digits xs ≡ true
digits_of [] n = absurd n
digits_of (c ∷ cs) n = n.0

-- A header "bytes=a-b", where a is at most b and lies in the file, gives the range from a to b,
-- cut at the end of the file.
pub parse_range_closed :
    (before behind : List ℕ) (size : ℕ)
    → IsNumber before
    → IsNumber behind
    → number 0 before ≤ number 0 behind
    → number 0 before < size
    → parse_range (closed_header before behind) size
      ≡ ok (
          some (record {
            start = number 0 before;
            end = if leb size (number 0 behind) then size - 1 else number 0 behind;
          }))
unfolding parse_range
parse_range_closed before behind size n m h l =
    let a = digits_of before n in
    ap (λ t. parse_trimmed (trim_right t) size) (left_kept before behind)
    ∙ (ap (λ t. parse_trimmed t size) (right_kept before behind m)
        ∙ (trimmed_closed before behind size
            ∙ (value_parts (before ++ (b'-' ∷ behind)) size (before, behind)
                  (no_comma_closed before behind a (digits_of behind m))
                  (split_closed before behind a)
                ∙ (parts_closed before behind size n m h
                    ∙ finalize_inside (number 0 before) (number 0 behind) size l))))
