-- ===== src/Range/Within.antt =====
-- A parsed range lies in the file.
use orbit_cloud.Base.{
  ℕ, ◌-◌, ◌≤◌, ◌<◌, ◌≡◌, refl, sym, ◌∙◌, ◌⊎◌, inl, inr, ◌||◌, true, false, Option, none, some, List,
  [], ◌∷◌, ltb, leb, ◌==◌, take, drop, Bool-cases, arith,
}
use orbit_cloud.Base.Errors.{ok, err, range_not_satisfiable, bind-ok}
use orbit_cloud.Range.{
  ByteRange, parse_uint_part, finalize_range, range_of_parts, has_comma, split_dash, range_of_value,
  equal_fold, unit_prefix, parse_trimmed, parse_range, trim_left, trim_right,
}

-- The range is in a file of this size.
abbrev pub Within : ℕ → ByteRange → Type 0
Within size r = (r.start ≤ r.end) × (r.end < size)

finalize-Within :
    (start end size : ℕ) {r : ByteRange}
    → (start < size → start ≤ end)
    → finalize_range start end size ≡ ok (some r)
    → Within size r
unfolding finalize_range
finalize-Within start end size {r} h e = elim (Bool-cases (size == 0 || leb size start)) [
  | inl b ↦ absurd (ground arith)
  | inr b ↦ let k = h (ground arith) in ground arith
]

parts-Within :
    (before behind : List ℕ) (size : ℕ) {r : ByteRange}
    → range_of_parts before behind size ≡ ok (some r)
    → Within size r
unfolding range_of_parts
parts-Within [] [] size e = cc
parts-Within [] (d ∷ ds) size {r} e =
    let (suffix, p, e1) = bind-ok (parse_uint_part (d ∷ ds)) _ e in
    elim (Bool-cases (leb suffix 0)) [
      | inl b ↦ absurd (ground arith)
      | inr b ↦ finalize-Within (size - suffix) (size - 1) size (λ l. ground arith) (ground arith)
    ]
parts-Within (c ∷ cs) [] size {r} e =
    let (start, p, e1) = bind-ok (parse_uint_part (c ∷ cs)) _ e in
    finalize-Within start (size - 1) size (λ l. omega arith) e1
parts-Within (c ∷ cs) (d ∷ ds) size {r} e =
    let (start, p, e1) = bind-ok (parse_uint_part (c ∷ cs)) _ e in
    let (end, q, e2) = bind-ok (parse_uint_part (d ∷ ds)) _ e1 in
    elim (Bool-cases (ltb end start)) [
      | inl b ↦ absurd (ground arith)
      | inr b ↦ finalize-Within start end size (λ l. ground arith) (ground arith)
    ]

split_cases : (o : Option (List ℕ × List ℕ)) → (o ≡ none) ⊎ ((p : List ℕ × List ℕ) × (o ≡ some p))
split_cases none = inl refl
split_cases (some p) = inr (p, refl)

value_no_dash :
    (value : List ℕ) (size : ℕ)
    → has_comma value ≡ false
    → split_dash value ≡ none
    → range_of_value value size ≡ err range_not_satisfiable
unfolding range_of_value
value_no_dash value size b d = rw (range_of_value, b, d) refl

pub value_parts :
    (value : List ℕ) (size : ℕ) (p : List ℕ × List ℕ)
    → has_comma value ≡ false
    → split_dash value ≡ some p
    → range_of_value value size ≡ range_of_parts p.0 p.1 size
unfolding range_of_value
value_parts value size p b d = rw (range_of_value, b, d) refl

value_several :
    (value : List ℕ) (size : ℕ) → has_comma value ≡ true → range_of_value value size ≡ ok none
unfolding range_of_value
value_several value size b = rw (range_of_value, b) refl

value-Within :
    (value : List ℕ) (size : ℕ) {r : ByteRange}
    → range_of_value value size ≡ ok (some r)
    → Within size r
value-Within value size {r} e = elim (Bool-cases (has_comma value)) [
  | inl b ↦ let both = sym (value_several value size b) ∙ e in absurd (ground arith)
  | inr b ↦ elim (split_cases (split_dash value)) [
    | inl d ↦ let both = sym (value_no_dash value size b d) ∙ e in absurd (ground arith)
    | inr (p, d) ↦ parts-Within p.0 p.1 size (sym (value_parts value size p b d) ∙ e)
  ]
]

trimmed-Within :
    (h : List ℕ) (size : ℕ) {r : ByteRange} → parse_trimmed h size ≡ ok (some r) → Within size r
unfolding parse_trimmed
trimmed-Within [] size e = absurd (ground arith)
trimmed-Within (c ∷ rest) size {r} e =
    elim (Bool-cases (equal_fold (take 6 (c ∷ rest)) unit_prefix)) [
      | inl b ↦ value-Within (drop 6 (c ∷ rest)) size (ground arith)
      | inr b ↦ absurd (ground arith)
    ]

-- A range that is parsed lies in the file: it ends before the file does, and does not start
-- behind its end.
pub parse_range-Within :
    (header : List ℕ) (size : ℕ) (r : ByteRange)
    → parse_range header size ≡ ok (some r)
    → Within size r
unfolding parse_range
parse_range-Within header size r e = trimmed-Within (trim_right (trim_left header)) size e
