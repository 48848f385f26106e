-- ===== src/Names/Segment.antt =====
-- The name of an item is one segment of a path.
use orbit_cloud.Base.{
  ℕ, ◌≡◌, refl, ◌∙◌, ap, false, ◌||◌, List, [], ◌∷◌, ltb, ◌==◌, if◌then◌else◌, length, arith,
}
use orbit_cloud.Base.Errors.{ok, err, invalid_input}
use orbit_cloud.Names.{
  contains_rune, contains_any, ends_with, same_text, validate_item_name, trim_front, trim_back,
  split_slash, is_refused_segment, build_path, path_in_bounds, normalize_dir_path, separators,
  onto_first, max_item_name_len,
}

-- Without a separator in it.
abbrev NoSlash : List ℕ → Type 0
NoSlash name = contains_any name separators ≡ false

head-NoSlash : (c : ℕ) (rest : List ℕ) → NoSlash (c ∷ rest) → ((c == b'/') ≡ false) × NoSlash rest
unfolding contains_any contains_rune
head-NoSlash c rest h = ground arith

trim_front-NoSlash : (name : List ℕ) → NoSlash name → trim_front name ≡ name
unfolding trim_front
trim_front-NoSlash [] h = refl
trim_front-NoSlash (c ∷ rest) h =
    ap (λ b. if b then trim_front rest else c ∷ rest) (head-NoSlash c rest h).0

trim_back-NoSlash : (name : List ℕ) → NoSlash name → trim_back name ≡ name
unfolding trim_back
trim_back-NoSlash [] h = refl
trim_back-NoSlash (c ∷ []) h = ap (λ b. if b then [] else c ∷ []) (head-NoSlash c [] h).0
trim_back-NoSlash (c ∷ d ∷ rest) h =
    let below = trim_back-NoSlash (d ∷ rest) (head-NoSlash c (d ∷ rest) h).1 in
    ap (λ t. elim t [ [] ↦ if c == b'/' then [] else c ∷ [] | e ∷ es ↦ c ∷ e ∷ es ]) below

split_slash-NoSlash : (name : List ℕ) → NoSlash name → split_slash name ≡ name ∷ []
unfolding split_slash
split_slash-NoSlash [] h = refl
split_slash-NoSlash (c ∷ rest) h =
    let (apart, below) = head-NoSlash c rest h in
    ap (λ b. if b then [] ∷ split_slash rest else onto_first c (split_slash rest)) apart
    ∙ ap (onto_first c) (split_slash-NoSlash rest below)

-- What passes the test of names has passed each of these.
validate_item_name_tests :
    (name : List ℕ)
    → validate_item_name name ≡ ok tt
    → ((length name == 0) ≡ false)
      × NoSlash name
      × (ltb max_item_name_len (length name) ≡ false)
      × (ends_with name b'.' ≡ false)
unfolding validate_item_name
validate_item_name_tests name h = ground arith

segment-accepted :
    (name : List ℕ)
    → (length name == 0) ≡ false
    → ends_with name b'.' ≡ false
    → is_refused_segment name ≡ false
unfolding is_refused_segment same_text ends_with
segment-accepted [] n h = absurd (ground arith)
segment-accepted (c ∷ []) n h = ground arith
segment-accepted (c ∷ d ∷ []) n h = ground arith
segment-accepted (c ∷ d ∷ e ∷ rest) n h = ground arith

one_slash : (name : List ℕ) → NoSlash name → same_text name (b'/' ∷ []) ≡ false
unfolding same_text
one_slash [] h = refl
one_slash (c ∷ rest) h = let no = (head-NoSlash c rest h).0 in ground arith

build_path_single :
    (name : List ℕ) → is_refused_segment name ≡ false → build_path [] (name ∷ []) ≡ ok name
unfolding build_path
build_path_single name a = ap (λ b. if b then err invalid_input else ok name) a

path_in_bounds_short :
    (name : List ℕ)
    → ltb max_item_name_len (length name) ≡ false
    → path_in_bounds (ok name) ≡ ok name
unfolding path_in_bounds
path_in_bounds_short name l = ground arith

-- A name that passes the test of names is a path in its normal form, of one segment, which is no
-- segment that leaves or repeats a folder.
pub normalize_dir_path-validate :
    (name : List ℕ)
    → validate_item_name name ≡ ok tt
    → (normalize_dir_path name ≡ ok name)
      × (split_slash name ≡ name ∷ [])
      × (is_refused_segment name ≡ false)
unfolding normalize_dir_path
normalize_dir_path-validate name h =
    let (some_rune, no_slash, short, no_dot) = validate_item_name_tests name h in
    let trimmed =
      ap trim_back (trim_front-NoSlash name no_slash) ∙ trim_back-NoSlash name no_slash in
    let segs = ap split_slash trimmed ∙ split_slash-NoSlash name no_slash in
    let accepted = segment-accepted name some_rune no_dot in
    let slash = one_slash name no_slash in
    let branch : (length name == 0 || same_text name (b'/' ∷ [])) ≡ false = ground arith in
    let normal : normalize_dir_path name ≡ ok name =
      ap
        (λ b.
          if b
          then ok (b'/' ∷ [])
          else path_in_bounds (build_path [] (split_slash (trim_back (trim_front name)))))
        branch
      ∙ (ap (λ l. path_in_bounds (build_path [] l)) segs
          ∙ (ap path_in_bounds (build_path_single name accepted)
              ∙ path_in_bounds_short name short)) in
    (normal, split_slash-NoSlash name no_slash, accepted)
