-- ===== src/Names.antt =====
-- common/validate.go: the paths of folders and the names of items. A string is the list of its
-- runes.
pub mod Segment
mod Tests
use orbit_cloud.Base.{
  ℕ, ◌+◌, ◌-◌, ◌≡◌, Bool, true, false, not, ◌&&◌, ◌||◌, List, [], ◌∷◌, ◌++◌, map, ltb, leb, ◌==◌,
  if◌then◌else◌, length, take, drop, refl, arith,
}
use orbit_cloud.Base.Errors.{Result, ok, err, invalid_input}

-- strings.ContainsRune
unfoldable pub contains_rune : List ℕ → ℕ → Bool
contains_rune [] r = false
contains_rune (c ∷ rest) r = c == r || contains_rune rest r

-- strings.ContainsAny
unfoldable pub contains_any : List ℕ → List ℕ → Bool
unfolding contains_rune
contains_any [] chars = false
contains_any (c ∷ rest) chars = contains_rune chars c || contains_any rest chars

-- strings.HasSuffix, for a suffix of one rune
unfoldable pub ends_with : List ℕ → ℕ → Bool
ends_with [] r = false
ends_with (c ∷ []) r = c == r
ends_with (c ∷ d ∷ rest) r = ends_with (d ∷ rest) r

-- unicode.IsSpace
unfoldable pub is_white : ℕ → Bool
is_white r =
    (r == 32 || (leb 9 r && leb r 13))
    || ((r == 0x85 || r == 0xa0)
        || ((r == 0x1680 || (leb 0x2000 r && leb r 0x200a))
            || ((r == 0x2028 || r == 0x2029) || (r == 0x202f || (r == 0x205f || r == 0x3000)))))

-- strings.TrimSpace: the spaces in front, then those behind.
unfoldable pub skip_space : List ℕ → List ℕ
unfolding is_white
skip_space [] = []
skip_space (c ∷ rest) = let skipped = skip_space rest in if is_white c then skipped else c ∷ rest

unfoldable pub drop_space : List ℕ → List ℕ
unfolding is_white
drop_space [] = []
drop_space (c ∷ rest) = elim (drop_space rest) [
  | [] ↦ if is_white c then [] else c ∷ []
  | d ∷ ds ↦ c ∷ d ∷ ds
]

unfoldable pub trim_space : List ℕ → List ℕ
unfolding skip_space drop_space
trim_space text = drop_space (skip_space text)

-- The comparison of strings.
unfoldable pub same_text : List ℕ → List ℕ → Bool
same_text [] [] = true
same_text [] (d ∷ ds) = false
same_text (c ∷ cs) [] = false
same_text (c ∷ cs) (d ∷ ds) = c == d && same_text cs ds

pub same_text_refl : (a : List ℕ) → same_text a a ≡ true
unfolding same_text
same_text_refl [] = refl
same_text_refl (c ∷ cs) = ground (arith, same_text_refl cs)

-- Texts that are found the same are.
pub same_text→≡ : (a b : List ℕ) → same_text a b ≡ true → a ≡ b
unfolding same_text
same_text→≡ [] [] s = refl
same_text→≡ [] (d ∷ ds) s = cc
same_text→≡ (c ∷ cs) [] s = cc
same_text→≡ (c ∷ cs) (d ∷ ds) s = ground (arith, same_text→≡ cs ds)

-- strings.ToUpper. No other letter has one of the letters of a device as its upper case.
abbrev pub upper : ℕ → ℕ
upper c = if leb b'a' c && leb c b'z' then c - 32 else c

-- What stands before the first dot.
unfoldable pub before_dot : List ℕ → List ℕ
before_dot [] = []
before_dot (c ∷ rest) = let before = before_dot rest in if c == b'.' then [] else c ∷ before

abbrev pub max_dir_path_len : ℕ
max_dir_path_len = 500

abbrev pub max_item_name_len : ℕ
max_item_name_len = 255

-- "/\"
abbrev pub separators : List ℕ
separators = b'/' ∷ 92 ∷ []

-- ":*?"<>|"
abbrev pub refused_signs : List ℕ
refused_signs = b':' ∷ b'*' ∷ b'?' ∷ 34 ∷ b'<' ∷ b'>' ∷ b'|' ∷ []

-- The loop over the runes: control characters and signs that Windows refuses.
unfoldable pub has_refused_rune : List ℕ → Bool
unfolding contains_rune
has_refused_rune [] = false
has_refused_rune (r ∷ rest) =
    (ltb r 32 || r == 127) || (contains_rune refused_signs r || has_refused_rune rest)

-- CON, PRN, AUX, NUL
unfoldable pub is_device : List ℕ → Bool
unfolding same_text
is_device up =
    (same_text up (b'C' ∷ b'O' ∷ b'N' ∷ []) || same_text up (b'P' ∷ b'R' ∷ b'N' ∷ []))
    || (same_text up (b'A' ∷ b'U' ∷ b'X' ∷ []) || same_text up (b'N' ∷ b'U' ∷ b'L' ∷ []))

-- up[3] >= '1' && up[3] <= '9'
unfoldable pub port_digit : List ℕ → Bool
port_digit [] = false
port_digit (d ∷ ds) = leb b'1' d && leb d b'9'

-- COM1 to COM9 and LPT1 to LPT9. The test of the first letter before it follows from the prefix.
unfoldable pub is_port : List ℕ → Bool
unfolding same_text port_digit
is_port up =
    length up == 4
    && ((same_text (take 3 up) (b'C' ∷ b'O' ∷ b'M' ∷ [])
          || same_text (take 3 up) (b'L' ∷ b'P' ∷ b'T' ∷ []))
        && port_digit (drop 3 up))

-- `ValidateItemName`
unfoldable pub validate_item_name : List ℕ → Result (Unit {0})
unfolding contains_any ends_with before_dot has_refused_rune is_device is_port
validate_item_name name =
    let up = map upper (before_dot name) in
    if length name == 0
    then err invalid_input
    else if contains_any name separators
    then err invalid_input
    else if ltb max_item_name_len (length name)
    then err invalid_input
    else if has_refused_rune name
    then err invalid_input
    else if ends_with name b'.' || ends_with name b' '
    then err invalid_input
    else if is_device up || is_port up
    then err invalid_input
    else ok tt

-- strings.Trim(p, "/"): the slashes in front, then those behind.
unfoldable pub trim_front : List ℕ → List ℕ
trim_front [] = []
trim_front (c ∷ rest) = let trimmed = trim_front rest in if c == b'/' then trimmed else c ∷ rest

unfoldable pub trim_back : List ℕ → List ℕ
trim_back [] = []
trim_back (c ∷ rest) = elim (trim_back rest) [
  | [] ↦ if c == b'/' then [] else c ∷ []
  | d ∷ ds ↦ c ∷ d ∷ ds
]

-- A rune before the first of the segments.
abbrev pub onto_first : ℕ → List (List ℕ) → List (List ℕ)
onto_first c [] = (c ∷ []) ∷ []
onto_first c (s ∷ segs) = (c ∷ s) ∷ segs

-- strings.Split(p, "/")
unfoldable pub split_slash : List ℕ → List (List ℕ)
split_slash [] = [] ∷ []
split_slash (c ∷ rest) =
    let segs = split_slash rest in if c == b'/' then [] ∷ segs else onto_first c segs

-- The segments that would leave or repeat a folder.
unfoldable pub is_refused_segment : List ℕ → Bool
unfolding same_text
is_refused_segment s = same_text s [] || (same_text s (b'.' ∷ []) || same_text s (b'.' ∷ b'.' ∷ []))

-- The loop that puts the segments together again.
unfoldable pub build_path : List ℕ → List (List ℕ) → Result (List ℕ)
unfolding is_refused_segment
build_path built [] = ok built
build_path built (s ∷ segs) =
    let rest = build_path (if ltb 0 (length built) then built ++ (b'/' ∷ s) else s) segs in
    if is_refused_segment s then err invalid_input else rest

-- The test of the length behind the loop.
unfoldable pub path_in_bounds : Result (List ℕ) → Result (List ℕ)
path_in_bounds (err e) = err e
path_in_bounds (ok out) = if ltb max_dir_path_len (length out) then err invalid_input else ok out

-- `NormalizeDirPath`
unfoldable pub normalize_dir_path : List ℕ → Result (List ℕ)
unfolding same_text trim_front trim_back split_slash build_path path_in_bounds
normalize_dir_path p =
    if length p == 0 || same_text p (b'/' ∷ [])
    then ok (b'/' ∷ [])
    else path_in_bounds (build_path [] (split_slash (trim_back (trim_front p))))

-- `JoinItemPath`
unfoldable pub join_item_path : List ℕ → List ℕ → List ℕ
unfolding same_text
join_item_path dir_path name =
    if length dir_path == 0 || same_text dir_path (b'/' ∷ [])
    then name
    else dir_path ++ (b'/' ∷ name)
