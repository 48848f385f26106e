-- ===== src/Names/Tests.antt =====
-- The theorems on names at a concrete name.
use orbit_cloud.Base.{ℕ, ◌≡◌, refl, false, List, [], ◌∷◌}
use orbit_cloud.Base.Errors.{ok, err, invalid_input}
use orbit_cloud.Names.{
  validate_item_name, normalize_dir_path, before_dot, contains_any, contains_rune, ends_with,
  has_refused_rune, is_device, is_port, same_text, port_digit, trim_front, trim_back, split_slash,
  build_path, is_refused_segment, path_in_bounds,
}
use orbit_cloud.Names.Segment.{normalize_dir_path-validate}

-- "a.b"
abbrev small_name : List ℕ
small_name = b'a' ∷ b'.' ∷ b'b' ∷ []

normalize_dir_path-validate_example :
    (normalize_dir_path small_name ≡ ok small_name)
    × (split_slash small_name ≡ small_name ∷ [])
    × (is_refused_segment small_name ≡ false)
unfolding validate_item_name contains_any contains_rune ends_with before_dot has_refused_rune
    is_device is_port same_text port_digit
normalize_dir_path-validate_example = normalize_dir_path-validate small_name refl

-- "con.txt"
device_refused :
    validate_item_name (b'c' ∷ b'o' ∷ b'n' ∷ b'.' ∷ b't' ∷ b'x' ∷ b't' ∷ []) ≡ err invalid_input
unfolding validate_item_name contains_any contains_rune ends_with before_dot has_refused_rune
    is_device is_port same_text port_digit
device_refused = refl

-- "lpt7"
port_refused : validate_item_name (b'l' ∷ b'p' ∷ b't' ∷ b'7' ∷ []) ≡ err invalid_input
unfolding validate_item_name contains_any contains_rune ends_with before_dot has_refused_rune
    is_device is_port same_text port_digit
port_refused = refl

-- "/a/b/" and "a/../b"
path_trimmed :
    normalize_dir_path (b'/' ∷ b'a' ∷ b'/' ∷ b'b' ∷ b'/' ∷ []) ≡ ok (b'a' ∷ b'/' ∷ b'b' ∷ [])
unfolding normalize_dir_path same_text trim_front trim_back split_slash build_path path_in_bounds
    is_refused_segment
path_trimmed = refl

climb_refused :
    normalize_dir_path (b'a' ∷ b'/' ∷ b'.' ∷ b'.' ∷ b'/' ∷ b'b' ∷ []) ≡ err invalid_input
unfolding normalize_dir_path same_text trim_front trim_back split_slash build_path path_in_bounds
    is_refused_segment
climb_refused = refl
