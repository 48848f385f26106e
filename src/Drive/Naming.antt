-- ===== src/Drive/Naming.antt =====
-- server/file.go: the names that a folder has, and a new one beside them. `to_lower` stands for
-- strings.ToLower.
pub mod Free
use orbit_cloud.Base.{
  ℕ, zero, suc, ◌+◌, ◌-◌, ◌≡◌, ap, ◌∙◌, inl, inr, Bool, false, not, ◌&&◌, ◌||◌, List, [], ◌∷◌, ◌++◌,
  ◌==◌, if◌then◌else◌, length, take, Bool-cases, arith,
}
use orbit_cloud.Base.Errors.{Result, ok, err, conflict}
use orbit_cloud.Names.{same_text, contains_rune}
use orbit_cloud.Drive.{FileRow, FolderRow, Drive, is_kept, decimal_runes}

-- filepath.Ext
unfoldable pub ext : List ℕ → List ℕ
unfolding contains_rune
ext [] = []
ext (c ∷ rest) = elim (ext rest) [
  | [] ↦ if c == b'.' && not (contains_rune rest b'/') then c ∷ rest else []
  | d ∷ ds ↦ d ∷ ds
]

-- strings.TrimSuffix(name, ext)
abbrev pub base_of : List ℕ → List ℕ
base_of name = take (length name - length (ext name)) name

-- "%s (%d)%s"
unfoldable pub candidate : List ℕ → ℕ → List ℕ
unfolding ext decimal_runes
candidate name n = base_of name ++ (b' ' ∷ b'(' ∷ (decimal_runes n ++ (b')' ∷ ext name)))

module _ (to_lower : List ℕ → List ℕ) where
  -- The rows of a folder that are not deleted and have a name in lower case.
  unfoldable pub file_named : ℕ → ℕ → List ℕ → List FileRow → Bool
  unfolding same_text
  file_named bucket_id folder_id lower [] = false
  file_named bucket_id folder_id lower (f ∷ rest) =
      (is_kept f.deleted_at
        && ((f.bucket_id == bucket_id && f.folder_id == folder_id)
            && same_text (to_lower f.name) lower))
      || file_named bucket_id folder_id lower rest

  abbrev pub is_named : ℕ → ℕ → List ℕ → FolderRow → Bool
  is_named bucket_id parent_id lower f =
      is_kept f.deleted_at
      && ((f.bucket_id == bucket_id && f.parent_id == parent_id)
          && same_text (to_lower f.name) lower)

  unfoldable pub folder_named : ℕ → ℕ → List ℕ → List FolderRow → Bool
  unfolding same_text
  folder_named bucket_id parent_id lower [] = false
  folder_named bucket_id parent_id lower (f ∷ rest) =
      is_named bucket_id parent_id lower f || folder_named bucket_id parent_id lower rest

  -- `nameExists`
  unfoldable pub name_exists : Drive → ℕ → ℕ → List ℕ → Bool
  unfolding file_named folder_named
  name_exists d bucket_id folder_id name =
      file_named bucket_id folder_id (to_lower name) d.files
      || folder_named bucket_id folder_id (to_lower name) d.folders

  -- The loop of `uniqueName`, with the rounds that are left.
  unfoldable pub first_free : Drive → ℕ → ℕ → List ℕ → ℕ → ℕ → Result (List ℕ)
  unfolding candidate name_exists
  first_free d bucket_id folder_id name zero n = err conflict
  first_free d bucket_id folder_id name (suc rounds) n =
      let rest = first_free d bucket_id folder_id name rounds (n + 1) in
      if name_exists d bucket_id folder_id (candidate name n) then rest else ok (candidate name n)

  -- `uniqueName`
  unfoldable pub unique_name : Drive → ℕ → ℕ → List ℕ → Result (List ℕ)
  unique_name d bucket_id folder_id name =
      if name_exists d bucket_id folder_id name
      then first_free d bucket_id folder_id name 1000 1
      else ok name
