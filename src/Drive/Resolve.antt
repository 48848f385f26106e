-- ===== src/Drive/Resolve.antt =====
-- common/path.go: the folder at the end of a path, made where it is missing, or not.
pub mod Keeping
pub mod Strict
use orbit_cloud.Base.{
  ℕ, suc, ◌+◌, ◌≡◌, Bool, true, false, ◌&&◌, ◌||◌, Option, none, some, List, [], ◌∷◌, ltb, ◌==◌,
  if◌then◌else◌, length,
}
use orbit_cloud.Base.Errors.{Error, Result, ok, err, invalid_input, forbidden, not_found, internal}
use orbit_cloud.Names.{split_slash, validate_item_name, max_dir_path_len}
use orbit_cloud.Access.{blank, folder_usable, folder_unusable, folder_deleting}
use orbit_cloud.Drive.{FolderRow, Drive, find_folder}
use orbit_cloud.Drive.Naming.{is_named}

-- MaxDirPathLen
abbrev pub whole_path_len : ℕ
whole_path_len = 512

-- A new folder at the head of the table, with the next id.
abbrev pub new_folder : ℕ → ℕ → ℕ → List ℕ → Drive → FolderRow
new_folder user_id bucket_id parent_id name d = record {
  id = d.next_folder_id;
  bucket_id = bucket_id;
  parent_id = parent_id;
  name = name;
  isable = folder_usable;
  uploaded_by = user_id;
  visible_to_groups = blank;
  deleted_at = none;
}

abbrev pub with_folder : FolderRow → Drive → Drive
with_folder f d = record d { folders = f ∷ d.folders; next_folder_id = d.next_folder_id + 1 }

abbrev pub is_deleting : FolderRow → Bool
is_deleting f = elim f.isable [
  | folder_unusable ↦ false
  | folder_usable ↦ false
  | folder_deleting ↦ true
]

-- `if err != nil { return 0, err }` behind a segment.
abbrev pub on_to : Result ℕ × Drive → (ℕ → Drive → Result ℕ × Drive) → Result ℕ × Drive
on_to (err e, d) next = (err e, d)
on_to (ok parent_id, d) next = next parent_id d

module _ (to_lower : List ℕ → List ℕ) where
  -- The query for a folder by its parent and name.
  unfoldable pub folder_at : Drive → ℕ → ℕ → List ℕ → Result FolderRow
  unfolding find_folder
  folder_at d bucket_id parent_id name =
      find_folder (is_named to_lower bucket_id parent_id (to_lower name)) d.folders

  -- One segment of `ResolveDirPath`.
  unfoldable pub enter_or_make : ℕ → ℕ → ℕ → List ℕ → Drive → Result ℕ × Drive
  unfolding folder_at
  enter_or_make user_id bucket_id parent_id seg d = elim (validate_item_name seg) [
    | err e ↦ (err e, d)
    | ok valid ↦ elim (folder_at d bucket_id parent_id seg) [
      | ok f ↦ if is_deleting f then (err forbidden, d) else (ok f.id, d)
      | err e ↦ let f = new_folder user_id bucket_id parent_id seg d in (ok f.id, with_folder f d)
    ]
  ]

  -- The loop of `ResolveDirPath`.
  unfoldable pub make_path : ℕ → ℕ → List (List ℕ) → ℕ → Drive → Result ℕ × Drive
  unfolding enter_or_make
  make_path user_id bucket_id [] parent_id d = (ok parent_id, d)
  make_path user_id bucket_id (seg ∷ segs) parent_id d =
      let rest = make_path user_id bucket_id segs in
      if length seg == 0
      then rest parent_id d
      else on_to (enter_or_make user_id bucket_id parent_id seg d) rest

  -- `ResolveDirPath`
  unfoldable pub resolve_dir_path : ℕ → ℕ → List ℕ → Drive → Result ℕ × Drive
  unfolding make_path
  resolve_dir_path user_id bucket_id path d =
      if ltb whole_path_len (length path)
      then (err invalid_input, d)
      else if ltb max_dir_path_len (length (split_slash path))
      then (err internal, d)
      else make_path user_id bucket_id (split_slash path) 0 d

  -- The loop of `ResolveDirPathStrict`.
  unfoldable pub follow_path : Drive → ℕ → List (List ℕ) → ℕ → Result ℕ
  unfolding folder_at
  follow_path d bucket_id [] parent_id = ok parent_id
  follow_path d bucket_id (seg ∷ segs) parent_id =
      let rest = follow_path d bucket_id segs in
      if length seg == 0 then rest parent_id else elim (validate_item_name seg) [
        | err e ↦ err e
        | ok valid ↦ elim (folder_at d bucket_id parent_id seg) [ err e ↦ err e | ok f ↦ rest f.id ]
      ]

  -- `ResolveDirPathStrict`
  unfoldable pub resolve_dir_path_strict : Drive → ℕ → List ℕ → Result ℕ
  unfolding follow_path
  resolve_dir_path_strict d bucket_id path =
      if ltb whole_path_len (length path)
      then err invalid_input
      else if ltb max_dir_path_len (length (split_slash path))
      then err internal
      else follow_path d bucket_id (split_slash path) 0
