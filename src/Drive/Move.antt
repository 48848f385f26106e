-- ===== src/Drive/Move.antt =====
-- server/file_copy_move.go: moves and new names in a bucket, of files and of folders.
pub mod Rooted
use orbit_cloud.Base.{
  ℕ, zero, suc, Bool, not, ◌&&◌, Option, none, some, List, [], ◌∷◌, ◌==◌, if◌then◌else◌, length,
}
use orbit_cloud.Base.Errors.{Result, ok, err, invalid_input}
use orbit_cloud.Names.{normalize_dir_path}
use orbit_cloud.Drive.{
  FileRow, FolderRow, Drive, load_folder_row, bucket_usable, ancestors_usable, ended,
}
use orbit_cloud.Drive.Action.{Action, ◌>>=◌, ◌>>◌, pure, lift, asks, on_drive, refuse_if}
use orbit_cloud.Drive.Naming.{unique_name, name_exists}
use orbit_cloud.Drive.Copy.{name_or, target_folder}

-- `MoveFileArg` and `MoveFolderArg`, with `src_id` for the file or folder
pub record MoveArg : Type 0 where
  pub user_id : ℕ
  pub src_bucket_id : ℕ
  pub src_id : ℕ
  pub dst_bucket_id : ℕ
  pub dst_dir_path : List ℕ
  pub dst_name : List ℕ

-- The update of the row with an id.
unfoldable pub update_file : ℕ → (FileRow → FileRow) → List FileRow → List FileRow
update_file id change [] = []
update_file id change (f ∷ rest) = (if f.id == id then change f else f) ∷ update_file id change rest

unfoldable pub update_folder : ℕ → (FolderRow → FolderRow) → List FolderRow → List FolderRow
update_folder id change [] = []
update_folder id change (f ∷ rest) =
    (if f.id == id then change f else f) ∷ update_folder id change rest

abbrev pub place_file : ℕ → List ℕ → FileRow → FileRow
place_file folder_id name f = record f { folder_id = folder_id; name = name }

abbrev pub place_folder : ℕ → List ℕ → FolderRow → FolderRow
place_folder parent_id name f = record f { parent_id = parent_id; name = name }

-- The walk of `moveFolderSameBucket` from the target up; `none` is out of rounds.
unfoldable pub check_not_below : Drive → ℕ → ℕ → ℕ → ℕ → Option (Result (Unit {0}))
unfolding load_folder_row
check_not_below d bucket_id folder_id zero cur = none
check_not_below d bucket_id folder_id (suc fuel) cur =
    if cur == 0
    then some (ok tt)
    else if cur == folder_id
    then some (err invalid_input)
    else elim (load_folder_row d bucket_id cur) [
      | err e ↦ some (err e)
      | ok p ↦ check_not_below d bucket_id folder_id fuel p.parent_id
    ]

-- if nothing would change { return ErrInvalidInput }; `equal_fold` is strings.EqualFold.
abbrev pub is_unmoved : (List ℕ → List ℕ → Bool) → ℕ → List ℕ → ℕ → List ℕ → Bool
is_unmoved equal_fold folder_id name old_folder_id old_name =
    folder_id == old_folder_id && equal_fold name old_name

-- The new parent and name of a folder, once the walk has found no nesting.
unfoldable pub place_folder_in : {S : Type 0} → ℕ → FolderRow → ℕ → List ℕ → Action S FolderRow
unfolding check_not_below update_folder
place_folder_in bucket_id folder parent_id name = do
  asks (λ d. ended (check_not_below d bucket_id folder.id (suc (length d.folders)) parent_id))
  on_drive (λ d. (
    ok tt,
    record d { folders = update_folder folder.id (place_folder parent_id name) d.folders },
  ))
  pure (place_folder parent_id name folder)

unfoldable pub place_file_in : {S : Type 0} → FileRow → ℕ → List ℕ → Action S FileRow
unfolding update_file
place_file_in file folder_id name = do
  on_drive
      (λ d. (ok tt, record d { files = update_file file.id (place_file folder_id name) d.files }))
  pure (place_file folder_id name file)

module _ (to_lower : List ℕ → List ℕ) where
  -- A name that is taken is changed for a free one.
  unfoldable pub free_name : ℕ → ℕ → List ℕ → Drive → Result (List ℕ)
  unfolding unique_name name_exists
  free_name bucket_id folder_id name d =
      if name_exists to_lower d bucket_id folder_id name
      then unique_name to_lower d bucket_id folder_id name
      else ok name

  module _ (equal_fold : List ℕ → List ℕ → Bool) where
    -- `moveFileSameBucket`
    unfoldable pub move_file_same_bucket :
        {S : Type 0} → ℕ → ℕ → FileRow → List ℕ → List ℕ → Action S FileRow
    unfolding target_folder free_name place_file_in
    move_file_same_bucket user_id bucket_id file dir new_name = do
      folder_id ← target_folder to_lower user_id bucket_id dir
      refuse_if (is_unmoved equal_fold folder_id new_name file.folder_id file.name) invalid_input
      name ← asks (free_name bucket_id folder_id new_name)
      place_file_in file folder_id name

    -- `moveFolderSameBucket`
    unfoldable pub move_folder_same_bucket :
        {S : Type 0} → ℕ → ℕ → FolderRow → List ℕ → List ℕ → Action S FolderRow
    unfolding target_folder free_name place_folder_in
    move_folder_same_bucket user_id bucket_id folder dir new_name = do
      parent_id ← target_folder to_lower user_id bucket_id dir
      refuse_if (is_unmoved equal_fold parent_id new_name folder.parent_id folder.name)
          invalid_input
      name ← asks (free_name bucket_id parent_id new_name)
      place_folder_in bucket_id folder parent_id name

    -- `MoveFolder`
    unfoldable pub move_folder : {S : Type 0} → MoveArg → Action S FolderRow
    unfolding name_or move_folder_same_bucket bucket_usable load_folder_row ancestors_usable
    move_folder arg = do
      asks (λ d. bucket_usable d arg.src_bucket_id)
      folder ← asks (λ d. load_folder_row d arg.src_bucket_id arg.src_id)
      asks (λ d. ancestors_usable d arg.src_bucket_id arg.src_id)
      refuse_if (not (arg.dst_bucket_id == arg.src_bucket_id)) invalid_input
      dir ← lift (normalize_dir_path arg.dst_dir_path)
      name ← lift (name_or arg.dst_name folder.name)
      move_folder_same_bucket arg.user_id arg.src_bucket_id folder dir name
