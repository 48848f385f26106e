-- ===== src/Drive/Copy.antt =====
-- server/file_copy_move.go: the copy of a file, with a new name on a conflict or without.
use orbit_cloud.Base.{ℕ, zero, suc, Bool, List, ◌==◌, if◌then◌else◌, length}
use orbit_cloud.Base.Errors.{Result, ok, err, conflict}
use orbit_cloud.Storage.{ObjectStorage}
use orbit_cloud.Names.{normalize_dir_path, validate_item_name, trim_space}
use orbit_cloud.Drive.{
  FileRow, Drive, load_file, bucket_usable, ancestors_usable, check_ancestors_access_tree,
  ancestors_writable,
}
use orbit_cloud.Drive.Action.{Action, ◌>>=◌, ◌>>◌, pure, lift, asks, on_drive}
use orbit_cloud.Drive.Naming.{unique_name, name_exists}
use orbit_cloud.Drive.Resolve.{resolve_dir_path}
use orbit_cloud.Drive.Storing.{NewFile, create_row, copy_and_book}
use orbit_cloud.Drive.Upload.{check_quotas}

-- `CopyFileArg`
pub record CopyFileArg : Type 0 where
  pub user_id : ℕ
  pub src_bucket_id : ℕ
  pub src_file_id : ℕ
  pub dst_bucket_id : ℕ
  pub dst_dir_path : List ℕ
  pub dst_filename : List ℕ
  pub dst_folder_id : ℕ

-- The new name, or the old one where none is given.
unfoldable pub name_or : List ℕ → List ℕ → Result (List ℕ)
unfolding trim_space
name_or given old =
    if length (trim_space given) == 0
    then ok old
    else elim (validate_item_name (trim_space given)) [
      | err e ↦ err e
      | ok valid ↦ ok (trim_space given)
    ]

-- The file with the checks that copies, moves and deletions begin with.
unfoldable pub usable_file : {S : Type 0} → ℕ → ℕ → Action S FileRow
unfolding bucket_usable load_file ancestors_usable
usable_file bucket_id file_id = do
  asks (λ d. bucket_usable d bucket_id)
  f ← asks (λ d. load_file d bucket_id file_id)
  asks (λ d. ancestors_usable d bucket_id f.folder_id)
  pure f

-- The checks of a target folder.
unfoldable pub check_target : {S : Type 0} → ℕ → ℕ → ℕ → Action S (Unit {0})
unfolding ancestors_usable check_ancestors_access_tree ancestors_writable
check_target user_id bucket_id folder_id = do
  asks (λ d. ancestors_usable d bucket_id folder_id)
  asks (λ d. check_ancestors_access_tree d user_id bucket_id folder_id)
  asks (λ d. ancestors_writable d bucket_id folder_id)

module _ (to_lower : List ℕ → List ℕ) where
  -- The folder at the path, with the checks.
  unfoldable pub target_folder : {S : Type 0} → ℕ → ℕ → List ℕ → Action S ℕ
  unfolding resolve_dir_path check_target
  target_folder user_id bucket_id dir = do
    folder_id ← on_drive (resolve_dir_path to_lower user_id bucket_id dir)
    check_target user_id bucket_id folder_id
    pure folder_id

  -- A folder that is given, or else the one at the path.
  unfoldable pub given_or_at : {S : Type 0} → ℕ → ℕ → ℕ → List ℕ → Action S ℕ
  unfolding target_folder check_target
  given_or_at zero user_id bucket_id dir = target_folder user_id bucket_id dir
  given_or_at (suc k) user_id bucket_id dir = check_target user_id bucket_id (suc k) >> pure (suc k)

  -- The name of the copy: a free one, or the given one where it is free.
  unfoldable pub copy_name : Bool → ℕ → ℕ → List ℕ → Drive → Result (List ℕ)
  unfolding unique_name name_exists
  copy_name auto_rename bucket_id folder_id name d =
      if auto_rename
      then unique_name to_lower d bucket_id folder_id name
      else if name_exists to_lower d bucket_id folder_id name
      then err conflict
      else ok name

  -- `copyFileInner`; `CopyFile` is with new names, `CopyFileNoRename` is without.
  unfoldable pub copy_file_inner :
      {S : Type 0} → ObjectStorage S → CopyFileArg → Bool → Action S FileRow
  unfolding usable_file name_or given_or_at copy_name check_quotas create_row copy_and_book
  copy_file_inner st arg auto_rename = do
    src ← usable_file arg.src_bucket_id arg.src_file_id
    asks (λ d. bucket_usable d arg.dst_bucket_id)
    dir ← lift (normalize_dir_path arg.dst_dir_path)
    given ← lift (name_or arg.dst_filename src.name)
    folder_id ← given_or_at arg.dst_folder_id arg.user_id arg.dst_bucket_id dir
    name ← asks (copy_name auto_rename arg.dst_bucket_id folder_id given)
    check_quotas arg.user_id arg.dst_bucket_id src.file_size
    let row : NewFile = record {
      bucket_id = arg.dst_bucket_id;
      folder_id = folder_id;
      name = name;
      file_size = src.file_size;
      uploaded_by = arg.user_id;
      visible_to_groups = src.visible_to_groups;
    }
    f ← create_row to_lower row
    copy_and_book st src f
