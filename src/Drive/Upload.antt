-- ===== src/Drive/Upload.antt =====
-- server/file_upload.go: the upload of a file, and the creation of a folder.
use orbit_cloud.Base.{ℕ, ◌-◌, Bool, true, false, List, [], ◌∷◌, ◌++◌, if◌then◌else◌, length, take}
use orbit_cloud.Base.Errors.{
  Result, ok, err, invalid_input, not_found, forbidden, conflict, internal,
}
use orbit_cloud.Base.Int.{pos}
use orbit_cloud.Storage.{ObjectStorage}
use orbit_cloud.Names.{normalize_dir_path, validate_item_name, trim_space, split_slash, same_text}
use orbit_cloud.Access.{blank, folder_usable, folder_unusable, folder_deleting}
use orbit_cloud.Quota.{check_bucket_quota, check_user_quota}
use orbit_cloud.Drive.{
  FileRow, FolderRow, tables, bucket_usable, check_ancestors_access_tree, ancestors_writable,
}
use orbit_cloud.Drive.Action.{Action, ◌>>=◌, ◌>>◌, pure, lift, asks, on_drive, refuse_if}
use orbit_cloud.Drive.Naming.{unique_name, name_exists}
use orbit_cloud.Drive.Resolve.{resolve_dir_path, folder_at, new_folder, with_folder}
use orbit_cloud.Drive.Storing.{NewFile, create_row, put_and_book}

-- `io.Reader`: no reader, a stream that ends, and one that fails before its end.
pub data Stream : Type 0 where
  no_stream broken : Stream
  bytes_of : List ℕ → Stream

abbrev pub is_missing : Stream → Bool
is_missing no_stream = true
is_missing broken = false
is_missing (bytes_of bytes) = false

-- io.Copy
abbrev pub read_all : Stream → Result (List ℕ)
read_all no_stream = err internal
read_all broken = err internal
read_all (bytes_of bytes) = ok bytes

-- `UploadFileArg`
pub record UploadFileArg : Type 0 where
  pub user_id : ℕ
  pub bucket_id : ℕ
  pub dir_path : List ℕ
  pub filename : List ℕ
  pub reader : Stream

-- `CreateDirArg`
pub record CreateDirArg : Type 0 where
  pub user_id : ℕ
  pub bucket_id : ℕ
  pub dir_path : List ℕ

-- The segments without the last, each behind a slash but the first, and the last one.
unfoldable pub join_slash : List (List ℕ) → List ℕ
join_slash [] = []
join_slash (seg ∷ []) = seg
join_slash (seg ∷ next ∷ segs) = seg ++ (b'/' ∷ join_slash (next ∷ segs))

unfoldable pub last_segment : List (List ℕ) → List ℕ
last_segment [] = []
last_segment (seg ∷ []) = seg
last_segment (seg ∷ next ∷ segs) = last_segment (next ∷ segs)

-- What `CreateDir` does with a folder of the name that is there.
abbrev pub reused : FolderRow → Result FolderRow
reused f = elim f.isable [
  | folder_unusable ↦ err not_found
  | folder_usable ↦ ok f
  | folder_deleting ↦ err forbidden
]

-- The two quotas, before anything is written.
unfoldable pub check_quotas : {S : Type 0} → ℕ → ℕ → ℕ → Action S (Unit {0})
unfolding check_bucket_quota check_user_quota
check_quotas user_id bucket_id size = do
  asks (λ d. check_bucket_quota (tables d) bucket_id (pos size))
  asks (λ d. check_user_quota (tables d) user_id)

module _ (to_lower : List ℕ → List ℕ) where
  -- The folder at the path, and the checks that `UploadFile` and `CreateDir` make of it.
  unfoldable pub open_folder : {S : Type 0} → ℕ → ℕ → List ℕ → Action S ℕ
  unfolding resolve_dir_path check_ancestors_access_tree ancestors_writable
  open_folder user_id bucket_id dir = do
    folder_id ← on_drive (resolve_dir_path to_lower user_id bucket_id dir)
    asks (λ d. check_ancestors_access_tree d user_id bucket_id folder_id)
    asks (λ d. ancestors_writable d bucket_id folder_id)
    pure folder_id

  -- `UploadFile`
  unfoldable pub upload_file : {S : Type 0} → ObjectStorage S → UploadFileArg → Action S FileRow
  unfolding open_folder check_quotas unique_name create_row put_and_book
  upload_file st arg = do
    dir ← lift (normalize_dir_path arg.dir_path)
    lift (validate_item_name (trim_space arg.filename))
    refuse_if (is_missing arg.reader) invalid_input
    asks (λ d. bucket_usable d arg.bucket_id)
    folder_id ← open_folder arg.user_id arg.bucket_id dir
    name ← asks (λ d. unique_name to_lower d arg.bucket_id folder_id (trim_space arg.filename))
    bytes ← lift (read_all arg.reader)
    check_quotas arg.user_id arg.bucket_id (length bytes)
    let row : NewFile = record {
      bucket_id = arg.bucket_id;
      folder_id = folder_id;
      name = name;
      file_size = length bytes;
      uploaded_by = arg.user_id;
      visible_to_groups = blank;
    }
    f ← create_row to_lower row
    put_and_book st f bytes

  -- The end of `CreateDir`: the folder that is there, or a new one.
  unfoldable pub reuse_or_make : {S : Type 0} → ℕ → ℕ → ℕ → List ℕ → Action S FolderRow
  unfolding folder_at name_exists
  reuse_or_make user_id bucket_id parent_id name w =
      elim (folder_at to_lower w.drive bucket_id parent_id name) [
        | ok f ↦ (reused f, w)
        | err e ↦
            if name_exists to_lower w.drive bucket_id parent_id name
            then (err conflict, w)
            else let f = new_folder user_id bucket_id parent_id name w.drive in
              (ok f, record w { drive = with_folder f w.drive })
      ]

  -- `CreateDir`
  unfoldable pub create_dir : {S : Type 0} → CreateDirArg → Action S FolderRow
  unfolding open_folder reuse_or_make join_slash last_segment
  create_dir arg = do
    dir ← lift (normalize_dir_path arg.dir_path)
    refuse_if (same_text dir (b'/' ∷ [])) invalid_input
    asks (λ d. bucket_usable d arg.bucket_id)
    let segs = split_slash dir
    parent_id ← open_folder arg.user_id arg.bucket_id (join_slash (take (length segs - 1) segs))
    lift (validate_item_name (last_segment segs))
    reuse_or_make arg.user_id arg.bucket_id parent_id (last_segment segs)
