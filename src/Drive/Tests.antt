-- ===== src/Drive/Tests.antt =====
-- The theorems on files and folders at small tables.
use orbit_cloud.BucketCoder.{bucket_encoder}
use orbit_cloud.Base.{
  ℕ, ◌≡◌, refl, true, false, none, some, List, [], ◌∷◌, arith, ◌⊎◌, ◌≢◌, inl, inr,
}
use orbit_cloud.Base.Errors.{ok, err, internal}
use orbit_cloud.Base.Int.{pos, ◌+ℤ◌}
use orbit_cloud.Names.{same_text, normalize_dir_path, validate_item_name, trim_space, split_slash}
use orbit_cloud.Storage.Local.{Files, local_storage, put, get, update}
use orbit_cloud.Access.{User, Bucket, blank, folder_usable}
use orbit_cloud.Quota.{BucketRow, UserRow}
use orbit_cloud.Drive.{
  FileRow, FolderRow, Drive, load_folder_row, find_folder, bucket_usable, object_key_for_file,
  ancestors_usable,
}
use orbit_cloud.Drive.Action.{World, ◌>>=◌, lift, refuse_if, asks, on_drive, pure, attempt}
use orbit_cloud.Drive.Naming.{
  unique_name, first_free, candidate, name_exists, file_named, folder_named,
}
use orbit_cloud.Drive.Resolve.{resolve_dir_path, resolve_dir_path_strict}
use orbit_cloud.Drive.Resolve.Strict.{resolve_dir_path-strict}
use orbit_cloud.Drive.Naming.Free.{Holds, held_folder, unique_name-Holds}
use orbit_cloud.Drive.Across.{move_file}
use orbit_cloud.Drive.Upload.{bytes_of, UploadFileArg, upload_file}
use orbit_cloud.Drive.Download.{download_file}
use orbit_cloud.Drive.Download.Uploaded.{upload_file-download_file}
use orbit_cloud.Drive.Subtree.{purge_recycled_folder_subtree}
use orbit_cloud.Drive.Subtree.Ends.{has_id, purge_recycled_folder_subtree_returns}
use orbit_cloud.Drive.Move.{MoveArg, move_folder}
use orbit_cloud.Drive.Move.Rooted.{root, up, StillRooted, move_folder-Rooted}
use orbit_cloud.Drive.Calls.{
  Request, upload, copy, delete_a_file, restore_a_file, purge_a_file, purge_a_folder, move_a_file,
  resume_copies, answered, run,
}
use orbit_cloud.Drive.Books.{Books, held}
use orbit_cloud.Drive.Books.Requests.{run-Books}

abbrev admin : User
admin = record { id = 1; permission_level = 0; status = 1 }

abbrev bucket : Bucket
bucket = record {
  id = 1;
  permission_level = 3;
  manage_permission_level = 1;
  owner_id = 1;
  status = 1;
}

abbrev bucket_row : BucketRow
bucket_row = record { quota = pos 100; used_space = pos 0 }

abbrev user_row : UserRow
user_row = record { quota = none; used_space = pos 0 }

abbrev empty_drive : Drive
empty_drive = record {
  files = [];
  folders = [];
  shares = [];
  next_file_id = 1;
  next_folder_id = 1;
  copy_tasks = [];
  next_share_id = 1;
  next_task_id = 1;
  get_user = λ id. ok admin;
  get_bucket = λ id. ok bucket;
  user_group_ids = λ id. ok [];
  bucket_space = λ id. some bucket_row;
  user_space = λ id. some user_row;
}

abbrev no_files : Files
no_files b key = none

abbrev start : World Files
start = record { storage = no_files; drive = empty_drive }

-- Runes are small letters already.
abbrev same_runes : List ℕ → List ℕ
same_runes name = name

abbrev docs : List ℕ
docs = b'd' ∷ []

abbrev note : List ℕ
note = b'n' ∷ []

abbrev requests : List Request
requests =
    upload (record {
      user_id = 1;
      bucket_id = 1;
      dir_path = docs;
      filename = note;
      reader = bytes_of (1 ∷ 2 ∷ 3 ∷ []);
    })
    ∷ copy
        (record {
          user_id = 1;
          src_bucket_id = 1;
          src_file_id = 1;
          dst_bucket_id = 1;
          dst_dir_path = docs;
          dst_filename = [];
          dst_folder_id = 0;
        })
        true
    ∷ delete_a_file 5 1 1
    ∷ restore_a_file 1
    ∷ move_a_file 7 (record {
      user_id = 1;
      src_bucket_id = 1;
      src_id = 1;
      dst_bucket_id = 2;
      dst_dir_path = [];
      dst_name = [];
    })
    ∷ resume_copies 8
    ∷ delete_a_file 6 1 2
    ∷ purge_a_file 2
    ∷ purge_a_folder 1 1
    ∷ []

run-Books_example : Books (run local_storage same_runes same_text requests start).drive
unfolding held
run-Books_example =
    run-Books local_storage same_runes same_text requests start (tt, λ i b e. cc, λ i u e. cc)

abbrev folder : ℕ → ℕ → List ℕ → FolderRow
folder id parent_id name = record {
  id = id;
  bucket_id = 1;
  parent_id = parent_id;
  name = name;
  isable = folder_usable;
  uploaded_by = 1;
  visible_to_groups = blank;
  deleted_at = none;
}

-- /d, with /d/n in it
abbrev two_folders : World Files
two_folders = record start {
  drive = record empty_drive {
    folders = folder 2 1 note ∷ folder 1 0 docs ∷ [];
    next_folder_id = 3;
  };
}

-- /d goes to /x/e.
abbrev to_x : MoveArg
to_x = record {
  user_id = 1;
  src_bucket_id = 1;
  src_id = 1;
  dst_bucket_id = 1;
  dst_dir_path = b'x' ∷ [];
  dst_name = b'e' ∷ [];
}

move_folder-Rooted_example :
    StillRooted 1 2 (answered (move_folder same_runes same_text to_x) two_folders).drive
unfolding load_folder_row find_folder
move_folder-Rooted_example = move_folder-Rooted same_runes same_text to_x 2 two_folders (
  (omega arith, (omega arith, tt)),
  up 2 (folder 2 1 note) refl (up 1 (folder 1 0 docs) refl root),
)

-- The folder d in the root.
docs_held : Holds two_folders.drive 1 0 docs
docs_held = held_folder (folder 1 0 docs) (inr (inl refl)) refl refl refl

unique_name-Holds_example :
    ((candidate docs 1 ≡ docs) ⊎ ((k : ℕ) × (candidate docs 1 ≡ candidate docs k)))
    × (same_runes docs ≢ same_runes (candidate docs 1))
unfolding unique_name first_free name_exists file_named folder_named same_text
unique_name-Holds_example = unique_name-Holds same_runes 1 0 two_folders.drive docs refl docs_held

-- /d/n, which is not there.
abbrev after_path : Drive
after_path = (resolve_dir_path same_runes 1 1 (b'd' ∷ b'/' ∷ b'n' ∷ []) empty_drive).1

resolve_dir_path-strict_example :
    resolve_dir_path_strict same_runes after_path 1 (b'd' ∷ b'/' ∷ b'n' ∷ []) ≡ ok 2
unfolding resolve_dir_path split_slash validate_item_name
resolve_dir_path-strict_example =
    resolve_dir_path-strict same_runes 1 1 (b'd' ∷ b'/' ∷ b'n' ∷ []) empty_drive refl

abbrev upload_note : UploadFileArg
upload_note = record {
  user_id = 1;
  bucket_id = 1;
  dir_path = [];
  filename = note;
  reader = bytes_of (1 ∷ 2 ∷ 3 ∷ []);
}

abbrev uploaded : FileRow
uploaded = record {
  id = 1;
  bucket_id = 1;
  folder_id = 0;
  name = note;
  file_size = 3;
  uploaded_by = 1;
  visible_to_groups = blank;
  deleted_at = none;
}

-- What the upload leaves.
abbrev after_upload : World Files
after_upload = (upload_file same_runes local_storage upload_note start).1

-- The file of the upload goes to the root of bucket 2 under the name e.
moved_across :
    (move_file local_storage same_runes 7 same_text
      (record to_x { dst_bucket_id = 2; dst_dir_path = [] })
      after_upload).0
    ≡ ok (record uploaded { id = 2; bucket_id = 2; name = b'e' ∷ [] })
unfolding move_file ◌>>=◌ asks upload_file lift normalize_dir_path validate_item_name refuse_if
    on_drive pure ◌+ℤ◌ local_storage put get update bucket_encoder object_key_for_file attempt
moved_across = refl

upload_file-download_file_example :
    (download_file local_storage after_upload.storage after_upload.drive 1 1 ≡ ok (1 ∷ 2 ∷ 3 ∷ []))
    ⊎ (download_file local_storage after_upload.storage after_upload.drive 1 1 ≡ err internal)
unfolding upload_file ◌>>=◌ lift normalize_dir_path validate_item_name trim_space refuse_if asks
    bucket_usable on_drive pure name_exists ◌+ℤ◌ local_storage put bucket_encoder
    object_key_for_file ancestors_usable
upload_file-download_file_example =
    upload_file-download_file local_storage same_runes upload_note (1 ∷ 2 ∷ 3 ∷ []) start
      after_upload uploaded {bucket = bucket} refl refl refl refl

-- Two folders of the recycle bin that are each below the other.
abbrev folder_cycle : World Files
folder_cycle = record two_folders {
  drive = record two_folders.drive { folders = folder 2 1 note ∷ folder 1 2 docs ∷ [] };
}

purge_recycled_folder_subtree_returns_example :
    (after : World Files) × (purge_recycled_folder_subtree local_storage 1 2 folder_cycle
      ≡ some after)
    × (has_id 2 after.drive.folders ≡ false)
purge_recycled_folder_subtree_returns_example =
    purge_recycled_folder_subtree_returns local_storage 1 2 folder_cycle
