-- ===== src/Share/Tests.antt =====
-- The theorems on shares at small tables.
use orbit_cloud.Base.{ℕ, ◌≡◌, refl, false, none, some, List, [], ◌∷◌, ◌==◌, sym}
use orbit_cloud.Base.Errors.{ok, ok-injective}
use orbit_cloud.Base.Int.{pos}
use orbit_cloud.Names.{same_text, trim_space, validate_item_name}
use orbit_cloud.Access.{User, Bucket, blank, folder_usable, load_folder}
use orbit_cloud.Drive.{FileRow, FolderRow, kind_file, kind_folder, ShareLink, Drive, kept_folders}
use orbit_cloud.Drive.Action.{World, ◌>>=◌, asks, pure, on_drive}
use orbit_cloud.Drive.Recycle.{delete_file}
use orbit_cloud.Share.{CreateShareArg, create_share}
use orbit_cloud.Share.Access.{Shared, check_share, resolve_shared_file}
use orbit_cloud.Share.Granted.{IsGranted, resolve_shared_file-IsGranted}
use orbit_cloud.Share.Revoked.{delete_file-resolve}
use orbit_cloud.Share.Created.{IsItem, create_share-check_share}

abbrev user : User
user = record { id = 1; permission_level = 2; status = 1 }

abbrev a_bucket : Bucket
a_bucket = record {
  id = 1;
  permission_level = 3;
  manage_permission_level = 1;
  owner_id = 1;
  status = 1;
}

abbrev docs : FolderRow
docs = record {
  id = 4;
  bucket_id = 1;
  parent_id = 0;
  name = b'd' ∷ [];
  isable = folder_usable;
  uploaded_by = 1;
  visible_to_groups = blank;
  deleted_at = none;
}

abbrev note_in : ℕ → ℕ → FileRow
note_in id folder_id = record {
  id = id;
  bucket_id = 1;
  folder_id = folder_id;
  name = b'n' ∷ [];
  file_size = 3;
  uploaded_by = 1;
  visible_to_groups = blank;
  deleted_at = none;
}

-- The folder, with a password of one byte.
abbrev link : ShareLink
link = record {
  id = 1;
  bucket_item_id = 4;
  item_type = kind_folder;
  creator_id = 1;
  token = b't' ∷ [];
  expires_at = some 50;
  max_downloads = pos 0;
  password = 7 ∷ [];
  deleted = false;
}

abbrev drive : Drive
drive = record {
  files = note_in 9 0 ∷ note_in 5 4 ∷ [];
  folders = docs ∷ [];
  shares = link ∷ [];
  next_file_id = 10;
  next_folder_id = 5;
  copy_tasks = [];
  next_share_id = 2;
  next_task_id = 1;
  get_user = λ id. ok user;
  get_bucket = λ id. ok a_bucket;
  user_group_ids = λ id. ok [];
  bucket_space = λ id. none;
  user_space = λ id. none;
}

abbrev same_runes : List ℕ → List ℕ
same_runes name = name

resolve_shared_file-IsGranted_example :
    IsGranted same_text 20 (b't' ∷ []) (7 ∷ []) drive (note_in 5 4)
unfolding resolve_shared_file validate_item_name load_folder kept_folders
resolve_shared_file-IsGranted_example =
    resolve_shared_file-IsGranted same_runes same_text 20 (b't' ∷ []) (7 ∷ []) (b'n' ∷ []) drive
      (note_in 5 4) refl

-- The file of another name in the folder.
abbrev other : FileRow
other = record (note_in 6 4) { name = b'm' ∷ [] }

abbrev before : World ℕ
before = record { storage = 0; drive = record drive { files = other ∷ drive.files } }

abbrev after : World ℕ
after = record before {
  drive = record before.drive {
    files = other ∷ note_in 9 0 ∷ record (note_in 5 4) { deleted_at = some 30 } ∷ [];
  };
}

delete_file-resolve_example : (other.id == 5) ≡ false
unfolding delete_file ◌>>=◌ asks load_folder kept_folders pure on_drive resolve_shared_file
    validate_item_name
delete_file-resolve_example =
    delete_file-resolve same_runes same_text 30 1 5 before after refl 31 (b't' ∷ []) (7 ∷ [])
      (b'm' ∷ []) other refl

abbrev new_link : CreateShareArg
new_link = record {
  user_id = 1;
  file_id = 9;
  expires_at = some 40;
  max_downloads = pos 0;
  password = 8 ∷ [];
  hashed = ok (8 ∷ []);
  draws = ok (b't' ∷ []) ∷ ok (b'u' ∷ []) ∷ [];
}

abbrev made : ShareLink
made = record {
  id = 2;
  bucket_item_id = 9;
  item_type = kind_file;
  creator_id = 1;
  token = b'u' ∷ [];
  expires_at = some 40;
  max_downloads = pos 0;
  password = [];
  deleted = false;
}

abbrev drive_with_two : Drive
drive_with_two = record drive {
  shares = record made { password = 8 ∷ [] } ∷ link ∷ [];
  copy_tasks = [];
  next_share_id = 3;
  next_task_id = 1;
}

create_share-check_share_example :
    (item : Shared) × (check_share same_text 20 (b'u' ∷ []) (8 ∷ []) drive_with_two ≡ ok item)
    × IsItem kind_file 9 item
unfolding create_share trim_space same_text
create_share-check_share_example =
    create_share-check_share same_text new_link drive drive_with_two made 20 refl
      (λ hash e. rw (sym (ok-injective e)) refl) refl refl
