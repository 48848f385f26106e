-- ===== src/Drive.antt =====
-- model/file.go, model/folder.go, model/share_link.go, and the queries of server/file.go: the tables
-- of files and folders with what server/ does on them, in a database where no query fails but the
-- loads of users and buckets. A row in the recycle bin has `deleted_at`. Types and digests of files
-- are only carried along, and left out.
pub mod Action
pub mod Naming
pub mod Resolve
pub mod Storing
pub mod Upload
pub mod Copy
pub mod Move
pub mod Recycle
pub mod Across
pub mod Download
pub mod Subtree
pub mod Calls
pub mod Keeping
pub mod Books
mod Tests
use Prim.Native.String.{String}
use Prim.Native.Char.{Char}
use orbit_cloud.Base.{
  ℕ, zero, suc, ◌+◌, ◌-◌, ◌/◌, ◌%◌, ◌≡◌, Bool, true, false, not, ◌&&◌, ◌||◌, Option, none, some,
  List, [], ◌∷◌, ◌++◌, map, ltb, ◌==◌, if◌then◌else◌,
}
use orbit_cloud.Base.Errors.{Error, Result, ok, err, internal, not_found, forbidden, ◌>>=◌}
use orbit_cloud.Base.Int.{ℤ, pos}
use orbit_cloud.BucketCoder.{append, char_at}
use orbit_cloud.Access.{
  VisibleToGroups, blank, malformed, listed, Isable, folder_unusable, folder_usable,
  folder_deleting, User, Bucket, Folder, File, Database, is_admin,
}
use orbit_cloud.Access.Rule.{item_visible_rule}
use orbit_cloud.Access.Walk.{
  reachable, walk, check_ancestors_writable, check_ancestors_usable, fuel_for,
}
use orbit_cloud.Quota.{BucketRow, UserRow, Tables}

pub record FileRow : Type 0 where
  pub id : ℕ
  pub bucket_id : ℕ
  pub folder_id : ℕ
  pub name : List ℕ
  pub file_size : ℕ
  pub uploaded_by : ℕ
  pub visible_to_groups : VisibleToGroups
  pub deleted_at : Option ℕ

pub record FolderRow : Type 0 where
  pub id : ℕ
  pub bucket_id : ℕ
  pub parent_id : ℕ
  pub name : List ℕ
  pub isable : Isable
  pub uploaded_by : ℕ
  pub visible_to_groups : VisibleToGroups
  pub deleted_at : Option ℕ

-- `ItemType`
pub data ItemKind : Type 0 where
  kind_file kind_folder : ItemKind

pub record ShareLink : Type 0 where
  pub id : ℕ
  pub bucket_item_id : ℕ
  pub item_type : ItemKind
  pub creator_id : ℕ
  pub token : List ℕ
  pub expires_at : Option ℕ
  pub max_downloads : ℤ
  pub password : List ℕ
  pub deleted : Bool

-- `CopyTask` of a file's move to another bucket. Its lock is taken and given back within the call
-- that processes the task, one call at a time, so the two columns of the lock are left out.
pub record CopyTask : Type 0 where
  pub id : ℕ
  pub bucket_id : ℕ
  pub source_file_id : ℕ
  pub dst_bucket_id : ℕ
  pub dst_folder_id : ℕ
  pub dst_dir_path : List ℕ
  pub dst_name : List ℕ
  pub uploaded_by : ℕ
  pub operator_level : ℕ
  pub status : ℕ

-- The tables, with the ids that they give next. The rows of users and buckets by id are in two
-- parts: what is checked, and the space.
pub record Drive : Type 0 where
  pub files : List FileRow
  pub folders : List FolderRow
  pub shares : List ShareLink
  pub copy_tasks : List CopyTask
  pub next_file_id : ℕ
  pub next_folder_id : ℕ
  pub next_share_id : ℕ
  pub next_task_id : ℕ
  pub get_user : ℕ → Result User
  pub get_bucket : ℕ → Result Bucket
  pub user_group_ids : ℕ → Result (List ℕ)
  pub bucket_space : ℕ → Option BucketRow
  pub user_space : ℕ → Option UserRow

-- deleted_at IS NULL
abbrev pub is_kept : Option ℕ → Bool
is_kept none = true
is_kept (some at) = false

abbrev pub folder_of : FolderRow → Folder
folder_of f = record {
  id = f.id;
  bucket_id = f.bucket_id;
  parent_id = f.parent_id;
  isable = f.isable;
  visible_to_groups = f.visible_to_groups;
  uploaded_by = f.uploaded_by;
}

abbrev pub file_of : FileRow → File
file_of f = record {
  id = f.id;
  bucket_id = f.bucket_id;
  folder_id = f.folder_id;
  visible_to_groups = f.visible_to_groups;
  uploaded_by = f.uploaded_by;
}

-- The folders as the walks see them: those that are not in the recycle bin.
unfoldable pub kept_folders : List FolderRow → List Folder
kept_folders [] = []
kept_folders (f ∷ rest) =
    let others = kept_folders rest in if is_kept f.deleted_at then folder_of f ∷ others else others

unfoldable pub kept_files : List FileRow → List File
kept_files [] = []
kept_files (f ∷ rest) =
    let others = kept_files rest in if is_kept f.deleted_at then file_of f ∷ others else others

-- The tables as the permission checks see them.
abbrev pub database : Drive → Database
database d = record {
  folders = kept_folders d.folders;
  files = kept_files d.files;
  get_user = d.get_user;
  get_bucket = d.get_bucket;
  user_group_ids = d.user_group_ids;
}

-- The size of a file by its id, as the quotas' tables hold it.
unfoldable pub size_of_id : List FileRow → ℕ → Option ℤ
size_of_id [] id = none
size_of_id (f ∷ rest) id = if f.id == id then some (pos f.file_size) else size_of_id rest id

-- The tables as the quotas see them.
abbrev pub tables : Drive → Tables
tables d = record { bucket = d.bucket_space; user = d.user_space; file_size = size_of_id d.files }

-- The first file that passes a test, whether deleted or not.
unfoldable pub find_file : (FileRow → Bool) → List FileRow → Result FileRow
find_file test [] = err not_found
find_file test (f ∷ rest) = if test f then ok f else find_file test rest

unfoldable pub find_folder : (FolderRow → Bool) → List FolderRow → Result FolderRow
find_folder test [] = err not_found
find_folder test (f ∷ rest) = if test f then ok f else find_folder test rest

-- `loadFile`, with the whole row
unfoldable pub load_file : Drive → ℕ → ℕ → Result FileRow
unfolding find_file
load_file d bucket_id file_id =
    find_file (λ f. is_kept f.deleted_at && (f.id == file_id && f.bucket_id == bucket_id)) d.files

-- `loadFolder`, with the whole row
unfoldable pub load_folder_row : Drive → ℕ → ℕ → Result FolderRow
unfolding find_folder
load_folder_row d bucket_id folder_id =
    find_folder (λ f. is_kept f.deleted_at && (f.id == folder_id && f.bucket_id == bucket_id))
      d.folders

-- `GetRecycledFile`, and the query that `DeleteRecycledFile` and `RestoreRecycledFile` begin with
unfoldable pub get_recycled_file : Drive → ℕ → Result FileRow
unfolding find_file
get_recycled_file d file_id = find_file (λ f. f.id == file_id && not (is_kept f.deleted_at)) d.files

-- The digits of a number, in at most the given number of rounds.
unfoldable pub digit_runes : ℕ → ℕ → List ℕ → List ℕ
digit_runes zero n after = after
digit_runes (suc fuel) n after =
    let rest = digit_runes fuel (n / 10) ((b'0' + n % 10) ∷ after) in
    if ltb n 10 then (b'0' + n) ∷ after else rest

-- %d; a number has no more digits than it counts, and one.
unfoldable pub decimal_runes : ℕ → List ℕ
unfolding digit_runes
decimal_runes n = digit_runes (suc n) n []

abbrev pub digit_char : ℕ → Char
digit_char r = char_at "0123456789" (r - 48)

unfoldable pub text_of_digits : List ℕ → String
unfolding char_at
text_of_digits [] = String.[]
text_of_digits (r ∷ rest) = String.◌∷◌ (digit_char r) (text_of_digits rest)

-- `objectKeyForFile`
unfoldable pub object_key_for_file : ℕ → String
unfolding decimal_runes text_of_digits
object_key_for_file id = text_of_digits (decimal_runes id)

-- A walk that would not end is taken as a failed query; on a table without cycles there is none.
abbrev pub ended : Option (Result (Unit {0})) → Result (Unit {0})
ended none = err internal
ended (some r) = r

-- `checkItemAccessTree`
unfoldable pub check_item_access_tree : Drive → User → VisibleToGroups → Result (Unit {0})
check_item_access_tree d user v = elim v [
  | blank ↦ ok tt
  | malformed ↦
      if is_admin user.permission_level
      then ok tt
      else d.user_group_ids user.id >>= item_visible_rule malformed (some user)
  | listed ids ↦
      if is_admin user.permission_level
      then ok tt
      else d.user_group_ids user.id >>= item_visible_rule (listed ids) (some user)
]

-- `checkAncestorsAccessTree`; the user and the groups, which it loads once, do not change meanwhile.
unfoldable pub check_ancestors_access_tree : Drive → ℕ → ℕ → ℕ → Result (Unit {0})
unfolding walk check_item_access_tree
check_ancestors_access_tree d user_id bucket_id folder_id =
    let folders = kept_folders d.folders in
    ended (
      walk folders bucket_id
        (reachable
          (λ f. d.get_user user_id >>= λ user. check_item_access_tree d user f.visible_to_groups))
        (fuel_for folders) [] folder_id)

-- `CheckAncestorsWritable` and `checkAncestorsUsable`
unfoldable pub ancestors_writable : Drive → ℕ → ℕ → Result (Unit {0})
unfolding check_ancestors_writable
ancestors_writable d bucket_id folder_id =
    ended (check_ancestors_writable (kept_folders d.folders) bucket_id folder_id)

unfoldable pub ancestors_usable : Drive → ℕ → ℕ → Result (Unit {0})
unfolding check_ancestors_usable
ancestors_usable d bucket_id folder_id =
    let folders = kept_folders d.folders in
    ended (check_ancestors_usable folders bucket_id (fuel_for folders) folder_id)

-- `CheckBucketUsable`, and the same test of a target in `copyFileInner`
unfoldable pub bucket_usable : Drive → ℕ → Result Bucket
bucket_usable d bucket_id =
    d.get_bucket bucket_id >>= λ bucket. if bucket.status == 1 then ok bucket else err forbidden
