-- ===== src/Access.antt =====
-- model/enter.go, model/file.go, model/folder.go, server/file.go, server/user.go and
-- server/user_group.go: users, buckets, files and folders, and how the permission checks load
-- them. The children are the checks: server/visibility.go, api/perm.go and
-- smb_server/go/session.go.
mod Mem
pub mod Walk
pub mod Rule
pub mod Http
pub mod Smb
mod Tests
use orbit_cloud.Base.{
  ℕ, ◌≡◌, Bool, true, false, ◌&&◌, ◌||◌, Option, none, some, List, [], ◌∷◌, ◌==◌, leb,
  if◌then◌else◌,
}
use orbit_cloud.Base.Errors.{Result, ok, err, not_found, forbidden, ◌>>=◌}

-- The column `visible_to_groups`, a text, by what `strings.TrimSpace` and `json.Unmarshal` make
-- of it: blank, no JSON array of numbers, or such an array.
pub data VisibleToGroups : Type 0 where
  blank : VisibleToGroups
  malformed : VisibleToGroups
  listed : List ℕ → VisibleToGroups

-- `Isable` of a folder.
pub data Isable : Type 0 where
  folder_unusable folder_usable folder_deleting : Isable

pub record User : Type 0 where
  pub id : ℕ
  pub permission_level : ℕ
  pub status : ℕ

pub record Bucket : Type 0 where
  pub id : ℕ
  pub permission_level : ℕ
  pub manage_permission_level : ℕ
  pub owner_id : ℕ
  pub status : ℕ

pub record Folder : Type 0 where
  pub id : ℕ
  pub bucket_id : ℕ
  pub parent_id : ℕ
  pub isable : Isable
  pub visible_to_groups : VisibleToGroups
  pub uploaded_by : ℕ

pub record File : Type 0 where
  pub id : ℕ
  pub bucket_id : ℕ
  pub folder_id : ℕ
  pub visible_to_groups : VisibleToGroups
  pub uploaded_by : ℕ

-- The rows that are not deleted. The first rows of users and buckets, and the groups of a user,
-- are queries: a row, `not_found`, or the error of the query.
pub record Database : Type 0 where
  pub folders : List Folder
  pub files : List File
  pub get_user : ℕ → Result User
  pub get_bucket : ℕ → Result Bucket
  pub user_group_ids : ℕ → Result (List ℕ)

-- `IsAdmin`
abbrev pub is_admin : ℕ → Bool
is_admin level = leb level 1

-- seen[id], and the other maps into bool
unfoldable pub mem : ℕ → List ℕ → Bool
mem x [] = false
mem x (y ∷ ys) = x == y || mem x ys

-- `loadFolder`
unfoldable pub load_folder : List Folder → ℕ → ℕ → Result Folder
load_folder [] bucket_id folder_id = err not_found
load_folder (f ∷ rest) bucket_id folder_id =
    if f.id == folder_id && f.bucket_id == bucket_id
    then ok f
    else load_folder rest bucket_id folder_id

-- `loadFile`
unfoldable pub load_file : List File → ℕ → ℕ → Result File
load_file [] bucket_id file_id = err not_found
load_file (f ∷ rest) bucket_id file_id =
    if f.id == file_id && f.bucket_id == bucket_id then ok f else load_file rest bucket_id file_id

-- `CheckBucketUsable`
unfoldable pub check_bucket_usable : Database → ℕ → Result Bucket
check_bucket_usable db bucket_id =
    db.get_bucket bucket_id >>= λ bucket. if bucket.status == 1 then ok bucket else err forbidden
