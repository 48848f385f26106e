-- ===== src/Drive/Subtree.antt =====
-- server/recycle_bin.go: a folder in the recycle bin is purged with all that is below it. The loop
-- keeps a stack of folders; it runs on fuel, and `fuel_for_purge` is enough.
pub mod Ends
use orbit_cloud.Base.{
  ℕ, zero, suc, ◌+◌, ◌*◌, ◌≡◌, Bool, true, false, not, ◌&&◌, ◌||◌, Option, none, some, List, [],
  ◌∷◌, ◌++◌, ◌==◌, if◌then◌else◌, length, map,
}
use orbit_cloud.Base.Int.{pos}
use orbit_cloud.Storage.{ObjectStorage}
use orbit_cloud.Quota.{UserRow, at_id, return_user_used_space}
use orbit_cloud.Drive.{FileRow, FolderRow, kind_file, kind_folder, ShareLink, Drive, tables}
use orbit_cloud.Drive.Action.{World}
use orbit_cloud.Drive.Storing.{remove_file}
use orbit_cloud.Drive.Recycle.{without_shares, give_back, drop_object}

-- The children of a folder, deleted or not, as they are pushed: the newest on top.
unfoldable pub child_ids : ℕ → ℕ → List FolderRow → List ℕ
child_ids bucket_id parent_id [] = []
child_ids bucket_id parent_id (f ∷ rest) =
    let others = child_ids bucket_id parent_id rest in
    if f.bucket_id == bucket_id && f.parent_id == parent_id then f.id ∷ others else others

-- The files of a folder, deleted or not.
unfoldable pub files_in : ℕ → ℕ → List FileRow → List FileRow
files_in bucket_id folder_id [] = []
files_in bucket_id folder_id (f ∷ rest) =
    let others = files_in bucket_id folder_id rest in
    if f.bucket_id == bucket_id && f.folder_id == folder_id then f ∷ others else others

unfoldable pub total_size : List FileRow → ℕ
total_size [] = 0
total_size (f ∷ rest) = f.file_size + total_size rest

-- byUser
unfoldable pub total_of_user : ℕ → List FileRow → ℕ
total_of_user user_id [] = 0
total_of_user user_id (f ∷ rest) =
    let others = total_of_user user_id rest in
    if f.uploaded_by == user_id then f.file_size + others else others

-- id IN ?
unfoldable pub remove_files : List FileRow → List FileRow → List FileRow
unfolding remove_file
remove_files [] files = files
remove_files (f ∷ rest) files = remove_files rest (remove_file f.id files)

unfoldable pub without_file_shares : List FileRow → List ShareLink → List ShareLink
unfolding without_shares
without_file_shares [] shares = shares
without_file_shares (f ∷ rest) shares =
    without_file_shares rest (without_shares kind_file f.id shares)

unfoldable pub remove_folder : ℕ → List FolderRow → List FolderRow
remove_folder id [] = []
remove_folder id (f ∷ rest) =
    let kept = remove_folder id rest in if f.id == id then kept else f ∷ kept

-- The loop over `byUser`: each user's row is updated once, so the order does not matter.
unfoldable pub return_to_users : List FileRow → Drive → ℕ → Option UserRow
unfolding total_of_user return_user_used_space
return_to_users files d user_id =
    (return_user_used_space user_id (pos (total_of_user user_id files)) (tables d)).user user_id

-- The transaction for one folder, with the files that were read in it.
unfoldable pub forget_folder : ℕ → ℕ → List FileRow → Drive → Drive
unfolding remove_files without_file_shares without_shares remove_folder total_size return_to_users
forget_folder bucket_id folder_id files d = record d {
  files = remove_files files d.files;
  folders = remove_folder folder_id d.folders;
  shares = without_shares kind_folder folder_id (without_file_shares files d.shares);
  bucket_space = at_id bucket_id (give_back (total_size files)) d.bucket_space;
  user_space = return_to_users files d;
}

module _ {S : Type 0} (st : ObjectStorage S) where
  unfoldable pub drop_objects : ℕ → List FileRow → S → S
  drop_objects bucket_id [] s = s
  drop_objects bucket_id (f ∷ rest) s =
      drop_objects bucket_id rest (drop_object st bucket_id f.id s)

  -- The loop of `purgeRecycledFolderSubtree`; `none` is out of fuel.
  unfoldable pub purge_folders : ℕ → ℕ → List ℕ → World S → Option (World S)
  unfolding child_ids files_in drop_objects forget_folder
  purge_folders zero bucket_id stack w = none
  purge_folders (suc fuel) bucket_id [] w = some w
  purge_folders (suc fuel) bucket_id (id ∷ stack) w =
      let files = files_in bucket_id id w.drive.files in
      purge_folders fuel bucket_id (child_ids bucket_id id w.drive.folders ++ stack) (record {
        storage = drop_objects bucket_id files w.storage;
        drive = forget_folder bucket_id id files w.drive;
      })

-- Rounds for a number of folders: a folder that is there can push as many as there are, and one that
-- is gone too, once before the next that is there.
unfoldable pub rounds : ℕ → ℕ
rounds zero = 0
rounds (suc n) = rounds n + (n + n + 4)

unfoldable pub fuel_for_purge : List FolderRow → ℕ
unfolding rounds
fuel_for_purge folders = suc (rounds (length folders) + 1)

-- `purgeRecycledFolderSubtree`
unfoldable pub purge_recycled_folder_subtree :
    {S : Type 0} → ObjectStorage S → ℕ → ℕ → World S → Option (World S)
unfolding purge_folders fuel_for_purge
purge_recycled_folder_subtree st bucket_id folder_id w =
    purge_folders st (fuel_for_purge w.drive.folders) bucket_id (folder_id ∷ []) w
