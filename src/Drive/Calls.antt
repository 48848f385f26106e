-- ===== src/Drive/Calls.antt =====
-- The requests on files and folders, one after the other, at the level of server/: `to_lower` and
-- `equal_fold` stand for strings.ToLower and strings.EqualFold.
use orbit_cloud.Base.{ℕ, Bool, Option, none, some, List, [], ◌∷◌}
use orbit_cloud.Storage.{ObjectStorage}
use orbit_cloud.Drive.Action.{World, Action}
use orbit_cloud.Drive.Upload.{UploadFileArg, CreateDirArg, upload_file, create_dir}
use orbit_cloud.Drive.Copy.{CopyFileArg, copy_file_inner}
use orbit_cloud.Drive.Move.{MoveArg, move_folder}
use orbit_cloud.Drive.Across.{move_file, resume_copy_tasks}
use orbit_cloud.Drive.Subtree.{purge_recycled_folder_subtree}
use orbit_cloud.Drive.Recycle.{delete_file, restore_recycled_file, delete_recycled_file}

pub data Request : Type 0 where
  upload : UploadFileArg → Request
  make_dir : CreateDirArg → Request
  copy : CopyFileArg → Bool → Request
  move_a_file : ℕ → MoveArg → Request
  move_a_folder : MoveArg → Request
  delete_a_file : ℕ → ℕ → ℕ → Request
  restore_a_file purge_a_file : ℕ → Request
  purge_a_folder : ℕ → ℕ → Request
  resume_copies : ℕ → Request

-- What a loop leaves, where its rounds are enough.
abbrev pub left_or : {S : Type 0} → World S → Option (World S) → World S
left_or w none = w
left_or w (some left) = left

-- What is there when the request has been answered, with or without success.
abbrev pub answered : {S A : Type 0} → Action S A → World S → World S
answered m w = (m w).1

module _ {S : Type 0} (st : ObjectStorage S) (to_lower : List ℕ → List ℕ)
    (equal_fold : List ℕ → List ℕ → Bool) where
  unfoldable pub perform : Request → World S → World S
  unfolding upload_file create_dir copy_file_inner move_file move_folder delete_file
      restore_recycled_file delete_recycled_file purge_recycled_folder_subtree resume_copy_tasks
  perform (upload arg) w = answered (upload_file to_lower st arg) w
  perform (make_dir arg) w = answered (create_dir to_lower arg) w
  perform (copy arg auto_rename) w = answered (copy_file_inner to_lower st arg auto_rename) w
  perform (move_a_file now arg) w = answered (move_file st to_lower now equal_fold arg) w
  perform (move_a_folder arg) w = answered (move_folder to_lower equal_fold arg) w
  perform (delete_a_file now bucket_id file_id) w = answered (delete_file now bucket_id file_id) w
  perform (restore_a_file file_id) w = answered (restore_recycled_file to_lower file_id) w
  perform (purge_a_file file_id) w = answered (delete_recycled_file st file_id) w
  perform (purge_a_folder bucket_id folder_id) w =
      left_or w (purge_recycled_folder_subtree st bucket_id folder_id w)
  perform (resume_copies now) w = answered (resume_copy_tasks st to_lower now) w

  unfoldable pub run : List Request → World S → World S
  unfolding perform
  run [] w = w
  run (request ∷ requests) w = run requests (perform request w)
