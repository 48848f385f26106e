-- ===== src/Drive/Keeping/Requests.antt =====
-- A request keeps what each change of the tables keeps.
use orbit_cloud.Base.{ℕ, Bool, List, [], ◌∷◌}
use orbit_cloud.Storage.{ObjectStorage}
use orbit_cloud.Drive.{Drive}
use orbit_cloud.Drive.Action.{World}
use orbit_cloud.Drive.Calls.{
  Request, upload, make_dir, copy, move_a_file, move_a_folder, delete_a_file, restore_a_file,
  purge_a_file, resume_copies, purge_a_folder, perform, run,
}
use orbit_cloud.Drive.Keeping.{IsClosed}
use orbit_cloud.Drive.Keeping.Handlers.{
  purge_recycled_folder_subtree-keeps, upload_file-Keeps, create_dir-Keeps, copy_file_inner-Keeps,
  move_folder-Keeps, delete_file-Keeps, restore_recycled_file-Keeps, delete_recycled_file-Keeps,
}
use orbit_cloud.Drive.Keeping.Across.{resume_copy_tasks-Keeps, move_file-Keeps}

module _ {S : Type 0} (st : ObjectStorage S) (to_lower : List ℕ → List ℕ) (P : Drive → Type 0)
    (closed : IsClosed st to_lower P) where
  module _ (equal_fold : List ℕ → List ℕ → Bool) where
    perform-keeps :
        (request : Request) (w : World S)
        → P w.drive
        → P (perform st to_lower equal_fold request w).drive
    unfolding perform
    perform-keeps (upload arg) w p = (upload_file-Keeps st to_lower P closed arg).kept w p
    perform-keeps (make_dir arg) w p = (create_dir-Keeps st to_lower P closed arg).kept w p
    perform-keeps (copy arg auto_rename) w p =
        (copy_file_inner-Keeps st to_lower P closed arg auto_rename).kept w p
    perform-keeps (move_a_file now arg) w p =
        (move_file-Keeps st to_lower P closed equal_fold now arg).kept w p
    perform-keeps (move_a_folder arg) w p =
        (move_folder-Keeps st to_lower P closed equal_fold arg).kept w p
    perform-keeps (delete_a_file now bucket_id file_id) w p =
        (delete_file-Keeps st to_lower P closed now bucket_id file_id).kept w p
    perform-keeps (restore_a_file file_id) w p =
        (restore_recycled_file-Keeps st to_lower P closed file_id).kept w p
    perform-keeps (purge_a_file file_id) w p =
        (delete_recycled_file-Keeps st to_lower P closed file_id).kept w p
    perform-keeps (purge_a_folder bucket_id folder_id) w p =
        purge_recycled_folder_subtree-keeps st to_lower P closed bucket_id folder_id w p
    perform-keeps (resume_copies now) w p =
        (resume_copy_tasks-Keeps st to_lower P closed now).kept w p

    -- What every change keeps is kept through any requests.
    pub run-keeps :
        (requests : List Request) (w : World S)
        → P w.drive
        → P (run st to_lower equal_fold requests w).drive
    unfolding run
    run-keeps [] w p = p
    run-keeps (request ∷ requests) w p =
        run-keeps requests (perform st to_lower equal_fold request w) (perform-keeps request w p)
