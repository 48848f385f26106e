-- ===== src/Drive/Keeping.antt =====
-- What each change of the tables has to keep, for a request to keep it.
pub mod Chains
mod Handlers
mod Across
pub mod Requests
use orbit_cloud.Base.{ℕ, ◌≡◌, Option, none, some, List}
use orbit_cloud.Base.Errors.{ok}
use orbit_cloud.Storage.{ObjectStorage}
use orbit_cloud.Drive.{FileRow, FolderRow, CopyTask, Drive, get_recycled_file}
use orbit_cloud.Drive.Action.{World, Action, ◌>>=◌, Keeps}
use orbit_cloud.Drive.Resolve.{with_folder}
use orbit_cloud.Drive.Storing.{NewFile, create_row, put_and_book, copy_and_book}
use orbit_cloud.Drive.Move.{update_file, update_folder, place_file, place_folder}
use orbit_cloud.Drive.Subtree.{files_in, forget_folder}
use orbit_cloud.Drive.Recycle.{recycle, forget, set_deleted_at}

pub record IsClosed {S : Type 0} (st : ObjectStorage S) (to_lower : List ℕ → List ℕ)
    (P : Drive → Type 0) : Type 0 where
  pub new_folder : (f : FolderRow) (d : Drive) → f.id ≡ d.next_folder_id → P d → P (with_folder f d)
  pub stored :
      (f : NewFile) (bytes : List ℕ)
      → Keeps {S = S} P (create_row to_lower f >>= λ g. put_and_book st g bytes)
  pub copied :
      (src : FileRow) (f : NewFile)
      → Keeps {S = S} P (create_row to_lower f >>= λ g. copy_and_book st src g)
  pub placed_file :
      (id folder_id : ℕ) (name : List ℕ) (d : Drive)
      → P d
      → P (record d { files = update_file id (place_file folder_id name) d.files })
  pub placed_folder :
      (id parent_id : ℕ) (name : List ℕ) (d : Drive)
      → P d
      → P (record d { folders = update_folder id (place_folder parent_id name) d.folders })
  pub tasks :
      (tasks : List CopyTask) (next : ℕ) (d : Drive)
      → P d
      → P (record d { copy_tasks = tasks; next_task_id = next })
  pub recycled : (now id : ℕ) (d : Drive) → P d → P (recycle now id d)
  pub restored :
      (id folder_id : ℕ) (name : List ℕ) (d : Drive)
      → P d
      → P (record d {
        files = update_file id (λ g. place_file folder_id name (set_deleted_at none g)) d.files;
      })
  pub purged :
      (bucket_id folder_id : ℕ) (d : Drive)
      → P d
      → P (forget_folder bucket_id folder_id (files_in bucket_id folder_id d.files) d)
  pub forgotten :
      (id : ℕ) (f : FileRow) (d : Drive) → get_recycled_file d id ≡ ok f → P d → P (forget f d)
