-- ===== src/Drive/Keeping/Chains.antt =====
-- The chains of checks change the tables only where `ResolveDirPath` makes folders.
use orbit_cloud.Base.{ℕ, ◌≡◌, zero, suc, List}
use orbit_cloud.Drive.{FolderRow, Drive}
use orbit_cloud.Drive.Action.{on_drive, Keeps, Keeps-bind, Keeps-pure, Keeps-asks, Keeps-on_drive}
use orbit_cloud.Drive.Resolve.{with_folder, resolve_dir_path}
use orbit_cloud.Drive.Resolve.Keeping.{resolve_dir_path-keeps}
use orbit_cloud.Drive.Upload.{open_folder, check_quotas}
use orbit_cloud.Drive.Copy.{usable_file, check_target, target_folder, given_or_at}

module _ {S : Type 0} (P : Drive → Type 0) where
  pub usable_file-Keeps : (bucket_id file_id : ℕ) → Keeps {S = S} P (usable_file bucket_id file_id)
  unfolding usable_file
  usable_file-Keeps bucket_id file_id = search (Keeps-bind P, Keeps-asks P, Keeps-pure P)

  check_target-Keeps :
      (user_id bucket_id folder_id : ℕ) → Keeps {S = S} P (check_target user_id bucket_id folder_id)
  unfolding check_target
  check_target-Keeps user_id bucket_id folder_id = search (Keeps-bind P, Keeps-asks P)

  pub check_quotas-Keeps :
      (user_id bucket_id size : ℕ) → Keeps {S = S} P (check_quotas user_id bucket_id size)
  unfolding check_quotas
  check_quotas-Keeps user_id bucket_id size = search (Keeps-bind P, Keeps-asks P)

  module _ (to_lower : List ℕ → List ℕ)
      (grows : (f : FolderRow) (d : Drive)
        → f.id ≡ d.next_folder_id
        → P d
        → P (with_folder f d)) where
    resolve-Keeps :
        (user_id bucket_id : ℕ) (dir : List ℕ)
        → Keeps {S = S} P (on_drive (resolve_dir_path to_lower user_id bucket_id dir))
    resolve-Keeps user_id bucket_id dir =
        Keeps-on_drive P _ (resolve_dir_path-keeps to_lower P grows user_id bucket_id dir)

    pub open_folder-Keeps :
        (user_id bucket_id : ℕ) (dir : List ℕ)
        → Keeps {S = S} P (open_folder to_lower user_id bucket_id dir)
    unfolding open_folder
    open_folder-Keeps user_id bucket_id dir =
        search (Keeps-bind P, Keeps-asks P, Keeps-pure P, resolve-Keeps)

    pub target_folder-Keeps :
        (user_id bucket_id : ℕ) (dir : List ℕ)
        → Keeps {S = S} P (target_folder to_lower user_id bucket_id dir)
    unfolding target_folder
    target_folder-Keeps user_id bucket_id dir =
        search (Keeps-bind P, check_target-Keeps, Keeps-pure P, resolve-Keeps)

    pub given_or_at-Keeps :
        (given user_id bucket_id : ℕ) (dir : List ℕ)
        → Keeps {S = S} P (given_or_at to_lower given user_id bucket_id dir)
    unfolding given_or_at
    given_or_at-Keeps zero user_id bucket_id dir = target_folder-Keeps user_id bucket_id dir
    given_or_at-Keeps (suc k) user_id bucket_id dir =
        Keeps-bind P (check_target-Keeps user_id bucket_id (suc k)) (λ done. Keeps-pure P _)
