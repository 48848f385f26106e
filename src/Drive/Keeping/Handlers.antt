-- ===== src/Drive/Keeping/Handlers.antt =====
-- The handlers of files and folders keep what each change of the tables keeps.
use orbit_cloud.Base.{ℕ, inl, inr, Bool, List, Bool-cases, refl, zero, suc, ◌++◌, ◌∷◌, []}
use orbit_cloud.Base.Errors.{Result-cases}
use orbit_cloud.Storage.{ObjectStorage}
use orbit_cloud.Drive.{FileRow, FolderRow, Drive, get_recycled_file}
use orbit_cloud.Drive.Action.{
  ◌>>=◌, asks, Keeps, Keeps-bind, Keeps-pure, Keeps-lift, Keeps-asks, Keeps-on_drive,
  Keeps-refuse_if, World,
}
use orbit_cloud.Drive.Naming.{name_exists}
use orbit_cloud.Drive.Resolve.{folder_at}
use orbit_cloud.Drive.Upload.{UploadFileArg, CreateDirArg, upload_file, reuse_or_make, create_dir}
use orbit_cloud.Drive.Copy.{CopyFileArg, copy_file_inner}
use orbit_cloud.Drive.Move.{
  MoveArg, place_folder_in, place_file_in, move_file_same_bucket, move_folder_same_bucket,
  move_folder,
}
use orbit_cloud.Drive.Recycle.{
  delete_file, restore_recycled_file, delete_recycled_file, purge_recycled_file,
}
use orbit_cloud.Drive.Calls.{left_or}
use orbit_cloud.Drive.Subtree.{
  child_ids, purge_folders, fuel_for_purge, purge_recycled_folder_subtree,
}
use orbit_cloud.Drive.Keeping.{IsClosed}
use orbit_cloud.Drive.Keeping.Chains.{
  usable_file-Keeps, check_quotas-Keeps, open_folder-Keeps, target_folder-Keeps, given_or_at-Keeps,
}

module _ {S : Type 0} (st : ObjectStorage S) (to_lower : List ℕ → List ℕ) (P : Drive → Type 0)
    (closed : IsClosed st to_lower P) where
  pub upload_file-Keeps : (arg : UploadFileArg) → Keeps P (upload_file to_lower st arg)
  unfolding upload_file
  upload_file-Keeps arg =
      search
        (
          Keeps-bind P,
          Keeps-asks P,
          Keeps-lift P,
          Keeps-refuse_if P,
          check_quotas-Keeps P,
          open_folder-Keeps P to_lower closed.new_folder,
          closed.stored,
        )
        depth 12

  reuse_or_make-Keeps :
      (user_id bucket_id parent_id : ℕ) (name : List ℕ)
      → Keeps {S = S} P (reuse_or_make to_lower user_id bucket_id parent_id name)
  unfolding reuse_or_make
  reuse_or_make-Keeps user_id bucket_id parent_id name = record {
    kept = λ w p. elim (Result-cases (folder_at to_lower w.drive bucket_id parent_id name)) [
      | inl (f, e) ↦ rw (e, reuse_or_make) p
      | inr (failure, e) ↦
          elim (Bool-cases (name_exists to_lower w.drive bucket_id parent_id name)) [
            | inl b ↦ rw (e, b, reuse_or_make) p
            | inr b ↦ rw (e, b, reuse_or_make) (closed.new_folder _ w.drive refl p)
          ]
    ];
  }

  pub create_dir-Keeps : (arg : CreateDirArg) → Keeps {S = S} P (create_dir to_lower arg)
  unfolding create_dir
  create_dir-Keeps arg =
      search
        (
          Keeps-bind P,
          Keeps-asks P,
          Keeps-lift P,
          Keeps-refuse_if P,
          open_folder-Keeps P to_lower closed.new_folder,
          reuse_or_make-Keeps,
        )
        depth 12

  pub copy_file_inner-Keeps :
      (arg : CopyFileArg) (auto_rename : Bool)
      → Keeps P (copy_file_inner to_lower st arg auto_rename)
  unfolding copy_file_inner
  copy_file_inner-Keeps arg auto_rename =
      search
        (
          Keeps-bind P,
          Keeps-asks P,
          Keeps-lift P,
          usable_file-Keeps P,
          check_quotas-Keeps P,
          given_or_at-Keeps P to_lower closed.new_folder,
          closed.copied,
        )
        depth 12

  place_file_in-Keeps :
      (file : FileRow) (folder_id : ℕ) (name : List ℕ)
      → Keeps {S = S} P (place_file_in file folder_id name)
  unfolding place_file_in
  place_file_in-Keeps file folder_id name =
      Keeps-bind P (Keeps-on_drive P _ (closed.placed_file file.id folder_id name))
        (λ done. Keeps-pure P _)

  place_folder_in-Keeps :
      (bucket_id : ℕ) (folder : FolderRow) (parent_id : ℕ) (name : List ℕ)
      → Keeps {S = S} P (place_folder_in bucket_id folder parent_id name)
  unfolding place_folder_in
  place_folder_in-Keeps bucket_id folder parent_id name = Keeps-bind P (Keeps-asks P _) (λ passed.
      Keeps-bind P (Keeps-on_drive P _ (closed.placed_folder folder.id parent_id name))
        (λ done. Keeps-pure P _))

  module _ (equal_fold : List ℕ → List ℕ → Bool) where
    pub move_file_same_bucket-Keeps :
        (user_id bucket_id : ℕ) (file : FileRow) (dir name : List ℕ)
        → Keeps {S = S} P
            (move_file_same_bucket to_lower equal_fold user_id bucket_id file dir name)
    unfolding move_file_same_bucket
    move_file_same_bucket-Keeps user_id bucket_id file dir name =
        search
          (
            Keeps-bind P,
            Keeps-asks P,
            Keeps-refuse_if P,
            target_folder-Keeps P to_lower closed.new_folder,
            place_file_in-Keeps,
          )
          depth 12

    pub move_folder-Keeps : (arg : MoveArg) → Keeps {S = S} P (move_folder to_lower equal_fold arg)
    unfolding move_folder move_folder_same_bucket
    move_folder-Keeps arg =
        search
          (
            Keeps-bind P,
            Keeps-asks P,
            Keeps-lift P,
            Keeps-refuse_if P,
            target_folder-Keeps P to_lower closed.new_folder,
            place_folder_in-Keeps,
          )
          depth 14

  pub delete_file-Keeps :
      (now bucket_id file_id : ℕ) → Keeps {S = S} P (delete_file now bucket_id file_id)
  unfolding delete_file
  delete_file-Keeps now bucket_id file_id =
      Keeps-bind P (usable_file-Keeps P bucket_id file_id)
        (λ f. Keeps-on_drive P _ (closed.recycled now file_id))

  pub restore_recycled_file-Keeps :
      (file_id : ℕ) → Keeps {S = S} P (restore_recycled_file to_lower file_id)
  unfolding restore_recycled_file
  restore_recycled_file-Keeps file_id = Keeps-bind P (Keeps-asks P _) (λ f.
      Keeps-bind P (Keeps-asks P _) (λ folder_id. Keeps-bind P (Keeps-asks P _) (λ name.
        Keeps-bind P (Keeps-on_drive P _ (closed.restored f.id folder_id name))
          (λ done. Keeps-asks P _))))

  pub delete_recycled_file-Keeps : (file_id : ℕ) → Keeps P (delete_recycled_file st file_id)
  unfolding delete_recycled_file ◌>>=◌ asks purge_recycled_file
  delete_recycled_file-Keeps file_id = record {
    kept = λ w p. elim (Result-cases (get_recycled_file w.drive file_id)) [
      | inr (failure, e) ↦ rw (e, delete_recycled_file) p
      | inl (f, e) ↦ rw (e, delete_recycled_file) (closed.forgotten file_id f w.drive e p)
    ];
  }

  purge_folders-keeps :
      (fuel bucket_id : ℕ) (stack : List ℕ) (w before : World S)
      → P before.drive
      → P w.drive
      → P (left_or before (purge_folders st fuel bucket_id stack w)).drive
  unfolding purge_folders
  purge_folders-keeps zero bucket_id stack w before q p = q
  purge_folders-keeps (suc fuel) bucket_id [] w before q p = p
  purge_folders-keeps (suc fuel) bucket_id (id ∷ stack) w before q p =
      purge_folders-keeps fuel bucket_id (child_ids bucket_id id w.drive.folders ++ stack) _ before
        q (closed.purged bucket_id id w.drive p)

  pub purge_recycled_folder_subtree-keeps :
      (bucket_id folder_id : ℕ) (w : World S)
      → P w.drive
      → P (left_or w (purge_recycled_folder_subtree st bucket_id folder_id w)).drive
  unfolding purge_recycled_folder_subtree
  purge_recycled_folder_subtree-keeps bucket_id folder_id w p =
      purge_folders-keeps (fuel_for_purge w.drive.folders) bucket_id (folder_id ∷ []) w w p p
