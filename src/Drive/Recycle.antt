-- ===== src/Drive/Recycle.antt =====
-- server/file_delete.go and server/recycle_bin.go: files go to the recycle bin, come back from it,
-- and leave it for good. Times are natural numbers.
use orbit_cloud.Base.{
  ℕ, Bool, true, false, ◌&&◌, Option, none, some, List, [], ◌∷◌, ◌==◌, if◌then◌else◌,
}
use orbit_cloud.Base.Errors.{ok, err}
use orbit_cloud.Base.Int.{pos}
use orbit_cloud.BucketCoder.{bucket_encoder}
use orbit_cloud.Storage.{ObjectStorage}
use orbit_cloud.Quota.{BucketRow, at_id, clamped, negated, return_user_used_space}
use orbit_cloud.Drive.{
  FileRow, ItemKind, kind_file, kind_folder, ShareLink, Drive, tables, load_file, load_folder_row,
  get_recycled_file, object_key_for_file,
}
use orbit_cloud.Drive.Action.{World, Action, ◌>>=◌, ◌>>◌, asks, on_drive}
use orbit_cloud.Drive.Storing.{remove_file}
use orbit_cloud.Drive.Copy.{usable_file}
use orbit_cloud.Drive.Move.{update_file, place_file, free_name}

abbrev pub set_deleted_at : Option ℕ → FileRow → FileRow
set_deleted_at at f = record f { deleted_at = at }

abbrev pub same_kind : ItemKind → ItemKind → Bool
same_kind kind_file kind_file = true
same_kind kind_file kind_folder = false
same_kind kind_folder kind_file = false
same_kind kind_folder kind_folder = true

-- The deletion of the shares of an item.
unfoldable pub without_shares : ItemKind → ℕ → List ShareLink → List ShareLink
without_shares kind id [] = []
without_shares kind id (s ∷ rest) =
    let kept = without_shares kind id rest in
    if s.bucket_item_id == id && same_kind s.item_type kind then kept else s ∷ kept

-- The transaction of `DeleteFile`.
unfoldable pub recycle : ℕ → ℕ → Drive → Drive
unfolding update_file without_shares
recycle now file_id d = record d {
  files = update_file file_id (set_deleted_at (some now)) d.files;
  shares = without_shares kind_file file_id d.shares;
}

-- `DeleteFile`
unfoldable pub delete_file : {S : Type 0} → ℕ → ℕ → ℕ → Action S (Unit {0})
unfolding usable_file recycle
delete_file now bucket_id file_id = do
  usable_file bucket_id file_id
  on_drive (λ d. (ok tt, recycle now file_id d))

-- Where a file comes back to: its folder, or the root where that is not there.
unfoldable pub folder_to_restore : FileRow → Drive → ℕ
unfolding load_folder_row
folder_to_restore f d =
    if f.folder_id == 0
    then 0
    else elim (load_folder_row d f.bucket_id f.folder_id) [ err e ↦ 0 | ok folder ↦ f.folder_id ]

-- `RestoreRecycledFile`
unfoldable pub restore_recycled_file : {S : Type 0} → (List ℕ → List ℕ) → ℕ → Action S FileRow
unfolding folder_to_restore free_name update_file get_recycled_file load_file
restore_recycled_file to_lower file_id = do
  f ← asks (λ d. get_recycled_file d file_id)
  folder_id ← asks (λ d. ok (folder_to_restore f d))
  name ← asks (free_name to_lower f.bucket_id folder_id f.name)
  on_drive (λ d. (
    ok tt,
    record d {
      files = update_file f.id (λ g. place_file folder_id name (set_deleted_at none g)) d.files;
    },
  ))
  asks (λ d. load_file d f.bucket_id f.id)

-- The space of a bucket given back, not below 0.
abbrev pub give_back : ℕ → BucketRow → BucketRow
give_back size b = record b { used_space = clamped b.used_space (negated (pos size)) }

-- The transaction of `purgeRecycledFile`.
unfoldable pub forget : FileRow → Drive → Drive
unfolding remove_file without_shares return_user_used_space
forget f d = record d {
  files = remove_file f.id d.files;
  shares = without_shares kind_file f.id d.shares;
  bucket_space = at_id f.bucket_id (give_back f.file_size) d.bucket_space;
  user_space = (return_user_used_space f.uploaded_by (pos f.file_size) (tables d)).user;
}

module _ {S : Type 0} (st : ObjectStorage S) where
  -- The deletion of an object; an error of it is only logged.
  abbrev pub drop_object : ℕ → ℕ → S → S
  drop_object bucket_id file_id s =
      elim (st.delete s (bucket_encoder bucket_id) (object_key_for_file file_id)) [
        | none ↦ s
        | some t ↦ t
      ]

  -- `purgeRecycledFile`
  unfoldable pub purge_recycled_file : FileRow → World S → World S
  unfolding forget
  purge_recycled_file f w = record {
    storage = drop_object f.bucket_id f.id w.storage;
    drive = forget f w.drive;
  }

  -- `DeleteRecycledFile`
  unfoldable pub delete_recycled_file : ℕ → Action S (Unit {0})
  unfolding purge_recycled_file get_recycled_file
  delete_recycled_file file_id =
      asks (λ d. get_recycled_file d file_id) >>= λ f w. (ok tt, purge_recycled_file f w)
