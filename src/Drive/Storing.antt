-- ===== src/Drive/Storing.antt =====
-- The end that `UploadFile` (server/file_upload.go) and `copyFileInner` (server/file_copy_move.go)
-- share: the row, the object under its id, and the booking of the size; the row is deleted again
-- where the object is not stored.
use orbit_cloud.Base.{ℕ, ◌+◌, none, some, List, [], ◌∷◌, ◌==◌, if◌then◌else◌}
use orbit_cloud.Base.Errors.{Error, ok, err, conflict, internal, not_found}
use orbit_cloud.Base.Int.{pos, ◌+ℤ◌}
use orbit_cloud.BucketCoder.{bucket_encoder}
use orbit_cloud.Storage.{ObjectStorage, Fetched, found, missing, failed}
use orbit_cloud.Access.{VisibleToGroups}
use orbit_cloud.Quota.{at_id, add_user_used_space}
use orbit_cloud.Drive.{FileRow, Drive, tables, object_key_for_file}
use orbit_cloud.Drive.Naming.{file_named}
use orbit_cloud.Drive.Action.{Action}

-- What is known of a file before it has an id.
pub record NewFile : Type 0 where
  pub bucket_id : ℕ
  pub folder_id : ℕ
  pub name : List ℕ
  pub file_size : ℕ
  pub uploaded_by : ℕ
  pub visible_to_groups : VisibleToGroups

abbrev pub row_of : ℕ → NewFile → FileRow
row_of id f = record {
  id = id;
  bucket_id = f.bucket_id;
  folder_id = f.folder_id;
  name = f.name;
  file_size = f.file_size;
  uploaded_by = f.uploaded_by;
  visible_to_groups = f.visible_to_groups;
  deleted_at = none;
}

-- The insertion of a row with the next id.
abbrev pub with_file : NewFile → Drive → Drive
with_file f d = record d {
  files = row_of d.next_file_id f ∷ d.files;
  next_file_id = d.next_file_id + 1;
}

-- The hard deletion of a row.
unfoldable pub remove_file : ℕ → List FileRow → List FileRow
remove_file id [] = []
remove_file id (f ∷ rest) = let kept = remove_file id rest in if f.id == id then kept else f ∷ kept

-- used_space + size, of the bucket and of the user
unfoldable pub book : ℕ → ℕ → ℕ → Drive → Drive
unfolding add_user_used_space
book bucket_id user_id size d = record d {
  bucket_space =
      at_id bucket_id (λ b. record b { used_space = b.used_space +ℤ pos size }) d.bucket_space;
  user_space = (add_user_used_space user_id (pos size) (tables d)).user;
}

-- Where the object is not stored the row is deleted again; its id is not given a second time.
abbrev pub without_row : ℕ → Drive → Drive
without_row id d = record d { files = remove_file id d.files }

-- The insertion of the row, behind the unique index on the names of a folder, which reads the rows
-- that are not deleted. A second attempt at the same table finds the same name: a conflict too.
unfoldable pub create_row : {S : Type 0} → (List ℕ → List ℕ) → NewFile → Action S FileRow
unfolding file_named
create_row to_lower f w =
    if file_named to_lower f.bucket_id f.folder_id (to_lower f.name) w.drive.files
    then (err conflict, w)
    else (ok (row_of w.drive.next_file_id f), record w { drive = with_file f w.drive })

-- The row without an object is deleted again.
unfoldable pub take_back : {S A : Type 0} → ℕ → Error → Action S A
unfolding remove_file
take_back id e w = (err e, record w { drive = without_row id w.drive })

module _ {S : Type 0} (st : ObjectStorage S) where
  -- The object, then the booking.
  unfoldable pub put_and_book : FileRow → List ℕ → Action S FileRow
  unfolding book take_back
  put_and_book f bytes w =
      elim (st.put w.storage (bucket_encoder f.bucket_id) (object_key_for_file f.id) bytes) [
        | none ↦ take_back f.id internal w
        | some s ↦ (
          ok f,
          record { storage = s; drive = book f.bucket_id f.uploaded_by f.file_size w.drive },
        )
      ]

  -- What was read of another object, stored under the new row.
  unfoldable pub put_fetched : FileRow → Fetched → Action S FileRow
  unfolding put_and_book take_back
  put_fetched f (found bytes) = put_and_book f bytes
  put_fetched f missing = take_back f.id not_found
  put_fetched f failed = take_back f.id internal

  -- The object of another file, read and stored under the new row.
  unfoldable pub copy_and_book : FileRow → FileRow → Action S FileRow
  unfolding put_fetched
  copy_and_book src f w =
      put_fetched f (st.get w.storage (bucket_encoder src.bucket_id) (object_key_for_file src.id)) w
