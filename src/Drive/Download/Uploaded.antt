-- ===== src/Drive/Download/Uploaded.antt =====
-- What is uploaded is what a download gives.
use orbit_cloud.Names.{normalize_dir_path, validate_item_name, trim_space}
use orbit_cloud.Base.{
  ℕ, ◌≡◌, refl, sym, ap, ◌∙◌, ◌⊎◌, inl, inr, true, some, List, ◌==◌, length, Bool-cases,
  Option-cases, arith,
}
use orbit_cloud.Base.Errors.{ok, err, internal, ok-injective, invalid_input}
use orbit_cloud.BucketCoder.{bucket_encoder}
use orbit_cloud.Storage.{ObjectStorage}
use orbit_cloud.Drive.{
  FileRow, find_file, load_file, bucket_usable, ancestors_usable, object_key_for_file,
}
use orbit_cloud.Access.{Bucket}
use orbit_cloud.Drive.Action.{World, ◌>>=◌, lift, asks, refuse_if, bind-ok}
use orbit_cloud.Drive.Naming.{file_named, unique_name}
use orbit_cloud.Drive.Storing.{
  NewFile, row_of, book, with_file, create_row, put_and_book, take_back,
}
use orbit_cloud.Drive.Upload.{
  UploadFileArg, bytes_of, upload_file, read_all, is_missing, open_folder, check_quotas,
}
use orbit_cloud.Drive.Download.{check_file_download, download_file}

module _ {S : Type 0} (st : ObjectStorage S) where
  -- The row is there, and its object.
  abbrev pub IsStored : FileRow → List ℕ → World S → Type 0
  IsStored f bytes w =
      (load_file w.drive f.bucket_id f.id ≡ ok f)
      × (st.object w.storage (bucket_encoder f.bucket_id) (object_key_for_file f.id) ≡ some bytes)

  put_and_book-IsStored :
      (new : NewFile) (bytes : List ℕ) (w after : World S) (f : FileRow)
      → put_and_book st
          (row_of w.drive.next_file_id new)
          bytes
          (record w { drive = with_file new w.drive })
        ≡ (ok f, after)
      → IsStored f bytes after
  unfolding put_and_book take_back load_file find_file
  put_and_book-IsStored new bytes w after f e =
      let row = row_of w.drive.next_file_id new in
      elim (Option-cases
        (st.put w.storage (bucket_encoder row.bucket_id) (object_key_for_file row.id) bytes)) [
          | inl n ↦ ground (arith, e, n)
          | inr (s, p) ↦
              let size = new.file_size in
              let booked : World S = record {
                storage = s;
                drive = book row.bucket_id row.uploaded_by size (with_file new w.drive);
              } in
              let made : put_and_book st row bytes (record w { drive = with_file new w.drive })
                  ≡ (ok row, booked) =
                rw (p, put_and_book) refl in
              let same = sym made ∙ e in
              let row_is : row ≡ f = ok-injective (ap (λ r. r.0) same) in
              let after_is : booked ≡ after = ap (λ r. r.1) same in
              let id : (row.id == row.id) ≡ true = ground arith in
              let bucket : (row.bucket_id == row.bucket_id) ≡ true = ground arith in
              let there : load_file booked.drive row.bucket_id row.id ≡ ok row =
                rw (id, bucket) refl in
              rw (sym row_is, sym after_is) (there, st.put_stores w.storage s _ _ bytes p)
        ]

  create_row-IsStored :
      (to_lower : List ℕ → List ℕ) (new : NewFile) (bytes : List ℕ) (w after : World S)
      (f : FileRow)
      → (create_row to_lower new >>= λ g. put_and_book st g bytes) w ≡ (ok f, after)
      → IsStored f bytes after
  unfolding create_row ◌>>=◌
  create_row-IsStored to_lower new bytes w after f e =
      elim (Bool-cases
        (file_named to_lower new.bucket_id new.folder_id (to_lower new.name) w.drive.files)) [
          | inl b ↦ ground (arith, e, b)
          | inr b ↦ put_and_book-IsStored new bytes w after f (ground (arith, e, b))
        ]

  upload_file-IsStored :
      (to_lower : List ℕ → List ℕ) (arg : UploadFileArg) (bytes : List ℕ) (before after : World S)
      (f : FileRow)
      → arg.reader ≡ bytes_of bytes
      → upload_file to_lower st arg before ≡ (ok f, after)
      → IsStored f bytes after
  unfolding upload_file lift
  upload_file-IsStored to_lower arg bytes before after f reads e =
      let (dir, w₁, d, e₁) = bind-ok (lift (normalize_dir_path arg.dir_path)) _ e in
      let (valid, w₂, v, e₂) = bind-ok (lift (validate_item_name (trim_space arg.filename))) _ e₁ in
      let (some_reader, w₃, r, e₃) =
        bind-ok (refuse_if (is_missing arg.reader) invalid_input) _ e₂ in
      let (bucket, w₄, b, e₄) = bind-ok (asks (λ d. bucket_usable d arg.bucket_id)) _ e₃ in
      let (folder_id, w₅, o, e₅) =
        bind-ok (open_folder to_lower arg.user_id arg.bucket_id dir) _ e₄ in
      let (name, w₆, n, e₆) =
        bind-ok
          (asks (λ d. unique_name to_lower d arg.bucket_id folder_id (trim_space arg.filename))) _
          e₅ in
      let (content, w₇, c, e₇) = bind-ok (lift (read_all arg.reader)) _ e₆ in
      let (within, w₈, q, e₈) =
        bind-ok (check_quotas arg.user_id arg.bucket_id (length content)) _ e₇ in
      let stored = create_row-IsStored to_lower _ content w₈ after f e₈ in
      let same : bytes ≡ content = ok-injective (sym (ap read_all reads) ∙ ap (λ r. r.0) c) in
      rw same stored

  IsStored-download_file :
      (f : FileRow) (bytes : List ℕ) (w : World S) {bucket : Bucket}
      → IsStored f bytes w
      → bucket_usable w.drive f.bucket_id ≡ ok bucket
      → ancestors_usable w.drive f.bucket_id f.folder_id ≡ ok tt
      → (download_file st w.storage w.drive f.bucket_id f.id ≡ ok bytes)
        ⊎ (download_file st w.storage w.drive f.bucket_id f.id ≡ err internal)
  unfolding download_file check_file_download
  IsStored-download_file f bytes w (loaded, there) b u =
      elim (st.get_reads w.storage (bucket_encoder f.bucket_id) (object_key_for_file f.id)) [
        | inl fails ↦ inr (rw (b, loaded, u, fails) refl)
        | inr reads ↦ inl (rw (b, loaded, u, reads, there) refl)
      ]

  -- After an upload that succeeds, the download of the new file gives the bytes that were uploaded,
  -- or the error of a storage that cannot be read: where the bucket and the folders up to its root
  -- can be used then.
  pub upload_file-download_file :
      (to_lower : List ℕ → List ℕ) (arg : UploadFileArg) (bytes : List ℕ) (before after : World S)
      (f : FileRow) {bucket : Bucket}
      → arg.reader ≡ bytes_of bytes
      → upload_file to_lower st arg before ≡ (ok f, after)
      → bucket_usable after.drive f.bucket_id ≡ ok bucket
      → ancestors_usable after.drive f.bucket_id f.folder_id ≡ ok tt
      → (download_file st after.storage after.drive f.bucket_id f.id ≡ ok bytes)
        ⊎ (download_file st after.storage after.drive f.bucket_id f.id ≡ err internal)
  upload_file-download_file to_lower arg bytes before after f {bucket} reads e usable reachable =
      IsStored-download_file f bytes after {bucket = bucket}
        (upload_file-IsStored to_lower arg bytes before after f reads e) usable reachable
