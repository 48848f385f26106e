-- ===== src/Drive/Download.antt =====
-- server/file_download.go: a file as a whole and by ranges, and the rows for their callers.
pub mod Uploaded
use orbit_cloud.Base.{ℕ, Bool, true, false, not, ◌||◌, List, if◌then◌else◌}
use orbit_cloud.Base.Errors.{
  Error, Result, ok, err, invalid_input, not_found, internal, range_not_satisfiable, ◌>>=◌, ◌>>◌,
}
use orbit_cloud.Base.Int.{ℤ, pos, above, leb_ℤ}
use orbit_cloud.BucketCoder.{bucket_encoder}
use orbit_cloud.Storage.{ObjectStorage, Fetched, found, missing, failed}
use orbit_cloud.Drive.{
  FileRow, FolderRow, Drive, load_file, load_folder_row, bucket_usable, ancestors_usable,
  object_key_for_file,
}

-- `CheckFileDownload`
unfoldable pub check_file_download : Drive → ℕ → ℕ → Result FileRow
unfolding bucket_usable load_file ancestors_usable
check_file_download d bucket_id file_id = do
  bucket_usable d bucket_id
  f ← load_file d bucket_id file_id
  ancestors_usable d bucket_id f.folder_id
  ok f

-- What the storage gives, for the caller.
abbrev pub content_of : Fetched → Result (List ℕ)
content_of (found bytes) = ok bytes
content_of missing = err not_found
content_of failed = err internal

-- The last check of a range.
abbrev pub check_range : ℤ → ℤ → ℕ → Result (Unit {0})
check_range start end size =
    if leb_ℤ (pos size) start
    then err range_not_satisfiable
    else if not (leb_ℤ (pos 0) start) || (not (leb_ℤ start end) || leb_ℤ (pos size) end)
    then err invalid_input
    else ok tt

-- `GetFolderMeta`
unfoldable pub get_folder_meta : Drive → ℕ → ℕ → Result FolderRow
unfolding bucket_usable load_folder_row ancestors_usable
get_folder_meta d bucket_id folder_id = do
  bucket_usable d bucket_id
  f ← load_folder_row d bucket_id folder_id
  ancestors_usable d bucket_id folder_id
  ok f

module _ {S : Type 0} (st : ObjectStorage S) where
  -- `DownloadFile`
  unfoldable pub download_file : S → Drive → ℕ → ℕ → Result (List ℕ)
  unfolding check_file_download bucket_encoder object_key_for_file
  download_file s d bucket_id file_id = do
    f ← check_file_download d bucket_id file_id
    content_of (st.get s (bucket_encoder f.bucket_id) (object_key_for_file f.id))

  -- `DownloadFileRange`
  unfoldable pub download_file_range : S → Drive → ℕ → ℕ → ℤ → ℤ → Result (List ℕ)
  unfolding check_file_download bucket_encoder object_key_for_file
  download_file_range s d bucket_id file_id start end = do
    f ← check_file_download d bucket_id file_id
    check_range start end f.file_size
    content_of (
        st.get_range s (bucket_encoder f.bucket_id) (object_key_for_file f.id) (above start)
          (above end))
