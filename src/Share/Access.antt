-- ===== src/Share/Access.antt =====
-- server/share_access.go: what a share gives. `to_lower` and `compare` stand for strings.ToLower and
-- bcrypt's comparison of a hash with a password.
use orbit_cloud.Base.{
  ℕ, Bool, false, not, ◌&&◌, ◌||◌, none, some, List, [], ◌∷◌, ltb, ◌==◌, if◌then◌else◌, length,
}
use orbit_cloud.Base.Errors.{
  Result, ok, err, invalid_input, unauthorized, not_found, internal, range_not_satisfiable, ◌>>=◌,
  ◌>>◌,
}
use orbit_cloud.Base.Int.{ℤ, pos, above, leb_ℤ}
use orbit_cloud.BucketCoder.{bucket_encoder}
use orbit_cloud.Storage.{ObjectStorage, Fetched, found, missing, failed}
use orbit_cloud.Names.{
  same_text, trim_space, trim_front, trim_back, split_slash, validate_item_name,
}
use orbit_cloud.Drive.{
  FileRow, FolderRow, ItemKind, kind_file, kind_folder, ShareLink, Drive, is_kept, find_file,
  ancestors_usable, object_key_for_file,
}
use orbit_cloud.Drive.Resolve.{folder_at}
use orbit_cloud.Share.{load_folder_by_id, load_file_by_id, get_share_by_token}

-- The item of a share.
pub data Shared : Type 0 where
  shared_file : FileRow → Shared
  shared_folder : FolderRow → Shared

-- share.ExpiresAt != nil && time.Now().After(*share.ExpiresAt)
abbrev pub is_expired : ℕ → ShareLink → Bool
is_expired now s = elim s.expires_at [ none ↦ false | some at ↦ ltb at now ]

abbrev pub file_found : Result FileRow → Result Shared
file_found (err e) = err not_found
file_found (ok f) = ok (shared_file f)

abbrev pub folder_found : Result FolderRow → Result Shared
folder_found (err e) = err not_found
folder_found (ok f) = ok (shared_folder f)

-- The item by its kind and id.
unfoldable pub item_by_id : Drive → ItemKind → ℕ → Result Shared
unfolding load_folder_by_id load_file_by_id
item_by_id d kind_folder id = folder_found (load_folder_by_id d id)
item_by_id d kind_file id = file_found (load_file_by_id d id)

module _ (compare : List ℕ → List ℕ → Bool) where
  abbrev pub is_refused : ShareLink → List ℕ → Bool
  is_refused s password = not (length s.password == 0) && not (compare s.password password)

  -- `checkShare`, for a share that was found.
  unfoldable pub check_found : ℕ → List ℕ → Drive → ShareLink → Result Shared
  unfolding item_by_id
  check_found now password d s =
      if is_expired now s
      then err not_found
      else if is_refused s password
      then err unauthorized
      else item_by_id d s.item_type s.bucket_item_id

  -- `checkShare`, and `ResolveShare`
  unfoldable pub check_share : ℕ → List ℕ → List ℕ → Drive → Result Shared
  unfolding get_share_by_token check_found
  check_share now token password d = get_share_by_token d token >>= check_found now password d

-- What the storage gives, for the caller of the API.
abbrev pub bytes_of_fetched : Fetched → Result (List ℕ)
bytes_of_fetched (found bytes) = ok bytes
bytes_of_fetched missing = err not_found
bytes_of_fetched failed = err internal

-- strings.Trim(strings.TrimSpace(relPath), "/")
abbrev pub trimmed : List ℕ → List ℕ
trimmed path = trim_back (trim_front (trim_space path))

unfoldable pub last_of : List (List ℕ) → List ℕ
last_of [] = []
last_of (seg ∷ []) = seg
last_of (seg ∷ next ∷ segs) = last_of (next ∷ segs)

module _ (to_lower : List ℕ → List ℕ) where
  -- The query for a file by its folder and name.
  unfoldable pub file_at : Drive → ℕ → ℕ → List ℕ → Result FileRow
  unfolding find_file same_text
  file_at d bucket_id folder_id name =
      find_file
        (λ f.
          is_kept f.deleted_at
          && ((f.bucket_id == bucket_id && f.folder_id == folder_id)
              && same_text (to_lower f.name) (to_lower name)))
        d.files

  -- The loop of `locateSharedFileNew`.
  unfoldable pub drill : Drive → ℕ → List (List ℕ) → ℕ → Result FileRow
  unfolding file_at folder_at
  drill d bucket_id [] cur = err not_found
  drill d bucket_id (seg ∷ []) cur = file_at d bucket_id cur seg
  drill d bucket_id (seg ∷ next ∷ segs) cur =
      let below = drill d bucket_id (next ∷ segs) in
      elim (folder_at to_lower d bucket_id cur seg) [ err e ↦ err e | ok f ↦ below f.id ]

  -- `locateSharedFileNew`
  unfoldable pub locate_shared_file : Drive → FolderRow → List ℕ → Result FileRow
  unfolding drill last_of trim_space trim_front trim_back split_slash
  locate_shared_file d root path =
      if length (trimmed path) == 0
      then err invalid_input
      else validate_item_name (last_of (split_slash (trimmed path)))
        >> drill d root.bucket_id (split_slash (trimmed path)) root.id

  unfoldable pub file_of_shared : Drive → List ℕ → Shared → Result FileRow
  unfolding locate_shared_file
  file_of_shared d path (shared_file f) = ok f
  file_of_shared d path (shared_folder root) = locate_shared_file d root path

  -- The loop of `ListSharedDir` down to a folder.
  unfoldable pub drill_dir : Drive → ℕ → List (List ℕ) → ℕ → Result ℕ
  unfolding folder_at
  drill_dir d bucket_id [] cur = ok cur
  drill_dir d bucket_id (seg ∷ segs) cur =
      let below = drill_dir d bucket_id segs in
      elim (folder_at to_lower d bucket_id cur seg) [ err e ↦ err e | ok f ↦ below f.id ]

  -- The folder that `ListSharedDir` lists.
  unfoldable pub folder_to_list : Drive → FolderRow → List ℕ → Result ℕ
  unfolding drill_dir trim_space trim_front trim_back split_slash ancestors_usable
  folder_to_list d root path =
      (if length (trimmed path) == 0
        then ok root.id
        else drill_dir d root.bucket_id (split_slash (trimmed path)) root.id)
      >>= λ folder_id. ancestors_usable d root.bucket_id folder_id >> ok folder_id

  module _ (compare : List ℕ → List ℕ → Bool) where
    -- `resolveSharedFile`, and `SharedFileMeta`
    unfoldable pub resolve_shared_file : ℕ → List ℕ → List ℕ → List ℕ → Drive → Result FileRow
    unfolding check_share file_of_shared ancestors_usable
    resolve_shared_file now token password path d =
        check_share compare now token password d >>= λ item.
        file_of_shared d path item >>= λ f. ancestors_usable d f.bucket_id f.folder_id >> ok f

    module _ {S : Type 0} (st : ObjectStorage S) where
      -- `DownloadSharedFile`
      unfoldable pub download_shared_file :
          S → ℕ → List ℕ → List ℕ → List ℕ → Drive → Result (List ℕ)
      unfolding resolve_shared_file bucket_encoder object_key_for_file
      download_shared_file s now token password path d =
          resolve_shared_file now token password path d >>= λ f.
          d.get_bucket f.bucket_id >>= λ bucket.
          bytes_of_fetched (st.get s (bucket_encoder bucket.id) (object_key_for_file f.id))

      -- `DownloadSharedFileRange`
      unfoldable pub download_shared_file_range :
          S → ℕ → List ℕ → List ℕ → List ℕ → ℤ → ℤ → Drive → Result (List ℕ)
      unfolding resolve_shared_file bucket_encoder object_key_for_file
      download_shared_file_range s now token password path start end d =
          resolve_shared_file now token password path d >>= λ f.
          if leb_ℤ (pos f.file_size) start
          then err range_not_satisfiable
          else if not (leb_ℤ (pos 0) start)
              || (not (leb_ℤ start end) || leb_ℤ (pos f.file_size) end)
          then err invalid_input
          else d.get_bucket f.bucket_id >>= λ bucket. bytes_of_fetched (
              st.get_range s (bucket_encoder bucket.id) (object_key_for_file f.id) (above start)
                (above end))
