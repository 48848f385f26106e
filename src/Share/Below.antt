-- ===== src/Share/Below.antt =====
-- The folders below a shared one, and what is found there.
use orbit_cloud.Base.{
  ℕ, ◌≡◌, sym, ◌⊎◌, inl, inr, Bool, true, false, not, ◌&&◌, List, [], ◌∷◌, ◌==◌, length, Bool-cases,
  arith,
}
use orbit_cloud.Base.Errors.{ok, Result-cases}
use orbit_cloud.Names.{same_text, split_slash, validate_item_name}
use orbit_cloud.Drive.{
  FileRow, FolderRow, kind_file, kind_folder, ShareLink, Drive, is_kept, find_folder,
}
use orbit_cloud.Drive.Books.{IsRow}
use orbit_cloud.Drive.Books.Held.{IsRow-find_file}
use orbit_cloud.Drive.Naming.{is_named}
use orbit_cloud.Drive.Resolve.{folder_at}
use orbit_cloud.Share.{find_share}
use orbit_cloud.Share.Access.{trimmed, last_of, file_at, drill, locate_shared_file}

abbrev pub IsFolderRow : FolderRow → List FolderRow → Type 0
IsFolderRow f [] = ⊥
IsFolderRow f (g ∷ rest) = (g ≡ f) ⊎ IsFolderRow f rest

abbrev pub IsShare : ShareLink → List ShareLink → Type 0
IsShare s [] = ⊥
IsShare s (t ∷ rest) = (t ≡ s) ⊎ IsShare s rest

-- A folder that is not deleted, of a bucket.
pub record IsKeptFolder (d : Drive) (bucket_id : ℕ) (f : FolderRow) : Type 0 where
  pub row : IsFolderRow f d.folders
  pub kept : is_kept f.deleted_at ≡ true
  pub bucket : f.bucket_id ≡ bucket_id

-- The folders from a root down.
pub data Below (d : Drive) (root : FolderRow) : ℕ → Type 0 where
  here : Below d root root.id
  down :
      (f : FolderRow)
      → IsKeptFolder d root.bucket_id f
      → Below d root f.parent_id
      → Below d root f.id

-- A file that is not deleted.
pub record IsKeptFile (d : Drive) (f : FileRow) : Type 0 where
  pub row : IsRow f d.files
  pub kept : is_kept f.deleted_at ≡ true

-- What the share is of: the file, or a folder that the file is below.
pub data Reaches (d : Drive) (s : ShareLink) (f : FileRow) : Type 0 where
  own_file : s.item_type ≡ kind_file → f.id ≡ s.bucket_item_id → Reaches d s f
  in_folder :
      (root : FolderRow)
      → s.item_type ≡ kind_folder
      → root.id ≡ s.bucket_item_id
      → IsKeptFolder d root.bucket_id root
      → f.bucket_id ≡ root.bucket_id
      → Below d root f.folder_id
      → Reaches d s f

pub IsFolderRow-find_folder :
    (test : FolderRow → Bool) (rows : List FolderRow) (f : FolderRow)
    → find_folder test rows ≡ ok f
    → IsFolderRow f rows × (test f ≡ true)
unfolding find_folder
IsFolderRow-find_folder test [] f e = cc
IsFolderRow-find_folder test (g ∷ rest) f e = elim (Bool-cases (test g)) [
  | inl b ↦ let same : g ≡ f = ground (arith, e, b) in (inl same, rw (sym same) b)
  | inr b ↦
      let (row, passes) = IsFolderRow-find_folder test rest f (ground (arith, e, b)) in
      (inr row, passes)
]

pub IsShare-find_share :
    (test : ShareLink → Bool) (rows : List ShareLink) (s : ShareLink)
    → find_share test rows ≡ ok s
    → IsShare s rows × (s.deleted ≡ false) × (test s ≡ true)
unfolding find_share
IsShare-find_share test [] s e = cc
IsShare-find_share test (t ∷ rest) s e = elim (Bool-cases (not t.deleted && test t)) [
  | inl b ↦
      let same : t ≡ s = ground (arith, e, b) in
      (inl same, rw (sym same) (ground (arith, b)), rw (sym same) (ground (arith, b)))
  | inr b ↦
      let (row, live, passes) = IsShare-find_share test rest s (ground (arith, e, b)) in
      (inr row, live, passes)
]

module _ (to_lower : List ℕ → List ℕ) (d : Drive) (root : FolderRow) where
  -- A segment that is found leads to a folder below.
  folder_at-Below :
      (cur : ℕ) (seg : List ℕ) (f : FolderRow)
      → folder_at to_lower d root.bucket_id cur seg ≡ ok f
      → Below d root cur
      → Below d root f.id
  unfolding folder_at
  folder_at-Below cur seg f e below =
      let (row, passes) =
        IsFolderRow-find_folder (is_named to_lower root.bucket_id cur (to_lower seg)) d.folders f
          e in
      let parent : f.parent_id ≡ cur = ground (arith, passes) in
      let kept : IsKeptFolder d root.bucket_id f = record {
        row = row;
        kept = ground (arith, passes);
        bucket = ground (arith, passes);
      } in
      down f kept (rw parent below)

  file_at-Below :
      (cur : ℕ) (seg : List ℕ) (f : FileRow)
      → file_at to_lower d root.bucket_id cur seg ≡ ok f
      → Below d root cur
      → IsKeptFile d f × (f.bucket_id ≡ root.bucket_id) × Below d root f.folder_id
  unfolding file_at
  file_at-Below cur seg f e below =
      let (row, passes) =
        IsRow-find_file
          (λ g.
            is_kept g.deleted_at
            && ((g.bucket_id == root.bucket_id && g.folder_id == cur)
                && same_text (to_lower g.name) (to_lower seg)))
          d.files f e in
      let parent : f.folder_id ≡ cur = ground (arith, passes) in
      (record { row = row; kept = ground (arith, passes) }, ground (arith, passes), rw parent below)

  drill-Below :
      (segs : List (List ℕ)) (cur : ℕ) (f : FileRow)
      → drill to_lower d root.bucket_id segs cur ≡ ok f
      → Below d root cur
      → IsKeptFile d f × (f.bucket_id ≡ root.bucket_id) × Below d root f.folder_id
  unfolding drill
  drill-Below [] cur f e below = cc
  drill-Below (seg ∷ []) cur f e below = file_at-Below cur seg f e below
  drill-Below (seg ∷ next ∷ segs) cur f e below =
      elim (Result-cases (folder_at to_lower d root.bucket_id cur seg)) [
        | inr (failure, h) ↦ ground (arith, e, h)
        | inl (g, h) ↦
            drill-Below (next ∷ segs) g.id f (ground (arith, e, h))
              (folder_at-Below cur seg g h below)
      ]

  pub locate_shared_file-Below :
      (path : List ℕ) (f : FileRow)
      → locate_shared_file to_lower d root path ≡ ok f
      → IsKeptFile d f × (f.bucket_id ≡ root.bucket_id) × Below d root f.folder_id
  unfolding locate_shared_file
  locate_shared_file-Below path f e = elim (Bool-cases (length (trimmed path) == 0)) [
    | inl b ↦ ground (arith, e, b)
    | inr b ↦ elim (Result-cases (validate_item_name (last_of (split_slash (trimmed path))))) [
      | inr (failure, h) ↦ ground (arith, e, b, h)
      | inl (valid, h) ↦
          drill-Below (split_slash (trimmed path)) root.id f (ground (arith, e, b, h)) here
    ]
  ]
