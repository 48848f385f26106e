-- ===== src/Drive/Resolve/Keeping.antt =====
-- What `ResolveDirPath` keeps of the tables.
use orbit_cloud.Base.{ℕ, inl, inr, List, [], ◌∷◌, ltb, ◌==◌, length, Bool-cases, ◌≡◌, refl}
use orbit_cloud.Base.Errors.{Result, ok, err, Result-cases}
use orbit_cloud.Names.{validate_item_name, split_slash, max_dir_path_len}
use orbit_cloud.Drive.{FolderRow, Drive}
use orbit_cloud.Drive.Resolve.{
  whole_path_len, with_folder, folder_at, is_deleting, enter_or_make, on_to, make_path,
  resolve_dir_path,
}

-- What is kept when a folder is added is kept by `ResolveDirPath`.
module _ (to_lower : List ℕ → List ℕ) (P : Drive → Type 0)
    (keeps : (f : FolderRow) (d : Drive) → f.id ≡ d.next_folder_id → P d → P (with_folder f d))
    (user_id bucket_id : ℕ) where
  enter_or_make-keeps :
      (parent_id : ℕ) (seg : List ℕ) (d : Drive)
      → P d
      → P (enter_or_make to_lower user_id bucket_id parent_id seg d).1
  unfolding enter_or_make
  enter_or_make-keeps parent_id seg d p = elim (Result-cases (validate_item_name seg)) [
    | inr (failure, e) ↦ rw (e, enter_or_make) p
    | inl (valid, e) ↦ elim (Result-cases (folder_at to_lower d bucket_id parent_id seg)) [
      | inr (failure, h) ↦ rw (e, h, enter_or_make) (keeps _ d refl p)
      | inl (f, h) ↦ elim (Bool-cases (is_deleting f)) [
        | inl b ↦ rw (e, h, b, enter_or_make) p
        | inr b ↦ rw (e, h, b, enter_or_make) p
      ]
    ]
  ]

  on_to-keeps :
      (reached : Result ℕ × Drive) (next : ℕ → Drive → Result ℕ × Drive)
      → P reached.1
      → ((parent_id : ℕ) (d : Drive) → P d → P (next parent_id d).1)
      → P (on_to reached next).1
  on_to-keeps (err e, d) next p k = p
  on_to-keeps (ok parent_id, d) next p k = k parent_id d p

  make_path-keeps :
      (segs : List (List ℕ)) (parent_id : ℕ) (d : Drive)
      → P d
      → P (make_path to_lower user_id bucket_id segs parent_id d).1
  unfolding make_path
  make_path-keeps [] parent_id d p = p
  make_path-keeps (seg ∷ segs) parent_id d p = elim (Bool-cases (length seg == 0)) [
    | inl b ↦ rw b (make_path-keeps segs parent_id d p)
    | inr b ↦ rw b (
        on_to-keeps (enter_or_make to_lower user_id bucket_id parent_id seg d)
          (make_path to_lower user_id bucket_id segs) (enter_or_make-keeps parent_id seg d p)
          (make_path-keeps segs))
  ]

  pub resolve_dir_path-keeps :
      (path : List ℕ) (d : Drive) → P d → P (resolve_dir_path to_lower user_id bucket_id path d).1
  unfolding resolve_dir_path
  resolve_dir_path-keeps path d p = elim (Bool-cases (ltb whole_path_len (length path))) [
    | inl b ↦ rw (b, resolve_dir_path) p
    | inr b ↦ elim (Bool-cases (ltb max_dir_path_len (length (split_slash path)))) [
      | inl h ↦ rw (b, h, resolve_dir_path) p
      | inr h ↦ rw (b, h, resolve_dir_path) (make_path-keeps (split_slash path) 0 d p)
    ]
  ]
