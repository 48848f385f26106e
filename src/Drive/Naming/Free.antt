-- ===== src/Drive/Naming/Free.antt =====
-- The names that a folder holds, described by its rows, and the free ones.
use orbit_cloud.Base.{
  ℕ, zero, suc, ◌+◌, ◌≡◌, ◌≢◌, refl, sym, ap, ◌∙◌, ◌⊎◌, inl, inr, true, false, none, List, [], ◌∷◌,
  ◌==◌, Bool-cases, arith,
}
use orbit_cloud.Base.Errors.{ok}
use orbit_cloud.Names.{same_text, same_text_refl}
use orbit_cloud.Drive.{FileRow, FolderRow, Drive}
use orbit_cloud.Drive.Naming.{
  file_named, folder_named, name_exists, candidate, first_free, unique_name,
}

abbrev pub IsIn : {Row : Type 0} → Row → List Row → Type 0
IsIn row [] = ⊥
IsIn row (other ∷ rest) = (other ≡ row) ⊎ IsIn row rest

-- A file or a folder in a folder, neither of them in the recycle bin, has the name.
pub data Holds (d : Drive) (bucket_id folder_id : ℕ) : List ℕ → Type 0 where
  held_file :
      (f : FileRow)
      → IsIn f d.files
      → f.deleted_at ≡ none
      → f.bucket_id ≡ bucket_id
      → f.folder_id ≡ folder_id
      → Holds d bucket_id folder_id f.name
  held_folder :
      (f : FolderRow)
      → IsIn f d.folders
      → f.deleted_at ≡ none
      → f.bucket_id ≡ bucket_id
      → f.parent_id ≡ folder_id
      → Holds d bucket_id folder_id f.name

module _ (to_lower : List ℕ → List ℕ) (bucket_id folder_id : ℕ) where
  IsIn-file_named :
      (f : FileRow) (rows : List FileRow) (lower : List ℕ)
      → IsIn f rows
      → f.deleted_at ≡ none
      → f.bucket_id ≡ bucket_id
      → f.folder_id ≡ folder_id
      → to_lower f.name ≡ lower
      → file_named to_lower bucket_id folder_id lower rows ≡ true
  unfolding file_named
  IsIn-file_named f [] lower there kept in_bucket in_folder named = absurd there
  IsIn-file_named f (g ∷ rest) lower (inl e) kept in_bucket in_folder named =
      let same : same_text (to_lower f.name) lower ≡ true =
        ap (same_text (to_lower f.name)) (sym named) ∙ same_text_refl (to_lower f.name) in
      let b : (f.bucket_id == bucket_id) ≡ true = ground (arith, in_bucket) in
      let p : (f.folder_id == folder_id) ≡ true = ground (arith, in_folder) in
      rw (e, kept, b, p, same) refl
  IsIn-file_named f (g ∷ rest) lower (inr later) kept in_bucket in_folder named =
      let found = IsIn-file_named f rest lower later kept in_bucket in_folder named in
      ground (arith, found)

  IsIn-folder_named :
      (f : FolderRow) (rows : List FolderRow) (lower : List ℕ)
      → IsIn f rows
      → f.deleted_at ≡ none
      → f.bucket_id ≡ bucket_id
      → f.parent_id ≡ folder_id
      → to_lower f.name ≡ lower
      → folder_named to_lower bucket_id folder_id lower rows ≡ true
  unfolding folder_named
  IsIn-folder_named f [] lower there kept in_bucket in_folder named = absurd there
  IsIn-folder_named f (g ∷ rest) lower (inl e) kept in_bucket in_folder named =
      let same : same_text (to_lower f.name) lower ≡ true =
        ap (same_text (to_lower f.name)) (sym named) ∙ same_text_refl (to_lower f.name) in
      let b : (f.bucket_id == bucket_id) ≡ true = ground (arith, in_bucket) in
      let p : (f.parent_id == folder_id) ≡ true = ground (arith, in_folder) in
      rw (e, kept, b, p, same) refl
  IsIn-folder_named f (g ∷ rest) lower (inr later) kept in_bucket in_folder named =
      let found = IsIn-folder_named f rest lower later kept in_bucket in_folder named in
      ground (arith, found)

  Holds-name_exists :
      (d : Drive) (taken new : List ℕ)
      → Holds d bucket_id folder_id taken
      → to_lower taken ≡ to_lower new
      → name_exists to_lower d bucket_id folder_id new ≡ true
  unfolding name_exists
  Holds-name_exists d _ new (held_file f there kept in_bucket in_folder) same =
      let found = IsIn-file_named f d.files (to_lower new) there kept in_bucket in_folder same in
      rw found refl
  Holds-name_exists d _ new (held_folder f there kept in_bucket in_folder) same =
      let found =
        IsIn-folder_named f d.folders (to_lower new) there kept in_bucket in_folder same in
      ground (arith, found)

  Holds-free :
      (d : Drive) (taken new : List ℕ)
      → Holds d bucket_id folder_id taken
      → name_exists to_lower d bucket_id folder_id new ≡ false
      → to_lower taken ≢ to_lower new
  Holds-free d taken new holds free same =
      let there = Holds-name_exists d taken new holds same in cc

  -- A name that the loop gives is a candidate and exits it.
  first_free_cases :
      (d : Drive) (name : List ℕ) (rounds n : ℕ) {new : List ℕ}
      → first_free to_lower d bucket_id folder_id name rounds n ≡ ok new
      → ((k : ℕ) × (new ≡ candidate name k))
        × (name_exists to_lower d bucket_id folder_id new ≡ false)
  unfolding first_free
  first_free_cases d name zero n e = cc
  first_free_cases d name (suc rounds) n {new} e =
      elim (Bool-cases (name_exists to_lower d bucket_id folder_id (candidate name n))) [
        | inl b ↦ first_free_cases d name rounds (n + 1) (ground (arith, e, b))
        | inr b ↦
            let same : new ≡ candidate name n = ground (arith, e, b) in
            ((n, same), ap (name_exists to_lower d bucket_id folder_id) same ∙ b)
      ]

  -- A name that `uniqueName` gives is the one asked for, or that with a number; and no file and no
  -- folder that the folder holds outside the recycle bin has it, in no mixture of cases.
  pub unique_name-Holds :
      (d : Drive) (name : List ℕ) {new taken : List ℕ}
      → unique_name to_lower d bucket_id folder_id name ≡ ok new
      → Holds d bucket_id folder_id taken
      → ((new ≡ name) ⊎ ((k : ℕ) × (new ≡ candidate name k))) × (to_lower taken ≢ to_lower new)
  unfolding unique_name
  unique_name-Holds d name {new} {taken} e holds =
      elim (Bool-cases (name_exists to_lower d bucket_id folder_id name)) [
        | inl b ↦
            let (numbered, free) = first_free_cases d name 1000 1 (ground (arith, e, b)) in
            (inr numbered, Holds-free d taken new holds free)
        | inr b ↦
            let given : new ≡ name = ground (arith, e, b) in
            let free = ap (name_exists to_lower d bucket_id folder_id) given ∙ b in
            (inl given, Holds-free d taken new holds free)
      ]
