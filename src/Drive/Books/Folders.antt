-- ===== src/Drive/Books/Folders.antt =====
-- The books stay right when a folder is purged with its files.
use orbit_cloud.Base.{
  ℕ, ◌+◌, ◌≡◌, refl, ap, ◌∙◌, inl, inr, true, false, ◌&&◌, Option, some, List, [], ◌∷◌, ◌==◌,
  if◌then◌else◌, Bool-cases, arith,
}
use orbit_cloud.Base.Int.{pos, leb_ℤ}
use orbit_cloud.Quota.{BucketRow, at_id, clamped, negated, return_user_used_space}
use orbit_cloud.Drive.{FileRow, Drive}
use orbit_cloud.Drive.Storing.{remove_file}
use orbit_cloud.Drive.Recycle.{give_back}
use orbit_cloud.Drive.Subtree.{
  files_in, total_size, total_of_user, remove_files, return_to_users, forget_folder,
}
use orbit_cloud.Drive.Books.{
  held, IsRow, Falling, Balanced, Books, bucket_of, user_of, used_by_bucket, used_by_user,
}
use orbit_cloud.Drive.Books.Held.{Falling-weaken, Falling-remove_file, held-remove_file}
use orbit_cloud.Drive.Books.Balance.{at_id_cases, clamped_held}

abbrev AreRows : List FileRow → List FileRow → Type 0
AreRows [] files = Unit {0}
AreRows (f ∷ rest) files = IsRow f files × AreRows rest files

IsRow-remove_file :
    (id : ℕ) (g : FileRow) (files : List FileRow)
    → (g.id == id) ≡ false
    → IsRow g files
    → IsRow g (remove_file id files)
unfolding remove_file
IsRow-remove_file id g [] other row = absurd row
IsRow-remove_file id g (f ∷ rest) other (inl e) =
    let kept : (f.id == id) ≡ false = ap (λ h. h.id == id) e ∙ other in rw kept (inl e)
IsRow-remove_file id g (f ∷ rest) other (inr row) =
    let later = IsRow-remove_file id g rest other row in
    elim (Bool-cases (f.id == id)) [ inl b ↦ rw b later | inr b ↦ rw b (inr later) ]

AreRows-remove_file :
    (id : ℕ) (fs files : List FileRow)
    → Falling id fs
    → AreRows fs files
    → AreRows fs (remove_file id files)
AreRows-remove_file id [] files falling rows = tt
AreRows-remove_file id (f ∷ rest) files (lower, falling) (row, rows) =
    let other : (f.id == id) ≡ false = ground (arith, lower) in
    (
      IsRow-remove_file id f files other row,
      AreRows-remove_file id rest files (Falling-weaken f.id id rest (omega (arith, lower)) falling)
          rows,
    )

AreRows-weaken :
    (fs : List FileRow) (f : FileRow) (files : List FileRow)
    → AreRows fs files
    → AreRows fs (f ∷ files)
AreRows-weaken [] f files rows = tt
AreRows-weaken (g ∷ rest) f files (row, rows) = (inr row, AreRows-weaken rest f files rows)

Falling-remove_files :
    (bound : ℕ) (fs files : List FileRow)
    → Falling bound files
    → Falling bound (remove_files fs files)
unfolding remove_files
Falling-remove_files bound [] files falling = falling
Falling-remove_files bound (f ∷ rest) files falling =
    Falling-remove_files bound rest (remove_file f.id files)
      (Falling-remove_file bound f.id files falling)

-- What is held is held by the files that are removed, and by the rest.
held-remove_files :
    (owner : FileRow → ℕ) (i bound low : ℕ) (fs files : List FileRow)
    → Falling bound files
    → Falling low fs
    → AreRows fs files
    → held owner i files ≡ held owner i fs + held owner i (remove_files fs files)
unfolding held remove_files
held-remove_files owner i bound low [] files falling lower rows = omega arith
held-remove_files owner i bound low (f ∷ rest) files falling (below, lower) (row, rows) =
    let one = held-remove_file owner i bound files f falling row in
    let others =
      held-remove_files owner i bound f.id rest (remove_file f.id files)
        (Falling-remove_file bound f.id files falling) lower
        (AreRows-remove_file f.id rest files lower rows) in
    omega (arith, one, others)

module _ (bucket_id folder_id : ℕ) where
  Falling-files_in :
      (bound : ℕ) (files : List FileRow)
      → Falling bound files
      → Falling bound (files_in bucket_id folder_id files)
  unfolding files_in
  Falling-files_in bound [] falling = tt
  Falling-files_in bound (f ∷ rest) (lower, falling) =
      let later = Falling-files_in f.id rest falling in
      elim (Bool-cases (f.bucket_id == bucket_id && f.folder_id == folder_id)) [
        | inl b ↦ rw b (lower, later)
        | inr b ↦ rw b (
            Falling-weaken f.id bound (files_in bucket_id folder_id rest) (omega (arith, lower))
              later)
      ]

  AreRows-files_in : (files : List FileRow) → AreRows (files_in bucket_id folder_id files) files
  unfolding files_in
  AreRows-files_in [] = tt
  AreRows-files_in (f ∷ rest) =
      let later =
        AreRows-weaken (files_in bucket_id folder_id rest) f rest (AreRows-files_in rest) in
      elim (Bool-cases (f.bucket_id == bucket_id && f.folder_id == folder_id)) [
        | inl b ↦ rw b (inl refl, later)
        | inr b ↦ rw b later
      ]

  -- The files of the folder are held by its bucket, and by no other.
  held-files_in :
      (i : ℕ) (files : List FileRow)
      → held bucket_of i (files_in bucket_id folder_id files)
        ≡ (if bucket_id == i then total_size (files_in bucket_id folder_id files) else 0)
  unfolding held files_in total_size
  held-files_in i [] = ground arith
  held-files_in i (f ∷ rest) = let later = held-files_in i rest in ground (arith, later)

held_by_user : (i : ℕ) (fs : List FileRow) → held user_of i fs ≡ total_of_user i fs
unfolding held total_of_user
held_by_user i [] = refl
held_by_user i (f ∷ rest) = let later = held_by_user i rest in ground (arith, later)

-- The bucket gives back what its files hold.
purged-Balanced_buckets :
    (total bucket_id : ℕ) (rows : ℕ → Option BucketRow) (before after : List FileRow)
    → ((i : ℕ)
        → held bucket_of i before ≡ (if bucket_id == i then total else 0) + held bucket_of i after)
    → Balanced bucket_of used_by_bucket rows before
    → Balanced bucket_of used_by_bucket (at_id bucket_id (give_back total) rows) after
purged-Balanced_buckets total bucket_id rows before after parts p i r e =
    elim (at_id_cases bucket_id i (give_back total) rows r e) [
      | inl (same, (r₀, m, changed)) ↦
          let mine : (bucket_id == i) ≡ true = ground (arith, same) in
          rw (changed, p i r₀ m, parts i, mine) (clamped_held (held bucket_of i after) total)
      | inr (b, m) ↦
          let other : (bucket_id == i) ≡ false = ground (arith, b) in
          rw (p i r m, parts i, other) (ap pos (omega arith))
    ]

purged-Balanced_users :
    (d : Drive) (fs after : List FileRow)
    → ((i : ℕ) → held user_of i d.files ≡ total_of_user i fs + held user_of i after)
    → Balanced user_of used_by_user d.user_space d.files
    → Balanced user_of used_by_user (return_to_users fs d) after
unfolding return_to_users return_user_used_space
purged-Balanced_users d fs after parts p i r e =
    elim (Bool-cases (leb_ℤ (pos (total_of_user i fs)) (pos 0))) [
      | inl b ↦
          let row : d.user_space i ≡ some r = ground (arith, e, b) in
          let nothing : total_of_user i fs ≡ 0 = ground (arith, b) in
          rw (p i r row, parts i, nothing) (ap pos (omega arith))
      | inr b ↦
          let moved : at_id i
                (λ u. record u {
                  used_space = clamped u.used_space (negated (pos (total_of_user i fs)));
                })
                d.user_space i
              ≡ some r =
            rw (b, return_to_users) at e in
          elim (at_id_cases i i _ d.user_space r moved) [
            | inl (same, (r₀, m, changed)) ↦
                rw (changed, p i r₀ m, parts i)
                  (clamped_held (held user_of i after) (total_of_user i fs))
            | inr (c, m) ↦ let mine : (i == i) ≡ true = ground arith in cc
          ]
    ]

pub Books-forget_folder :
    (bucket_id folder_id : ℕ) (d : Drive)
    → Books d
    → Books (forget_folder bucket_id folder_id (files_in bucket_id folder_id d.files) d)
unfolding forget_folder
Books-forget_folder bucket_id folder_id d (falling, buckets, users) =
    let fs = files_in bucket_id folder_id d.files in
    let parts = λ (owner : FileRow → ℕ) (i : ℕ).
      held-remove_files owner i d.next_file_id d.next_file_id fs d.files falling
        (Falling-files_in bucket_id folder_id d.next_file_id d.files falling)
        (AreRows-files_in bucket_id folder_id d.files) in
    (
      Falling-remove_files d.next_file_id fs d.files falling,
      purged-Balanced_buckets (total_size fs) bucket_id d.bucket_space d.files
          (remove_files fs d.files)
          (λ i.
            parts bucket_of i
            ∙ ap (λ n. n + held bucket_of i (remove_files fs d.files))
                (held-files_in bucket_id folder_id i d.files))
          buckets,
      purged-Balanced_users d fs (remove_files fs d.files)
          (λ i.
            parts user_of i
            ∙ ap (λ n. n + held user_of i (remove_files fs d.files)) (held_by_user i fs))
          users,
    )
