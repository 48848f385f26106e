-- ===== src/Drive/Subtree/Ends.antt =====
-- The purging of a folder ends.
use orbit_cloud.Base.{
  ℕ, zero, suc, ◌+◌, ◌≤◌, ◌<◌, ◌≡◌, refl, ◌⊎◌, inl, inr, Bool, true, false, ◌&&◌, ◌||◌, some, List,
  [], ◌∷◌, ◌++◌, ◌==◌, length, Bool-cases, arith, length-append,
}
use orbit_cloud.Storage.{ObjectStorage}
use orbit_cloud.Drive.{FolderRow}
use orbit_cloud.Drive.Action.{World}
use orbit_cloud.Drive.Subtree.{
  child_ids, files_in, remove_folder, drop_objects, forget_folder, purge_folders, rounds,
  fuel_for_purge, purge_recycled_folder_subtree,
}

-- Whether a row has the id.
unfoldable pub has_id : ℕ → List FolderRow → Bool
has_id id [] = false
has_id id (f ∷ rest) = f.id == id || has_id id rest

length-child_ids :
    (bucket_id id : ℕ) (rows : List FolderRow) → length (child_ids bucket_id id rows) ≤ length rows
unfolding child_ids
length-child_ids bucket_id id [] = omega arith
length-child_ids bucket_id id (f ∷ rest) = ground (arith, length-child_ids bucket_id id rest)

length-remove_folder :
    (id : ℕ) (rows : List FolderRow) → length (remove_folder id rows) ≤ length rows
unfolding remove_folder
length-remove_folder id [] = omega arith
length-remove_folder id (f ∷ rest) = ground (arith, length-remove_folder id rest)

length-remove_folder_less :
    (id : ℕ) (rows : List FolderRow)
    → has_id id rows ≡ true
    → length (remove_folder id rows) < length rows
unfolding remove_folder has_id
length-remove_folder_less id [] h = cc
length-remove_folder_less id (f ∷ rest) h = elim (Bool-cases (f.id == id)) [
  | inl b ↦ let fewer = length-remove_folder id rest in rw b (omega (arith, fewer))
  | inr b ↦
      let fewer = length-remove_folder_less id rest (ground (arith, h, b)) in
      rw b (omega (arith, fewer))
]

-- The first child is a row.
has_id-child_ids :
    (bucket_id id child : ℕ) (rest : List ℕ) (rows : List FolderRow)
    → child_ids bucket_id id rows ≡ child ∷ rest
    → has_id child rows ≡ true
unfolding child_ids has_id
has_id-child_ids bucket_id id child rest [] e = cc
has_id-child_ids bucket_id id child rest (f ∷ rows) e =
    elim (Bool-cases (f.bucket_id == bucket_id && f.parent_id == id)) [
      | inl b ↦ let head : f.id ≡ child = ground (arith, e, b) in ground (arith, head)
      | inr b ↦
          let later = has_id-child_ids bucket_id id child rest rows (ground (arith, e, b)) in
          ground (arith, later)
    ]

no_folder_removed :
    (id : ℕ) (rows : List FolderRow) → has_id id rows ≡ false → remove_folder id rows ≡ rows
unfolding has_id remove_folder
no_folder_removed id [] h = refl
no_folder_removed id (f ∷ rest) h =
    let other : (f.id == id) ≡ false = ground (arith, h) in
    let same = no_folder_removed id rest (ground (arith, h)) in rw (other, same) refl

rounds_mono : (k n : ℕ) → k ≤ n → rounds k ≤ rounds n
unfolding rounds
rounds_mono zero n h = omega arith
rounds_mono (suc k) zero h = omega arith
rounds_mono (suc k) (suc n) h = let less = rounds_mono k n (omega arith) in omega (arith, less, h)

-- One folder less gives more rounds than a folder pushes.
rounds_step : (k n : ℕ) → k < n → rounds k + (n + n + 2) ≤ rounds n
unfolding rounds
rounds_step k zero h = omega arith
rounds_step k (suc n) h = let less = rounds_mono k n (omega arith) in omega (arith, less)

rounds_above : (n : ℕ) → n ≤ rounds n
unfolding rounds
rounds_above zero = omega arith
rounds_above (suc n) = let above = rounds_above n in omega (arith, above)

-- The fuel that is enough: less where the folder on top is there.
abbrev IsEnough : ℕ → List ℕ → List FolderRow → Type 0
IsEnough fuel [] rows = 0 < fuel
IsEnough fuel (id ∷ stack) rows =
    (rounds (length rows) + (length stack + 1) < fuel)
    ⊎ ((has_id id rows ≡ true) × (rounds (length rows) + (length stack + 1) ≤ fuel + length rows))

from_bound :
    (fuel : ℕ) (stack : List ℕ) (rows : List FolderRow)
    → rounds (length rows) + length stack < fuel
    → IsEnough fuel stack rows
from_bound fuel [] rows h = omega arith
from_bound fuel (id ∷ stack) rows h = inl (omega (arith, h))

-- After the round of a folder that is there.
IsEnough-below :
    (fuel id : ℕ) (children stack : List ℕ) (rows : List FolderRow)
    → has_id id rows ≡ true
    → length children ≤ length rows
    → rounds (length rows) + (length stack + 1) ≤ suc fuel + length rows
    → IsEnough fuel (children ++ stack) (remove_folder id rows)
IsEnough-below fuel id children stack rows h few enough =
    let fewer = length-remove_folder_less id rows h in
    let step = rounds_step (length (remove_folder id rows)) (length rows) fewer in
    let both = length-append children stack in
    from_bound fuel (children ++ stack) (remove_folder id rows) (omega (arith, step, few, both))

first_there :
    (fuel : ℕ) (children stack : List ℕ) (rows : List FolderRow)
    → ((child : ℕ) (rest : List ℕ) → children ≡ child ∷ rest → has_id child rows ≡ true)
    → length children ≤ length rows
    → rounds (length rows) + (length stack + 1) ≤ fuel
    → IsEnough fuel (children ++ stack) rows
first_there fuel [] stack rows there few enough = from_bound fuel stack rows (omega arith)
first_there fuel (child ∷ rest) stack rows there few enough =
    let both = length-append rest stack in inr (there child rest refl, omega (arith, few, both))

-- After the round of a folder that is gone.
IsEnough-gone :
    (fuel bucket_id id : ℕ) (stack : List ℕ) (rows : List FolderRow)
    → has_id id rows ≡ false
    → rounds (length rows) + (length stack + 1) < suc fuel
    → IsEnough fuel (child_ids bucket_id id rows ++ stack) (remove_folder id rows)
IsEnough-gone fuel bucket_id id stack rows h enough =
    let few = length-child_ids bucket_id id rows in
    rw (no_folder_removed id rows h) (
      first_there fuel (child_ids bucket_id id rows) stack rows
        (λ child rest e. has_id-child_ids bucket_id id child rest rows e) few
        (omega (arith, enough)))

-- After any round.
IsEnough-next :
    (fuel bucket_id id : ℕ) (stack : List ℕ) (rows : List FolderRow)
    → IsEnough (suc fuel) (id ∷ stack) rows
    → IsEnough fuel (child_ids bucket_id id rows ++ stack) (remove_folder id rows)
IsEnough-next fuel bucket_id id stack rows (inr (h, enough)) =
    IsEnough-below fuel id (child_ids bucket_id id rows) stack rows h
      (length-child_ids bucket_id id rows) enough
IsEnough-next fuel bucket_id id stack rows (inl enough) = elim (Bool-cases (has_id id rows)) [
  | inl h ↦
      let few = length-child_ids bucket_id id rows in
      IsEnough-below fuel id (child_ids bucket_id id rows) stack rows h few (omega (arith, enough))
  | inr h ↦ IsEnough-gone fuel bucket_id id stack rows h enough
]

removed_is_gone : (id : ℕ) (rows : List FolderRow) → has_id id (remove_folder id rows) ≡ false
unfolding has_id remove_folder
removed_is_gone id [] = refl
removed_is_gone id (f ∷ rest) = let gone = removed_is_gone id rest in ground (arith, gone)

stays_gone :
    (id other : ℕ) (rows : List FolderRow)
    → has_id id rows ≡ false
    → has_id id (remove_folder other rows) ≡ false
unfolding has_id remove_folder
stays_gone id other [] h = refl
stays_gone id other (f ∷ rest) h =
    let gone = stays_gone id other rest (ground (arith, h)) in ground (arith, gone, h)

module _ {S : Type 0} (st : ObjectStorage S) (bucket_id : ℕ) where
  -- The drive and the storage after a round.
  abbrev next : ℕ → World S → World S
  next id w =
      let files = files_in bucket_id id w.drive.files in
      record {
        storage = drop_objects st bucket_id files w.storage;
        drive = forget_folder bucket_id id files w.drive;
      }

  purge_folders_returns :
      (fuel : ℕ) (stack : List ℕ) (w : World S)
      → IsEnough fuel stack w.drive.folders
      → (after : World S) × (purge_folders st fuel bucket_id stack w ≡ some after)
  unfolding purge_folders forget_folder
  purge_folders_returns zero [] w enough = absurd (omega (arith, enough))
  purge_folders_returns zero (id ∷ stack) w (inl enough) = absurd (omega (arith, enough))
  purge_folders_returns zero (id ∷ stack) w (inr (h, enough)) =
      let above = rounds_above (length w.drive.folders) in absurd (omega (arith, enough, above))
  purge_folders_returns (suc fuel) [] w enough = (w, refl)
  purge_folders_returns (suc fuel) (id ∷ stack) w enough =
      purge_folders_returns fuel (child_ids bucket_id id w.drive.folders ++ stack) (next id w)
        (IsEnough-next fuel bucket_id id stack w.drive.folders enough)

  purge_folders-gone :
      (id fuel : ℕ) (stack : List ℕ) (w after : World S)
      → has_id id w.drive.folders ≡ false
      → purge_folders st fuel bucket_id stack w ≡ some after
      → has_id id after.drive.folders ≡ false
  unfolding purge_folders forget_folder
  purge_folders-gone id zero stack w after gone e = cc
  purge_folders-gone id (suc fuel) [] w after gone e = cc
  purge_folders-gone id (suc fuel) (top ∷ stack) w after gone e =
      purge_folders-gone id fuel (child_ids bucket_id top w.drive.folders ++ stack) (next top w)
        after (stays_gone id top w.drive.folders gone) e

  -- A folder that is purged from the recycle bin with all that is below it: the rounds that
  -- `fuel_for_purge` gives are enough whatever the rows of the folders are, cycles included, and no
  -- row has the id of the folder afterwards.
  pub purge_recycled_folder_subtree_returns :
      (folder_id : ℕ) (w : World S)
      → (after : World S) × (purge_recycled_folder_subtree st bucket_id folder_id w ≡ some after)
        × (has_id folder_id after.drive.folders ≡ false)
  unfolding purge_recycled_folder_subtree fuel_for_purge purge_folders forget_folder
  purge_recycled_folder_subtree_returns folder_id w =
      let fuel = suc (rounds (length w.drive.folders) + 1) in
      let (after, e) = purge_folders_returns fuel (folder_id ∷ []) w (inl (omega arith)) in
      let children = child_ids bucket_id folder_id w.drive.folders ++ [] in
      let gone = removed_is_gone folder_id w.drive.folders in
      let left =
        purge_folders-gone folder_id (rounds (length w.drive.folders) + 1) children
          (next folder_id w) after gone e in
      (after, e, left)
