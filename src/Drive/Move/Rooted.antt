-- ===== src/Drive/Move/Rooted.antt =====
-- A folder is never moved below itself: what leads up to the root still does.
use orbit_cloud.Base.{
  ℕ, zero, suc, ◌+◌, ◌<◌, ◌≤◌, ◌≡◌, refl, sym, ap, ◌∙◌, inl, inr, Bool, true, false, ◌&&◌, Option,
  none, some, List, [], ◌∷◌, ◌==◌, if◌then◌else◌, length, Bool-cases, arith,
}
use orbit_cloud.Base.Errors.{Result, ok, Result-cases}
use orbit_cloud.Drive.{FolderRow, Drive, is_kept, find_folder, load_folder_row, ended}
use orbit_cloud.Drive.Action.{
  World, ◌>>=◌, on_drive, pure, Keeps, Keeps-bind, Keeps-lift, Keeps-asks, Keeps-refuse_if,
  Keeps-asks_bind,
}
use orbit_cloud.Drive.Resolve.{with_folder}
use orbit_cloud.Drive.Calls.{answered}
use orbit_cloud.Drive.Keeping.Chains.{target_folder-Keeps}
use orbit_cloud.Drive.Move.{
  MoveArg, update_folder, place_folder, check_not_below, place_folder_in, move_folder_same_bucket,
  move_folder,
}

-- The chain of folders up to the root of a bucket.
pub data Rooted (d : Drive) (bucket_id : ℕ) : ℕ → Type 0 where
  root : Rooted d bucket_id 0
  up :
      (cur : ℕ) (f : FolderRow)
      → load_folder_row d bucket_id cur ≡ ok f
      → Rooted d bucket_id f.parent_id
      → Rooted d bucket_id cur

-- The ids that are given are below the next one.
abbrev pub IsBelow : ℕ → List FolderRow → Type 0
IsBelow bound [] = Unit {0}
IsBelow bound (f ∷ rest) = (f.id < bound) × IsBelow bound rest

abbrev pub StillRooted : ℕ → ℕ → Drive → Type 0
StillRooted bucket_id cur d = IsBelow d.next_folder_id d.folders × Rooted d bucket_id cur

find_folder-update :
    (test : FolderRow → Bool) (id : ℕ) (change : FolderRow → FolderRow) (rows : List FolderRow)
    {f : FolderRow}
    → ((g : FolderRow) → test (change g) ≡ test g)
    → find_folder test rows ≡ ok f
    → find_folder test (update_folder id change rows) ≡ ok (if f.id == id then change f else f)
unfolding find_folder update_folder
find_folder-update test id change [] same e = cc
find_folder-update test id change (g ∷ rest) {f} same e = elim (Bool-cases (test g)) [
  | inr b ↦
      let later = find_folder-update test id change rest same (ground (arith, e, b)) in
      elim (Bool-cases (g.id == id)) [ inl c ↦ rw (c, same g, b) later | inr c ↦ rw (c, b) later ]
  | inl b ↦
      let head : g ≡ f = ground (arith, e, b) in
      rw (sym head)
        (elim (Bool-cases (g.id == id)) [ inl c ↦ rw (c, same g, b) refl | inr c ↦ rw (c, b) refl ])
]

found_id :
    (test : FolderRow → Bool) (bound id : ℕ) (rows : List FolderRow) {f : FolderRow}
    → ((g : FolderRow) → test g ≡ true → g.id ≡ id)
    → IsBelow bound rows
    → find_folder test rows ≡ ok f
    → (f.id ≡ id) × (id < bound)
unfolding find_folder
found_id test bound id [] by_id below e = cc
found_id test bound id (g ∷ rest) {f} by_id (lower, below) e = elim (Bool-cases (test g)) [
  | inr b ↦ found_id test bound id rest {f = f} by_id below (ground (arith, e, b))
  | inl b ↦
      let head : g ≡ f = ground (arith, e, b) in
      let named : g.id ≡ id = by_id g b in rw (sym head) (named, omega (arith, named, lower))
]

loaded :
    (d : Drive) (bucket_id cur : ℕ) {f : FolderRow}
    → IsBelow d.next_folder_id d.folders
    → load_folder_row d bucket_id cur ≡ ok f
    → (f.id ≡ cur) × (cur < d.next_folder_id)
unfolding load_folder_row
loaded d bucket_id cur below e =
    found_id (λ f. is_kept f.deleted_at && (f.id == cur && f.bucket_id == bucket_id))
      d.next_folder_id cur d.folders (λ g b. ground (arith, b)) below e

IsBelow-weaken : (k l : ℕ) (rows : List FolderRow) → k ≤ l → IsBelow k rows → IsBelow l rows
IsBelow-weaken k l [] h p = tt
IsBelow-weaken k l (f ∷ rest) h (lower, p) = (omega arith, IsBelow-weaken k l rest h p)

-- A new folder, which has a new id, hides none.
StillRooted-with_folder :
    (bucket_id : ℕ) (f : FolderRow) (d : Drive) (cur : ℕ)
    → f.id ≡ d.next_folder_id
    → IsBelow d.next_folder_id d.folders
    → Rooted d bucket_id cur
    → Rooted (with_folder f d) bucket_id cur
unfolding load_folder_row find_folder
StillRooted-with_folder bucket_id f d _ new below root = root
StillRooted-with_folder bucket_id f d _ new below (up cur g e above) =
    let (named, lower) = loaded d bucket_id cur below e in
    let other : (f.id == cur) ≡ false = ground arith in
    let unfound : (is_kept f.deleted_at && (f.id == cur && f.bucket_id == bucket_id)) ≡ false =
      ground arith in
    up cur g (rw unfound e) (StillRooted-with_folder bucket_id f d g.parent_id new below above)

grown :
    (bucket_id cur : ℕ) (f : FolderRow) (d : Drive)
    → f.id ≡ d.next_folder_id
    → StillRooted bucket_id cur d
    → StillRooted bucket_id cur (with_folder f d)
grown bucket_id cur f d new (below, rooted) = (
  (
    omega arith,
    IsBelow-weaken d.next_folder_id (d.next_folder_id + 1) d.folders (omega arith) below,
  ),
  StillRooted-with_folder bucket_id f d cur new below rooted,
)

IsBelow-update_folder :
    (bound id parent_id : ℕ) (name : List ℕ) (rows : List FolderRow)
    → IsBelow bound rows
    → IsBelow bound (update_folder id (place_folder parent_id name) rows)
unfolding update_folder
IsBelow-update_folder bound id parent_id name [] p = tt
IsBelow-update_folder bound id parent_id name (f ∷ rest) (lower, p) =
    let later = IsBelow-update_folder bound id parent_id name rest p in
    elim (Bool-cases (f.id == id)) [ inl b ↦ rw b (lower, later) | inr b ↦ rw b (lower, later) ]

module _ (bucket_id id parent_id : ℕ) (name : List ℕ) (d : Drive) where
  abbrev placed : Drive
  placed = record d { folders = update_folder id (place_folder parent_id name) d.folders }

  load-placed :
      (cur : ℕ) {f : FolderRow}
      → load_folder_row d bucket_id cur ≡ ok f
      → load_folder_row placed bucket_id cur
        ≡ ok (if f.id == id then place_folder parent_id name f else f)
  unfolding load_folder_row
  load-placed cur e =
      find_folder-update (λ f. is_kept f.deleted_at && (f.id == cur && f.bucket_id == bucket_id)) id
        (place_folder parent_id name) d.folders (λ g. refl) e

  -- Where the walk up from the new parent ends well, that chain is not touched.
  walked :
      (fuel cur : ℕ)
      → IsBelow d.next_folder_id d.folders
      → check_not_below d bucket_id id fuel cur ≡ some (ok tt)
      → Rooted placed bucket_id cur
  unfolding check_not_below
  walked zero cur below e = cc
  walked (suc fuel) cur below e = elim (Bool-cases (cur == 0)) [
    | inl b ↦ let at_root : cur ≡ 0 = ground arith in rw at_root root
    | inr b ↦ elim (Bool-cases (cur == id)) [
      | inl c ↦ ground (arith, e, b, c)
      | inr c ↦ elim (Result-cases (load_folder_row d bucket_id cur)) [
        | inr (failure, l) ↦ ground (arith, e, b, c, l)
        | inl (p, l) ↦
            let (named, lower) = loaded d bucket_id cur below l in
            let other : (p.id == id) ≡ false = ground arith in
            let unmoved : load_folder_row placed bucket_id cur ≡ ok p =
              load-placed cur l ∙ rw other refl in
            up cur p unmoved (walked fuel p.parent_id below (ground (arith, e, b, c, l)))
      ]
    ]
  ]

  still_up :
      (cur : ℕ)
      → Rooted placed bucket_id parent_id
      → Rooted d bucket_id cur
      → Rooted placed bucket_id cur
  still_up _ to_parent root = root
  still_up _ to_parent (up cur f e above) = elim (Bool-cases (f.id == id)) [
    | inl b ↦ up cur (place_folder parent_id name f) (load-placed cur e ∙ rw b refl) to_parent
    | inr b ↦ up cur f (load-placed cur e ∙ rw b refl) (still_up f.parent_id to_parent above)
  ]

ended-ok : (r : Option (Result (Unit {0}))) → ended r ≡ ok tt → r ≡ some (ok tt)
ended-ok none e = cc
ended-ok (some r) e = ap some e

place_folder_in-Keeps :
    {S : Type 0} (bucket_id : ℕ) (folder : FolderRow) (parent_id : ℕ) (name : List ℕ) (cur : ℕ)
    → Keeps {S = S} (StillRooted bucket_id cur) (place_folder_in bucket_id folder parent_id name)
unfolding place_folder_in on_drive pure ◌>>=◌
place_folder_in-Keeps bucket_id folder parent_id name cur =
    Keeps-asks_bind (StillRooted bucket_id cur) _ _ (λ passed w e kept.
      let (below, rooted) = kept in
      let d = w.drive in
      let to_parent =
        walked bucket_id folder.id parent_id name d (suc (length d.folders)) parent_id below
          (ended-ok _ e) in
      (
        IsBelow-update_folder d.next_folder_id folder.id parent_id name d.folders below,
        still_up bucket_id folder.id parent_id name d cur to_parent rooted,
      ))

-- Through the move of a folder, answered with or without success, each folder of the bucket from
-- which the parents lead up to the root keeps that, the moved folder with all that is below it too,
-- where the ids of the folders are below the next one.
pub move_folder-Rooted :
    {S : Type 0} (to_lower : List ℕ → List ℕ) (equal_fold : List ℕ → List ℕ → Bool) (arg : MoveArg)
    (cur : ℕ) (w : World S)
    → StillRooted arg.src_bucket_id cur w.drive
    → StillRooted arg.src_bucket_id cur (answered (move_folder to_lower equal_fold arg) w).drive
unfolding move_folder move_folder_same_bucket
move_folder-Rooted to_lower equal_fold arg cur w =
    let P = StillRooted arg.src_bucket_id cur in
    let moves : Keeps P (move_folder to_lower equal_fold arg) =
      search
        (
          Keeps-bind P,
          Keeps-asks P,
          Keeps-lift P,
          Keeps-refuse_if P,
          target_folder-Keeps P to_lower (grown arg.src_bucket_id cur),
          place_folder_in-Keeps arg.src_bucket_id,
        )
        depth 14 in
    moves.kept w
