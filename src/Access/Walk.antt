-- ===== src/Access/Walk.antt =====
-- The walks up the chain of folders: `CheckAncestorsWritable` and `checkAncestorsAccessTree` of
-- server/visibility.go, `checkAncestorsUsable` of server/file.go, `permAncestorsAccessWith` of
-- api/perm.go and `checkAncestorsVisible` of smb_server/go/session.go. The loop runs on fuel;
-- one round for each folder and one more are enough.
pub mod Rounds
pub mod Chain
use orbit_cloud.Base.{
  ℕ, zero, suc, ◌+◌, ◌≤◌, ◌<◌, ◌≡◌, ◌≢◌, refl, ◌⊎◌, inl, inr, Bool, true, false, not, ◌&&◌, ◌||◌,
  Option, none, some, List, [], ◌∷◌, ◌==◌, if◌then◌else◌, length, Bool-cases, arith,
}
use orbit_cloud.Base.Errors.{Result, ok, err, not_found, forbidden, ◌>>=◌, ◌>>◌}
use orbit_cloud.Access.{
  Folder, Isable, folder_unusable, folder_usable, folder_deleting, mem, load_folder,
}

-- The checks of one folder. `access` is the check that differs from walk to walk.
abbrev pub reachable : (Folder → Result (Unit {0})) → Folder → Result (Unit {0})
reachable access f = elim f.isable [
  | folder_unusable ↦ err not_found
  | folder_usable ↦ access f
  | folder_deleting ↦ access f
]

abbrev pub writable : Folder → Result (Unit {0})
writable f = elim f.isable [
  | folder_unusable ↦ err not_found
  | folder_usable ↦ ok tt
  | folder_deleting ↦ err forbidden
]

-- The loop over the chain, with the folders met so far in `seen`; `none` is out of fuel.
unfoldable pub walk :
    List Folder → ℕ → (Folder → Result (Unit {0})) → ℕ → List ℕ → ℕ → Option (Result (Unit {0}))
walk folders bucket_id check zero seen cur = none
walk folders bucket_id check (suc fuel) seen cur =
    if cur == 0 || mem cur seen then some (ok tt) else elim (load_folder folders bucket_id cur) [
      | err e ↦ some (err e)
      | ok f ↦
          let rest = walk folders bucket_id check fuel (cur ∷ seen) f.parent_id in
          elim (check f) [ err e ↦ some (err e) | ok done ↦ rest ]
    ]

-- The loop of `checkAncestorsUsable`, which keeps no `seen`.
unfoldable pub walk_unguarded :
    List Folder → ℕ → (Folder → Result (Unit {0})) → ℕ → ℕ → Option (Result (Unit {0}))
walk_unguarded folders bucket_id check zero cur = none
walk_unguarded folders bucket_id check (suc fuel) cur =
    if cur == 0 then some (ok tt) else elim (load_folder folders bucket_id cur) [
      | err e ↦ some (err e)
      | ok f ↦
          let rest = walk_unguarded folders bucket_id check fuel f.parent_id in
          elim (check f) [ err e ↦ some (err e) | ok done ↦ rest ]
    ]

abbrev pub fuel_for : List Folder → ℕ
fuel_for folders = suc (length folders)

-- `CheckAncestorsWritable`
unfoldable pub check_ancestors_writable : List Folder → ℕ → ℕ → Option (Result (Unit {0}))
unfolding walk
check_ancestors_writable folders bucket_id folder_id =
    walk folders bucket_id writable (fuel_for folders) [] folder_id

-- `checkAncestorsUsable`, with the rounds it is given.
unfoldable pub check_ancestors_usable : List Folder → ℕ → ℕ → ℕ → Option (Result (Unit {0}))
unfolding walk_unguarded
check_ancestors_usable folders bucket_id fuel folder_id =
    walk_unguarded folders bucket_id (reachable (λ f. ok tt)) fuel folder_id
