-- ===== src/Access/Http.antt =====
-- api/perm.go: the checks of the HTTP handlers. The user and its groups are loaded when first
-- needed and kept for the rest of the request.
pub mod Caching
pub mod Precheck
use orbit_cloud.Base.{
  ℕ, zero, suc, ◌≡◌, Bool, true, false, ◌&&◌, ◌||◌, Option, none, some, List, [], ◌∷◌, ◌==◌, leb,
  if◌then◌else◌,
}
use orbit_cloud.Base.Errors.{Error, Result, ok, err, forbidden, not_found, ◌>>=◌, ◌>>◌}
use orbit_cloud.Access.{
  VisibleToGroups, blank, malformed, listed, Isable, folder_unusable, folder_usable,
  folder_deleting, User, Bucket, Folder, File, Database, is_admin, mem, load_file, load_folder,
  check_bucket_usable,
}
use orbit_cloud.Access.Walk.{fuel_for}
use orbit_cloud.Access.Rule.{item_visible_rule}

-- `canAccess`: a smaller level is a higher one.
abbrev pub can_access : ℕ → ℕ → Bool
can_access user_perm need_perm = leb user_perm need_perm

-- `permUserActive`
unfoldable pub perm_user_active : Database → ℕ → Result User
perm_user_active db user_id =
    db.get_user user_id >>= λ user. if user.status == 1 then ok user else err forbidden

-- The pointers `user` and `groups` that the checks of one request share.
pub record Loaded : Type 0 where
  pub user : Option User
  pub groups : Option (List ℕ)

abbrev pub nothing_loaded : Loaded
nothing_loaded = record { user = none; groups = none }

-- `ensurePermUser`
unfoldable pub ensure_perm_user : Database → ℕ → Loaded → Result (User × Loaded)
ensure_perm_user db user_id c = elim c.user [
  | some user ↦ ok (user, c)
  | none ↦ perm_user_active db user_id >>= λ user. ok (user, record c { user = some user })
]

-- The groups of the user, at the end of `permItemAccessWith`.
unfoldable pub ensure_groups : Database → ℕ → Loaded → Result (List ℕ × Loaded)
ensure_groups db user_id c = elim c.groups [
  | some groups ↦ ok (groups, c)
  | none ↦ db.user_group_ids user_id >>= λ groups. ok (groups, record c { groups = some groups })
]

-- `permItemAccessWith`, behind its test for blank.
unfoldable pub perm_restricted_access : Database → ℕ → VisibleToGroups → Loaded → Result Loaded
unfolding ensure_perm_user ensure_groups
perm_restricted_access db user_id v c = ensure_perm_user db user_id c >>= λ (user, c1).
    if is_admin user.permission_level
    then ok c1
    else ensure_groups db user_id c1 >>= λ (groups, c2).
        item_visible_rule v (some user) groups >>= λ allowed. ok c2

-- `permItemAccessWith`
unfoldable pub perm_item_access_with : Database → ℕ → VisibleToGroups → Loaded → Result Loaded
unfolding perm_restricted_access
perm_item_access_with db user_id blank c = ok c
perm_item_access_with db user_id malformed c = perm_restricted_access db user_id malformed c
perm_item_access_with db user_id (listed ids) c = perm_restricted_access db user_id (listed ids) c

-- `permBucketAccessWith`
unfoldable pub perm_bucket_access_with : Database → ℕ → Bucket → Loaded → Result Loaded
unfolding ensure_perm_user
perm_bucket_access_with db user_id bucket c = ensure_perm_user db user_id c >>= λ (user, c1).
    if can_access user.permission_level bucket.permission_level then ok c1 else err forbidden

-- The checks of one folder in `permAncestorsAccessWith`.
unfoldable pub perm_folder_access_with : Database → ℕ → Folder → Loaded → Result Loaded
unfolding perm_item_access_with
perm_folder_access_with db user_id f c = elim f.isable [
  | folder_unusable ↦ err not_found
  | folder_usable ↦ perm_item_access_with db user_id f.visible_to_groups c
  | folder_deleting ↦ perm_item_access_with db user_id f.visible_to_groups c
]

-- `permAncestorsAccessWith`; `none` is out of fuel.
unfoldable pub perm_ancestors_access_with :
    Database → ℕ → ℕ → ℕ → List ℕ → ℕ → Loaded → Option (Result Loaded)
unfolding perm_folder_access_with
perm_ancestors_access_with db user_id bucket_id zero seen cur c = none
perm_ancestors_access_with db user_id bucket_id (suc fuel) seen cur c =
    if cur == 0 || mem cur seen then some (ok c) else elim (load_folder db.folders bucket_id cur) [
      | err e ↦ some (err e)
      | ok f ↦ elim (perm_folder_access_with db user_id f c) [
        | err e ↦ some (err e)
        | ok c1 ↦ perm_ancestors_access_with db user_id bucket_id fuel (cur ∷ seen) f.parent_id c1
      ]
    ]

-- `return err` behind a walk.
abbrev pub behind_walk {ℓ} :
    {A : Type ℓ} → Option (Result Loaded) → (Loaded → Result A) → Option (Result A)
behind_walk none next = none
behind_walk (some (err e)) next = some (err e)
behind_walk (some (ok c)) next = some (next c)

-- The ends of `precheckFileRead` and `precheckFolderRead`.
unfoldable pub item_and_bucket :
    {A : Type 0} → Database → ℕ → VisibleToGroups → Bucket → A → Loaded → Result A
unfolding perm_item_access_with perm_bucket_access_with
item_and_bucket db user_id v bucket item c = perm_item_access_with db user_id v c >>= λ c1.
    perm_bucket_access_with db user_id bucket c1 >>= λ c2. ok item

-- `precheckFileRead`
unfoldable pub precheck_file_read : Database → ℕ → ℕ → ℕ → Option (Result File)
unfolding item_and_bucket perm_ancestors_access_with
precheck_file_read db user_id bucket_id file_id = elim (check_bucket_usable db bucket_id) [
  | err e ↦ some (err e)
  | ok bucket ↦ elim (load_file db.files bucket_id file_id) [
    | err e ↦ some (err e)
    | ok f ↦
        behind_walk
          (perm_ancestors_access_with db user_id bucket_id (fuel_for db.folders) [] f.folder_id
            nothing_loaded)
          (item_and_bucket db user_id f.visible_to_groups bucket f)
  ]
]

-- `precheckFolderRead`
unfoldable pub precheck_folder_read : Database → ℕ → ℕ → ℕ → Option (Result Folder)
unfolding item_and_bucket perm_ancestors_access_with
precheck_folder_read db user_id bucket_id folder_id = elim (check_bucket_usable db bucket_id) [
  | err e ↦ some (err e)
  | ok bucket ↦ elim (load_folder db.folders bucket_id folder_id) [
    | err e ↦ some (err e)
    | ok f ↦
        behind_walk
          (perm_ancestors_access_with db user_id bucket_id (fuel_for db.folders) [] f.parent_id
            nothing_loaded)
          (item_and_bucket db user_id f.visible_to_groups bucket f)
  ]
]

-- `precheckBucketWrite`, with `permBucketAccess`; `precheckBucketRead` is the same.
unfoldable pub precheck_bucket_write : Database → ℕ → ℕ → Result Bucket
unfolding check_bucket_usable perm_bucket_access_with
precheck_bucket_write db user_id bucket_id = check_bucket_usable db bucket_id >>= λ bucket.
    perm_bucket_access_with db user_id bucket nothing_loaded >>= λ c. ok bucket

-- `permOwnerOrAdmin`
unfoldable pub perm_owner_or_admin : Database → ℕ → ℕ → Result (Unit {0})
unfolding perm_user_active
perm_owner_or_admin db user_id owner_id =
    if user_id == owner_id
    then ok tt
    else perm_user_active db user_id >>= λ user.
        if is_admin user.permission_level then ok tt else err forbidden

-- `permCanManageBucket`; a level of 0 means that of the access.
unfoldable pub perm_can_manage_bucket : Database → ℕ → Bucket → Result (Unit {0})
unfolding perm_user_active
perm_can_manage_bucket db operator_id bucket =
    let need =
      if leb bucket.manage_permission_level 0
      then bucket.permission_level
      else bucket.manage_permission_level in
    if bucket.owner_id == operator_id
    then ok tt
    else perm_user_active db operator_id >>= λ op.
        if is_admin op.permission_level
        then ok tt
        else if can_access op.permission_level need
        then ok tt
        else err forbidden

-- `permGroupVisible`
unfoldable pub perm_group_visible : Database → ℕ → ℕ → Result (Unit {0})
unfolding perm_user_active
perm_group_visible db user_id group_id = perm_user_active db user_id >>= λ user.
    if is_admin user.permission_level
    then ok tt
    else db.user_group_ids user_id >>= λ groups.
        if mem group_id groups then ok tt else err forbidden
