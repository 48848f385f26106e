-- ===== src/Access/Http/Caching.antt =====
-- The user and the groups that the checks keep change no verdict.
use mathlib.Core.Path.{subst}
use orbit_cloud.Base.{
  ℕ, zero, suc, ◌≡◌, refl, ◌⊎◌, inl, inr, ◌||◌, Option, some, none, List, ◌∷◌, ◌==◌, if◌then◌else◌,
  Bool-cases,
}
use orbit_cloud.Base.Errors.{Result-cases, Error, Result, ok, err, forbidden, ◌>>=◌}
use orbit_cloud.Access.{
  VisibleToGroups, blank, malformed, listed, Isable, folder_unusable, folder_usable,
  folder_deleting, User, Bucket, Folder, Database, is_admin, mem, load_folder,
}
use orbit_cloud.Access.Walk.{walk, reachable}
use orbit_cloud.Access.Rule.{item_visible_rule}
use orbit_cloud.Access.Http.{
  can_access, perm_user_active, Loaded, ensure_perm_user, ensure_groups, perm_restricted_access,
  perm_item_access_with, perm_bucket_access_with, perm_folder_access_with,
  perm_ancestors_access_with,
}

-- The same checks, loading what they need each time.
unfoldable pub restricted_access : Database → ℕ → VisibleToGroups → Result (Unit {0})
restricted_access db user_id v = perm_user_active db user_id >>= λ user.
    if is_admin user.permission_level
    then ok tt
    else db.user_group_ids user_id >>= λ groups. item_visible_rule v (some user) groups

unfoldable pub item_access : Database → ℕ → VisibleToGroups → Result (Unit {0})
unfolding restricted_access
item_access db user_id blank = ok tt
item_access db user_id malformed = restricted_access db user_id malformed
item_access db user_id (listed ids) = restricted_access db user_id (listed ids)

unfoldable pub bucket_access : Database → ℕ → Bucket → Result (Unit {0})
bucket_access db user_id bucket = perm_user_active db user_id >>= λ user.
    if can_access user.permission_level bucket.permission_level then ok tt else err forbidden

-- What is kept is what a query gives.
abbrev pub IsFresh : Database → ℕ → Loaded → Type 0
IsFresh db user_id c =
    ((c.user ≡ none)
      ⊎ ((user : User) × (c.user ≡ some user) × (perm_user_active db user_id ≡ ok user)))
    × ((c.groups ≡ none)
        ⊎ ((gs : List ℕ) × (c.groups ≡ some gs) × (db.user_group_ids user_id ≡ ok gs)))

-- The cached check gives what the plain one does, and keeps what is fresh.
abbrev pub Same : Database → ℕ → Result Loaded → Result (Unit {0}) → Type 0
Same db user_id (ok c) r = (r ≡ ok tt) × IsFresh db user_id c
Same db user_id (err e) r = r ≡ err e

pub Same-err :
    (db : Database) (user_id : ℕ) {r : Result Loaded} {s : Result (Unit {0})} {e : Error}
    → Same db user_id r s
    → r ≡ err e
    → s ≡ err e
Same-err db user_id {s = s} same q = subst (λ r. Same db user_id r s) q same

pub Same-ok :
    (db : Database) (user_id : ℕ) {r : Result Loaded} {s : Result (Unit {0})} {c : Loaded}
    → Same db user_id r s
    → r ≡ ok c
    → (s ≡ ok tt) × IsFresh db user_id c
Same-ok db user_id {s = s} same q = subst (λ r. Same db user_id r s) q same

-- Loading the user: the error of the query, or a user that it gives and a fresh rest.
data UserLoads (db : Database) (user_id : ℕ) (c : Loaded) : Type 0 where
  user_fails :
      (e : Error)
      → ensure_perm_user db user_id c ≡ err e
      → perm_user_active db user_id ≡ err e
      → UserLoads db user_id c
  user_loads :
      (user : User) (c1 : Loaded)
      → ensure_perm_user db user_id c ≡ ok (user, c1)
      → perm_user_active db user_id ≡ ok user
      → IsFresh db user_id c1
      → UserLoads db user_id c

user_cases :
    (db : Database) (user_id : ℕ) (c : Loaded) → IsFresh db user_id c → UserLoads db user_id c
unfolding ensure_perm_user
user_cases db user_id c (inr (user, u, q), g) =
    user_loads user c (rw u refl) q (inr (user, u, q), g)
user_cases db user_id c (inl u, g) = elim (Result-cases (perm_user_active db user_id)) [
  | inr (e, q) ↦ user_fails e (rw (u, q) refl) q
  | inl (user, q) ↦
      user_loads user (record c { user = some user }) (rw (u, q) refl) q (inr (user, refl, q), g)
]

data GroupsLoad (db : Database) (user_id : ℕ) (c : Loaded) : Type 0 where
  groups_fail :
      (e : Error)
      → ensure_groups db user_id c ≡ err e
      → db.user_group_ids user_id ≡ err e
      → GroupsLoad db user_id c
  groups_load :
      (gs : List ℕ) (c1 : Loaded)
      → ensure_groups db user_id c ≡ ok (gs, c1)
      → db.user_group_ids user_id ≡ ok gs
      → IsFresh db user_id c1
      → GroupsLoad db user_id c

groups_cases :
    (db : Database) (user_id : ℕ) (c : Loaded) → IsFresh db user_id c → GroupsLoad db user_id c
unfolding ensure_groups
groups_cases db user_id c (u, inr (gs, g, q)) = groups_load gs c (rw g refl) q (u, inr (gs, g, q))
groups_cases db user_id c (u, inl g) = elim (Result-cases (db.user_group_ids user_id)) [
  | inr (e, q) ↦ groups_fail e (rw (g, q) refl) q
  | inl (gs, q) ↦
      groups_load gs (record c { groups = some gs }) (rw (g, q) refl) q (u, inr (gs, refl, q))
]

pub Same-bucket :
    (db : Database) (user_id : ℕ) (bucket : Bucket) (c : Loaded)
    → IsFresh db user_id c
    → Same db user_id
        (perm_bucket_access_with db user_id bucket c)
        (bucket_access db user_id bucket)
unfolding perm_bucket_access_with bucket_access
Same-bucket db user_id bucket c h = elim (user_cases db user_id c h) [
  | user_fails e p q ↦ rw (p, q) refl
  | user_loads user c1 p q fresh ↦
      elim (Bool-cases (can_access user.permission_level bucket.permission_level)) [
        | inl b ↦ rw (p, q, b) (refl, fresh)
        | inr b ↦ rw (p, q, b) refl
      ]
]

Same-restricted :
    (db : Database) (user_id : ℕ) (v : VisibleToGroups) (c : Loaded)
    → IsFresh db user_id c
    → Same db user_id (perm_restricted_access db user_id v c) (restricted_access db user_id v)
unfolding perm_restricted_access restricted_access
Same-restricted db user_id v c h = elim (user_cases db user_id c h) [
  | user_fails e p q ↦ rw (p, q) refl
  | user_loads user c1 p q fresh ↦ elim (Bool-cases (is_admin user.permission_level)) [
    | inl b ↦ rw (p, q, b) (refl, fresh)
    | inr b ↦ elim (groups_cases db user_id c1 fresh) [
      | groups_fail e p' q' ↦ rw (p, q, b, p', q') refl
      | groups_load gs c2 p' q' fresh' ↦ elim (Result-cases (item_visible_rule v (some user) gs)) [
        | inl (done, r) ↦ rw (p, q, b, p', q', r) (refl, fresh')
        | inr (e, r) ↦ rw (p, q, b, p', q', r) refl
      ]
    ]
  ]
]

pub Same-item :
    (db : Database) (user_id : ℕ) (v : VisibleToGroups) (c : Loaded)
    → IsFresh db user_id c
    → Same db user_id (perm_item_access_with db user_id v c) (item_access db user_id v)
unfolding perm_item_access_with item_access
Same-item db user_id blank c h = (refl, h)
Same-item db user_id malformed c h = Same-restricted db user_id malformed c h
Same-item db user_id (listed ids) c h = Same-restricted db user_id (listed ids) c h

abbrev pub folder_access : Database → ℕ → Folder → Result (Unit {0})
folder_access db user_id = reachable (λ f. item_access db user_id f.visible_to_groups)

Same-folder :
    (db : Database) (user_id : ℕ) (f : Folder) (c : Loaded)
    → IsFresh db user_id c
    → Same db user_id (perm_folder_access_with db user_id f c) (folder_access db user_id f)
unfolding perm_folder_access_with
Same-folder db user_id f c h = by_isable f.isable refl
  where
    by_isable :
        (s : Isable)
        → f.isable ≡ s
        → Same db user_id (perm_folder_access_with db user_id f c) (folder_access db user_id f)
    by_isable folder_unusable q = rw q refl
    by_isable folder_usable q = rw q (Same-item db user_id f.visible_to_groups c h)
    by_isable folder_deleting q = rw q (Same-item db user_id f.visible_to_groups c h)

abbrev pub SameWalk : Database → ℕ → Option (Result Loaded) → Option (Result (Unit {0})) → Type 0
SameWalk db user_id none r = r ≡ none
SameWalk db user_id (some (err e)) r = r ≡ some (err e)
SameWalk db user_id (some (ok c)) r = (r ≡ some (ok tt)) × IsFresh db user_id c

-- The walk that keeps the user and the groups it loaded ends, errs and succeeds as the walk that
-- loads them for each folder, and what it keeps stays fresh.
pub perm_ancestors-SameWalk :
    (db : Database) (user_id bucket_id fuel : ℕ) (seen : List ℕ) (cur : ℕ) (c : Loaded)
    → IsFresh db user_id c
    → SameWalk db user_id
        (perm_ancestors_access_with db user_id bucket_id fuel seen cur c)
        (walk db.folders bucket_id (folder_access db user_id) fuel seen cur)
unfolding perm_ancestors_access_with walk
perm_ancestors-SameWalk db user_id bucket_id zero seen cur c h = refl
perm_ancestors-SameWalk db user_id bucket_id (suc fuel) seen cur c h =
    elim (Bool-cases (cur == 0 || mem cur seen)) [
      | inl b ↦ rw b (refl, h)
      | inr b ↦ elim (Result-cases (load_folder db.folders bucket_id cur)) [
        | inr (e, l) ↦ rw (b, l) refl
        | inl (f, l) ↦
            let same = Same-folder db user_id f c h in
            elim (Result-cases (perm_folder_access_with db user_id f c)) [
              | inr (e, p) ↦ rw (b, l, p, Same-err db user_id same p) refl
              | inl (c1, p) ↦
                  let (q, fresh) = Same-ok db user_id same p in
                  rw (b, l, p, q)
                    (perm_ancestors-SameWalk db user_id bucket_id fuel (cur ∷ seen) f.parent_id c1
                      fresh)
            ]
      ]
    ]
