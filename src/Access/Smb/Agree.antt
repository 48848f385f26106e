-- ===== src/Access/Smb/Agree.antt =====
-- What the SMB gateway admits, and what the HTTP handlers do.
use orbit_cloud.Base.{
  ℕ, ◌≡◌, refl, sym, ◌∙◌, ap, ◌⊎◌, ◌↔◌, inl, inr, true, false, some, List, [], ◌∷◌, ◌==◌,
  if◌then◌else◌, Bool-cases, arith,
}
use orbit_cloud.Base.Errors.{Result-cases, ok}
use orbit_cloud.Access.{VisibleToGroups, blank, malformed, listed, User, Bucket, Database, is_admin}
use orbit_cloud.Access.Rule.{distinct_from, item_visible_rule, rule_of_groups}
use orbit_cloud.Access.Http.{perm_user_active}
use orbit_cloud.Access.Walk.{walk, reachable, fuel_for}
use orbit_cloud.Access.Http.Caching.{folder_access, item_access, restricted_access, bucket_access}
use orbit_cloud.Access.Smb.{
  SessionInfo, session_of, load_session_info, check_bucket_access, check_item_visible, check_groups,
  check_ancestors_visible,
}

-- What an identity was made of.
load_session_info-ok :
    (db : Database) (user_id : ℕ) (info : SessionInfo)
    → load_session_info db user_id ≡ ok info
    → (user : User) × (perm_user_active db user_id ≡ ok user)
      × (info.permission_level ≡ user.permission_level)
      × (db.user_group_ids user_id ≡ ok info.groups)
      × (info.user_id ≡ user.id)
unfolding load_session_info session_of perm_user_active
load_session_info-ok db user_id info e = elim (Result-cases (db.get_user user_id)) [
  | inr (x, q) ↦ absurd (ground arith)
  | inl (u, q) ↦ elim (Result-cases (db.user_group_ids user_id)) [
    | inr (x, g) ↦ absurd (ground arith)
    | inl (gs, g) ↦
        let s : (u.status == 1) ≡ true = ground arith in
        (u, rw (q, s) refl, ground arith, ground arith, ground arith)
  ]
]

check_groups-rule :
    (info : SessionInfo) (user : User) (ids : List ℕ)
    → is_admin user.permission_level ≡ false
    → check_groups info ids ≡ rule_of_groups (some user) info.groups ids
unfolding check_groups rule_of_groups
check_groups-rule info user [] a = refl
check_groups-rule info user (x ∷ xs) a = rw a refl

restricted_of :
    (db : Database) (user_id : ℕ) (info : SessionInfo) (user : User) (v : VisibleToGroups)
    → perm_user_active db user_id ≡ ok user
    → db.user_group_ids user_id ≡ ok info.groups
    → restricted_access db user_id v ≡ (
        if is_admin user.permission_level
        then ok tt
        else item_visible_rule v (some user) info.groups)
unfolding restricted_access
restricted_of db user_id info user v active groups = rw (active, groups) refl

visible_of :
    (db : Database) (user_id : ℕ) (info : SessionInfo) (user : User) (v : VisibleToGroups)
    → perm_user_active db user_id ≡ ok user
    → info.permission_level ≡ user.permission_level
    → db.user_group_ids user_id ≡ ok info.groups
    → check_item_visible info v ≡ item_access db user_id v
unfolding check_item_visible item_access item_visible_rule
visible_of db user_id info user blank active level groups = refl
visible_of db user_id info user malformed active level groups =
    rw level (sym (restricted_of db user_id info user malformed active groups))
visible_of db user_id info user (listed ids) active level groups =
    elim (Bool-cases (is_admin user.permission_level)) [
      | inl a ↦
          rw (level, a)
            (sym (restricted_of db user_id info user (listed ids) active groups ∙ rw a refl))
      | inr a ↦
          rw (level, a)
            (check_groups-rule info user (distinct_from [] ids) a
              ∙ sym (restricted_of db user_id info user (listed ids) active groups ∙ rw a refl))
    ]

-- The gateway shows an item to an identity that it just loaded just where the HTTP handlers show
-- it to the user, and refuses it with the same error.
pub check_item_visible-item_access :
    (db : Database) (user_id : ℕ) (info : SessionInfo) (v : VisibleToGroups)
    → load_session_info db user_id ≡ ok info
    → check_item_visible info v ≡ item_access db user_id v
unfolding check_item_visible item_access item_visible_rule
check_item_visible-item_access db user_id info v e =
    let (user, active, level, groups, _) = load_session_info-ok db user_id info e in
    visible_of db user_id info user v active level groups

-- The gateway admits to a bucket in use its owner, and else whom the HTTP handlers admit.
pub check_bucket_access-bucket_access :
    (db : Database) (user_id : ℕ) (info : SessionInfo) (bucket : Bucket)
    → load_session_info db user_id ≡ ok info
    → bucket.status ≡ 1
    → (check_bucket_access info bucket ≡ ok tt)
      ↔ ((bucket.owner_id ≡ info.user_id) ⊎ (bucket_access db user_id bucket ≡ ok tt))
unfolding check_bucket_access bucket_access
check_bucket_access-bucket_access db user_id info bucket e s =
    let (user, active, level, groups, _) = load_session_info-ok db user_id info e in
    rw (active, level) ((λ admitted. ground arith), λ h. ground arith)

-- The gateway walks up the folders as the HTTP handlers do, for an identity that it just loaded.
pub check_ancestors_visible-walk :
    (db : Database) (user_id : ℕ) (info : SessionInfo) (bucket_id folder_id : ℕ)
    → load_session_info db user_id ≡ ok info
    → check_ancestors_visible db.folders info bucket_id folder_id
      ≡ walk db.folders bucket_id (folder_access db user_id) (fuel_for db.folders) [] folder_id
unfolding check_ancestors_visible
check_ancestors_visible-walk db user_id info bucket_id folder_id e =
    ap (λ check. walk db.folders bucket_id (reachable check) (fuel_for db.folders) [] folder_id)
      (λ i f. check_item_visible-item_access db user_id info f.visible_to_groups e i)
