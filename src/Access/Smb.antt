-- ===== src/Access/Smb.antt =====
-- smb_server/go/session.go: the checks of the SMB gateway, on the identity of a session. Its
-- cache of identities belongs to a library and is not modelled: an identity is one that
-- `loadSessionInfo` gave.
pub mod Agree
use orbit_cloud.Base.{
  ℕ, ◌≡◌, Bool, true, false, ◌&&◌, ◌||◌, Option, none, some, List, [], ◌∷◌, ◌==◌, leb,
  if◌then◌else◌, length,
}
use orbit_cloud.Base.Errors.{Error, Result, ok, err, forbidden, not_found, internal, ◌>>=◌, ◌>>◌}
use orbit_cloud.Access.{
  VisibleToGroups, blank, malformed, listed, User, Bucket, Folder, Database, is_admin,
}
use orbit_cloud.Access.Walk.{walk, reachable, fuel_for}
use orbit_cloud.Access.Rule.{distinct_from, shares_group}

pub record SessionInfo : Type 0 where
  pub user_id : ℕ
  pub permission_level : ℕ
  pub status : ℕ
  pub groups : List ℕ

-- The errors of the two queries in `loadSessionInfo`: a missing user is forbidden.
abbrev pub user_error : Error → Error
user_error not_found = forbidden
user_error e = internal

unfoldable pub session_of : Database → ℕ → User → Result SessionInfo
session_of db user_id u =
    if u.status == 1
    then elim (db.user_group_ids user_id) [
      | err e ↦ err internal
      | ok groups ↦ ok (record {
        user_id = u.id;
        permission_level = u.permission_level;
        status = u.status;
        groups = groups;
      })
    ]
    else err forbidden

-- `loadSessionInfo`
unfoldable pub load_session_info : Database → ℕ → Result SessionInfo
unfolding session_of
load_session_info db user_id = elim (db.get_user user_id) [
  | err e ↦ err (user_error e)
  | ok u ↦ session_of db user_id u
]

-- `checkBucketAccess`
unfoldable pub check_bucket_access : SessionInfo → Bucket → Result (Unit {0})
check_bucket_access info bucket =
    if bucket.status == 1
    then if bucket.owner_id == info.user_id || leb info.permission_level bucket.permission_level
      then ok tt
      else err forbidden
    else err forbidden

unfoldable pub check_groups : SessionInfo → List ℕ → Result (Unit {0})
check_groups info [] = err forbidden
check_groups info (g ∷ gs) = if shares_group info.groups (g ∷ gs) then ok tt else err forbidden

-- `checkItemVisible`
unfoldable pub check_item_visible : SessionInfo → VisibleToGroups → Result (Unit {0})
unfolding check_groups
check_item_visible info blank = ok tt
check_item_visible info malformed = if is_admin info.permission_level then ok tt else err forbidden
check_item_visible info (listed ids) =
    if is_admin info.permission_level then ok tt else check_groups info (distinct_from [] ids)

-- `checkAncestorsVisible`
unfoldable pub check_ancestors_visible :
    List Folder → SessionInfo → ℕ → ℕ → Option (Result (Unit {0}))
unfolding check_item_visible
check_ancestors_visible folders info bucket_id folder_id =
    walk folders bucket_id (reachable (λ f. check_item_visible info f.visible_to_groups))
      (fuel_for folders) [] folder_id
