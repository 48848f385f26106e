-- ===== src/Groups.antt =====
-- server/user_group.go with model/user_group.go: the groups that items are shown to, and their
-- members. Names are lists of runes. Both tables keep their deleted rows, which the unique indexes
-- see and the queries do not. No query fails; a table gives each new row the next id.
pub mod Listing
mod Rows
pub mod Members
mod Tests
use orbit_cloud.Base.{
  ℕ, suc, ◌+◌, ◌≡◌, Bool, true, false, not, ◌&&◌, ◌||◌, Option, none, some, List, [], ◌∷◌, ◌++◌,
  map, ◌==◌, ltb, if◌then◌else◌, length,
}
use orbit_cloud.Base.Errors.{Result, ok, err, invalid_input, not_found, conflict, ◌>>=◌}
use orbit_cloud.Base.Int.{ℤ, pos, negsuc}
use orbit_cloud.Names.{same_text, trim_space}
use orbit_cloud.Access.{mem}
use orbit_cloud.Auth.{Accounts, Account, get_user, is_active, is_empty, find_user}
use orbit_cloud.Page.{PageInfo, PaginatedResult, TimeInfo, Columns, new_option, page_query}

-- `UserGroup`; `created_at` orders the rows that are made one after another.
pub record UserGroup : Type 0 where
  pub id : ℕ
  pub name : List ℕ
  pub description : List ℕ
  pub created_by : ℕ
  pub status : ℤ
  pub created_at : ℕ
  pub deleted : Bool

-- `UserGroupMember`
pub record UserGroupMember : Type 0 where
  pub id : ℕ
  pub group_id : ℕ
  pub user_id : ℕ
  pub created_at : ℕ
  pub deleted : Bool

-- The tables, the oldest row first.
pub record Groups : Type 0 where
  pub groups : List UserGroup
  pub members : List UserGroupMember
  pub next_group_id : ℕ
  pub next_member_id : ℕ

unfoldable pub find_group : ℕ → List UserGroup → Option UserGroup
find_group id [] = none
find_group id (g ∷ rest) = if g.id == id && not g.deleted then some g else find_group id rest

-- `loadGroup`
unfoldable pub load_group : ℕ → Groups → Result UserGroup
unfolding find_group
load_group id db = elim (find_group id db.groups) [ none ↦ err not_found | some g ↦ ok g ]

-- `GetGroup`
abbrev pub get_group : ℕ → Groups → Result UserGroup
get_group = load_group

-- The unique index on the names, for a row with an id: rows that are deleted count.
unfoldable pub group_name_taken : ℕ → List ℕ → List UserGroup → Bool
group_name_taken id name [] = false
group_name_taken id name (g ∷ rest) =
    not (g.id == id) && same_text g.name name || group_name_taken id name rest

pub record CreateGroupArg : Type 0 where
  pub operator_id : ℕ
  pub name : List ℕ
  pub description : List ℕ

unfoldable pub new_group : CreateGroupArg → ℕ → ℕ → UserGroup
new_group arg id now = record {
  id = id;
  name = trim_space arg.name;
  description = arg.description;
  created_by = arg.operator_id;
  status = pos 1;
  created_at = now;
  deleted = false;
}

-- `CreateGroup`
unfoldable pub create_group : ℕ → CreateGroupArg → Groups → Result UserGroup × Groups
unfolding new_group group_name_taken
create_group now arg db =
    if is_empty (trim_space arg.name)
    then (err invalid_input, db)
    else if group_name_taken db.next_group_id (trim_space arg.name) db.groups
    then (err conflict, db)
    else (
      ok (new_group arg db.next_group_id now),
      record db {
        groups = db.groups ++ new_group arg db.next_group_id now ∷ [];
        next_group_id = suc db.next_group_id;
      },
    )

pub record UpdateGroupArg : Type 0 where
  pub operator_id : ℕ
  pub group_id : ℕ
  pub name : List ℕ
  pub description : List ℕ
  pub status : Option ℤ

-- status is 0 or 1
abbrev pub is_status : ℤ → Bool
is_status (negsuc k) = false
is_status (pos k) = ltb k 2

abbrev pub status_allowed : Option ℤ → Bool
status_allowed none = true
status_allowed (some status) = is_status status

abbrev pub has_status : Option ℤ → Bool
has_status none = false
has_status (some status) = true

abbrev pub status_or : ℤ → Option ℤ → ℤ
status_or old none = old
status_or old (some status) = status

-- The update of a row; an empty field is left.
unfoldable pub updated_group : UpdateGroupArg → UserGroup → UserGroup
updated_group arg g = record g {
  name = if is_empty arg.name then g.name else trim_space arg.name;
  description = if is_empty arg.description then g.description else arg.description;
  status = status_or g.status arg.status;
}

unfoldable pub update_groups : ℕ → (UserGroup → UserGroup) → List UserGroup → List UserGroup
update_groups id change [] = []
update_groups id change (g ∷ rest) =
    (if g.id == id && not g.deleted then change g else g) ∷ update_groups id change rest

-- `UpdateGroup`
unfoldable pub update_group : UpdateGroupArg → Groups → Result UserGroup × Groups
unfolding updated_group update_groups group_name_taken load_group
update_group arg db = elim (load_group arg.group_id db) [
  | err e ↦ (err e, db)
  | ok g ↦
      let left = record db { groups = update_groups arg.group_id (updated_group arg) db.groups } in
      if not (status_allowed arg.status)
      then (err invalid_input, db)
      else if is_empty arg.name && is_empty arg.description && not (has_status arg.status)
      then (err invalid_input, db)
      else if not (is_empty arg.name)
          && group_name_taken arg.group_id (trim_space arg.name) db.groups
      then (err conflict, db)
      else (load_group arg.group_id left, left)
]

-- `DeleteGroup`
unfoldable pub delete_group : ℕ → Groups → Result (Unit {0}) × Groups
unfolding update_groups load_group
delete_group id db = elim (load_group id db) [
  | err e ↦ (err e, db)
  | ok g ↦
      (ok tt, record db { groups = update_groups id (λ g. record g { deleted = true }) db.groups })
]

-- The unique index on the pairs of group and user: rows that are deleted count.
unfoldable pub member_taken : ℕ → ℕ → List UserGroupMember → Bool
member_taken group_id user_id [] = false
member_taken group_id user_id (m ∷ rest) =
    m.group_id == group_id && m.user_id == user_id || member_taken group_id user_id rest

-- The row of a new member.
unfoldable pub insert_member : ℕ → ℕ → ℕ → Groups → Result (Unit {0}) × Groups
unfolding member_taken
insert_member now group_id user_id db =
    if member_taken group_id user_id db.members then (err conflict, db) else (
      ok tt,
      record db {
        members =
            db.members
            ++ record {
              id = db.next_member_id;
              group_id = group_id;
              user_id = user_id;
              created_at = now;
              deleted = false;
            }
              ∷ [];
        next_member_id = suc db.next_member_id;
      },
    )

-- `AddGroupMember`
unfoldable pub add_group_member : Accounts → ℕ → ℕ → ℕ → Groups → Result (Unit {0}) × Groups
unfolding insert_member load_group
add_group_member accounts now group_id user_id db = elim (load_group group_id db) [
  | err e ↦ (err e, db)
  | ok g ↦
      if not (is_active g.status) then (err not_found, db) else elim (get_user accounts user_id) [
        | err e ↦ (err e, db)
        | ok u ↦ insert_member now group_id user_id db
      ]
]

-- The row of a member that is not deleted.
abbrev pub is_member : ℕ → ℕ → UserGroupMember → Bool
is_member group_id user_id m = m.group_id == group_id && m.user_id == user_id && not m.deleted

unfoldable pub member_rows : ℕ → ℕ → List UserGroupMember → ℕ
member_rows group_id user_id [] = 0
member_rows group_id user_id (m ∷ rest) =
    let others = member_rows group_id user_id rest in
    if is_member group_id user_id m then suc others else others

-- The soft deletion of rows.
unfoldable pub delete_members : ℕ → ℕ → List UserGroupMember → List UserGroupMember
delete_members group_id user_id [] = []
delete_members group_id user_id (m ∷ rest) =
    (if is_member group_id user_id m then record m { deleted = true } else m)
    ∷ delete_members group_id user_id rest

-- `RemoveGroupMember`
unfoldable pub remove_group_member : ℕ → ℕ → Groups → Result (Unit {0}) × Groups
unfolding member_rows delete_members load_group
remove_group_member group_id user_id db = elim (load_group group_id db) [
  | err e ↦ (err e, db)
  | ok g ↦
      if member_rows group_id user_id db.members == 0
      then (err not_found, db)
      else (ok tt, record db { members = delete_members group_id user_id db.members })
]

-- `UserGroupIDs`
unfoldable pub group_ids_of : ℕ → List UserGroupMember → List ℕ
group_ids_of user_id [] = []
group_ids_of user_id (m ∷ rest) =
    let others = group_ids_of user_id rest in
    if m.user_id == user_id && not m.deleted then m.group_id ∷ others else others

abbrev pub user_group_ids : ℕ → Groups → List ℕ
user_group_ids user_id db = group_ids_of user_id db.members

-- `ListMyGroups`
unfoldable pub active_groups : List ℕ → List UserGroup → List UserGroup
active_groups ids [] = []
active_groups ids (g ∷ rest) =
    let others = active_groups ids rest in
    if mem g.id ids && is_active g.status && not g.deleted then g ∷ others else others

abbrev pub list_my_groups : ℕ → Groups → List UserGroup
list_my_groups user_id db = active_groups (user_group_ids user_id db) db.groups

-- The operations that change the tables, as they are called one after another.
pub data Call : Type 0 where
  create : ℕ → CreateGroupArg → Call
  update : UpdateGroupArg → Call
  delete : ℕ → Call
  add : Accounts → ℕ → ℕ → ℕ → Call
  remove : ℕ → ℕ → Call

unfoldable pub apply : Call → Groups → Groups
unfolding create_group update_group delete_group add_group_member remove_group_member
apply (create now arg) db = (create_group now arg db).1
apply (update arg) db = (update_group arg db).1
apply (delete id) db = (delete_group id db).1
apply (add accounts now group_id user_id) db = (add_group_member accounts now group_id user_id db).1
apply (remove group_id user_id) db = (remove_group_member group_id user_id db).1

unfoldable pub run : List Call → Groups → Groups
unfolding apply
run [] db = db
run (call ∷ rest) db = run rest (apply call db)
