-- ===== src/Groups/Listing.antt =====
-- server/user_group.go: `ListGroups` and `ListGroupMembers`, on the pages of common/page.go.
use orbit_cloud.Base.{
  ℕ, Bool, true, false, not, ◌&&◌, none, some, List, [], ◌∷◌, ◌++◌, ◌==◌, if◌then◌else◌, length,
}
use orbit_cloud.Base.Errors.{Result, ok, ◌>>=◌}
use orbit_cloud.Base.Int.{ℤ}
use orbit_cloud.Access.{mem, is_admin}
use orbit_cloud.Auth.{Accounts, get_user, find_user}
use orbit_cloud.Page.{TimeInfo, Columns, new_option, page_query}
use orbit_cloud.Groups.{UserGroup, UserGroupMember, Groups, load_group, user_group_ids}

-- created_at DESC
unfoldable newest_first {ℓ} : {Row : Type ℓ} → List Row → List Row
newest_first [] = []
newest_first (row ∷ rest) = newest_first rest ++ row ∷ []

abbrev group_columns : Columns UserGroup
group_columns = record { id_of = λ g. g.id; created_at = λ g. g.created_at; key_list = [] }

abbrev member_columns : Columns UserGroupMember
member_columns = record { id_of = λ m. m.id; created_at = λ m. m.created_at; key_list = [] }

-- No key is asked for, so LIKE is not either.
abbrev no_like : List ℕ → List ℕ → Bool
no_like text pattern = false

abbrev any_time : TimeInfo
any_time = record { start_time = none; end_time = none }

unfoldable shown_groups : (UserGroup → Bool) → List UserGroup → List UserGroup
shown_groups shown [] = []
shown_groups shown (g ∷ rest) =
    let others = shown_groups shown rest in if not g.deleted && shown g then g ∷ others else others

unfoldable page_of_groups : ℤ → ℤ → (UserGroup → Bool) → Groups → ℕ × List UserGroup
unfolding shown_groups newest_first new_option page_query
page_of_groups page page_size shown db =
    let rows = newest_first (shown_groups shown db.groups) in
    let found = page_query no_like group_columns (new_option page page_size) any_time rows in
    (found.total, found.list)

-- `ListGroups`
unfoldable list_groups : Accounts → ℕ → ℤ → ℤ → Groups → Result (ℕ × List UserGroup)
unfolding get_user page_of_groups
list_groups accounts user_id page page_size db = get_user accounts user_id >>= λ user.
    let mine = user_group_ids user_id db in
    if is_admin user.permission_level
    then ok (page_of_groups page page_size (λ g. true) db)
    else if length mine == 0
    then ok (0, [])
    else ok (page_of_groups page page_size (λ g. mem g.id mine) db)

-- `MemberInfo`
record MemberInfo : Type 0 where
  pub member : UserGroupMember
  pub username : List ℕ
  pub name : List ℕ

unfoldable members_of : ℕ → List UserGroupMember → List UserGroupMember
members_of group_id [] = []
members_of group_id (m ∷ rest) =
    let others = members_of group_id rest in
    if not m.deleted && m.group_id == group_id then m ∷ others else others

-- A member whose user is deleted is left out.
unfoldable with_users : Accounts → List UserGroupMember → List MemberInfo
with_users accounts [] = []
with_users accounts (m ∷ rest) = elim (find_user (λ u. u.id == m.user_id) accounts.users) [
  | none ↦ with_users accounts rest
  | some u ↦ record { member = m; username = u.username; name = u.name } ∷ with_users accounts rest
]

-- `ListGroupMembers`
unfoldable list_group_members : Accounts → ℕ → ℤ → ℤ → Groups → Result (ℕ × List MemberInfo)
unfolding load_group members_of newest_first new_option page_query with_users
list_group_members accounts group_id page page_size db = load_group group_id db >>= λ g.
    let rows = newest_first (members_of group_id db.members) in
    let found = page_query no_like member_columns (new_option page page_size) any_time rows in
    ok (found.total, with_users accounts found.list)
