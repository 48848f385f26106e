-- ===== src/Groups/Tests.antt =====
-- The theorems on groups at small tables.
use orbit_cloud.Base.{◌≡◌, ◌≢◌, refl, false, none, [], ◌∷◌, some, arith}
use orbit_cloud.Base.Errors.{ok, err, not_found}
use orbit_cloud.Base.Int.{pos}
use orbit_cloud.Access.{User, listed, mem}
use orbit_cloud.Access.Rule.{item_visible_rule}
use orbit_cloud.Auth.{Account, Accounts}
use orbit_cloud.Groups.{
  UserGroup, UserGroupMember, Groups, load_group, add_group_member, remove_group_member,
  delete_group, user_group_ids, add, run, group_ids_of,
}
use orbit_cloud.Groups.Members.{
  remove_group_member-add_group_member, delete_group-item_visible_rule,
}

abbrev ann : Account
ann = record {
  id = 1;
  username = b'a' ∷ [];
  password = [];
  name = [];
  email = [];
  permission_level = 2;
  status = pos 1;
  nt_hash = [];
  quota = none;
  last_login = none;
  deleted = false;
}

abbrev accounts : Accounts
accounts = record { users = ann ∷ []; tokens = []; next_user_id = 2; next_token_id = 1 }

abbrev staff : UserGroup
staff = record {
  id = 1;
  name = b's' ∷ [];
  description = [];
  created_by = 1;
  status = pos 1;
  created_at = 5;
  deleted = false;
}

abbrev ann_in_staff : UserGroupMember
ann_in_staff = record { id = 1; group_id = 1; user_id = 1; created_at = 6; deleted = false }

abbrev one_group : Groups
one_group = record {
  groups = staff ∷ [];
  members = ann_in_staff ∷ [];
  next_group_id = 2;
  next_member_id = 2;
}

abbrev without_ann : Groups
without_ann = (remove_group_member 1 1 one_group).1

remove_group_member-add_group_member_example :
    (mem 1 (user_group_ids 1 without_ann) ≡ false)
    × ((add_group_member accounts 9 1 1 (run (add accounts 8 1 1 ∷ []) without_ann)).0 ≢ ok tt)
unfolding remove_group_member
remove_group_member-add_group_member_example =
    remove_group_member-add_group_member 1 1 9 accounts one_group without_ann
      (add accounts 8 1 1 ∷ []) refl

abbrev ann_as_user : User
ann_as_user = record { id = 1; permission_level = 2; status = 1 }

abbrev no_group : Groups
no_group = (delete_group 1 one_group).1

delete_group-item_visible_rule_example :
    (load_group 1 no_group ≡ err not_found)
    × (item_visible_rule (listed (4 ∷ 1 ∷ [])) (some ann_as_user) (user_group_ids 1 no_group)
        ≡ ok tt)
unfolding delete_group mem group_ids_of
delete_group-item_visible_rule_example =
    delete_group-item_visible_rule 1 1 ann_as_user (4 ∷ 1 ∷ []) one_group no_group (omega arith)
      refl refl refl
