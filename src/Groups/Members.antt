-- ===== src/Groups/Members.antt =====
-- The members of a group: who is in it, and what stays of one who is not.
use orbit_cloud.Base.{
  ℕ, ◌≡◌, ◌≢◌, refl, inl, inr, true, false, not, ◌&&◌, List, [], ◌∷◌, ◌==◌, Bool-cases, arith, ap,
  ◌∙◌, none, Option-cases, sym, some,
}
use orbit_cloud.Base.Errors.{ok, err, not_found}
use orbit_cloud.Access.{User, listed, mem}
use orbit_cloud.Access.Rule.{item_visible_rule}
use orbit_cloud.Access.Rule.Visible.{item_visible_rule-Sees}
use orbit_cloud.Auth.{Accounts}
use orbit_cloud.Groups.{
  UserGroup, Groups, load_group, member_taken, add_group_member, remove_group_member, group_ids_of,
  user_group_ids, delete_group, update_groups, Call, create, update, delete, add, remove, apply,
  run, find_group,
}
use orbit_cloud.Groups.Rows.{
  member_taken-append, member_taken-delete_members, member_rows-taken, mem-delete_members,
  mem-append, remove_group_member-cases, create_group-members, update_group-members,
  delete_group-members, add_group_member-cases, remove_group_member-members,
}

module _ (group_id user_id : ℕ) where
  apply-member_taken :
      (call : Call) (db : Groups)
      → member_taken group_id user_id db.members ≡ true
      → member_taken group_id user_id (apply call db).members ≡ true
  unfolding apply
  apply-member_taken (create now arg) db h = rw (create_group-members now arg db) h
  apply-member_taken (update arg) db h = rw (update_group-members arg db) h
  apply-member_taken (delete id) db h = rw (delete_group-members id db) h
  apply-member_taken (add accounts now g u) db h =
      elim (add_group_member-cases accounts now g u db) [
        | inl (same, refused) ↦ rw same h
        | inr (free, longer) ↦ rw longer (
            member_taken-append group_id user_id db.members
              (record {
                id = db.next_member_id;
                group_id = g;
                user_id = u;
                created_at = now;
                deleted = false;
              })
              h)
      ]
  apply-member_taken (remove g u) db h = elim (remove_group_member-members g u db) [
    | inl same ↦ rw same h
    | inr marked ↦ rw marked (member_taken-delete_members group_id user_id g u db.members ∙ h)
  ]

  run-member_taken :
      (calls : List Call) (db : Groups)
      → member_taken group_id user_id db.members ≡ true
      → member_taken group_id user_id (run calls db).members ≡ true
  unfolding run
  run-member_taken [] db h = h
  run-member_taken (call ∷ rest) db h =
      run-member_taken rest (apply call db) (apply-member_taken call db h)

  taken_is_refused :
      (accounts : Accounts) (now : ℕ) (db : Groups)
      → member_taken group_id user_id db.members ≡ true
      → (add_group_member accounts now group_id user_id db).0 ≢ ok tt
  taken_is_refused accounts now db h =
      elim (add_group_member-cases accounts now group_id user_id db) [
        | inl (same, refused) ↦ refused
        | inr (free, longer) ↦ absurd (cc)
      ]

-- A user who is removed from a group is in it no more, and can never be added to it again, whatever
-- operations on the groups follow: the deleted row still holds the place in the unique index.
pub remove_group_member-add_group_member :
    (group_id user_id now : ℕ) (accounts : Accounts) (before between : Groups) (calls : List Call)
    → remove_group_member group_id user_id before ≡ (ok tt, between)
    → (mem group_id (user_group_ids user_id between) ≡ false)
      × ((add_group_member accounts now group_id user_id (run calls between)).0 ≢ ok tt)
remove_group_member-add_group_member group_id user_id now accounts before between calls e =
    let (rows, left) = remove_group_member-cases group_id user_id before between e in
    let held : member_taken group_id user_id between.members ≡ true =
      ap (λ members. member_taken group_id user_id members) left
      ∙ (member_taken-delete_members group_id user_id group_id user_id before.members
          ∙ member_rows-taken group_id user_id before.members rows) in
    (
      rw left (mem-delete_members group_id user_id before.members),
      taken_is_refused group_id user_id accounts now (run calls between)
          (run-member_taken group_id user_id calls between held),
    )

-- A user who is added to a group is in it.
pub add_group_member-user_group_ids :
    (accounts : Accounts) (now group_id user_id : ℕ) (before after : Groups)
    → add_group_member accounts now group_id user_id before ≡ (ok tt, after)
    → mem group_id (user_group_ids user_id after) ≡ true
add_group_member-user_group_ids accounts now group_id user_id before after e =
    elim (add_group_member-cases accounts now group_id user_id before) [
      | inl (same, refused) ↦ absurd (refused (ap (λ r. r.0) e))
      | inr (free, longer) ↦
          let left : after.members
              ≡ (add_group_member accounts now group_id user_id before).1.members =
            ap (λ r. r.1.members) (sym e) in
          rw (left ∙ longer) (mem-append group_id user_id before.members before.next_member_id now)
    ]

find_group-deleted :
    (id : ℕ) (rows : List UserGroup)
    → find_group id (update_groups id (λ g. record g { deleted = true }) rows) ≡ none
unfolding find_group update_groups
find_group-deleted id [] = refl
find_group-deleted id (g ∷ rest) = elim (Bool-cases (g.id == id && not g.deleted)) [
  | inl b ↦ let gone = find_group-deleted id rest in ground (arith, gone, b)
  | inr b ↦ rw (b, b) (find_group-deleted id rest)
]

-- A group that is deleted cannot be loaded, but its members keep its id among the ids of their
-- groups: an item that lists the group, whose id is not 0, stays visible to each of them.
pub delete_group-item_visible_rule :
    (id user_id : ℕ) (user : User) (ids : List ℕ) (before after : Groups)
    → id ≢ 0
    → mem id ids ≡ true
    → mem id (user_group_ids user_id before) ≡ true
    → delete_group id before ≡ (ok tt, after)
    → (load_group id after ≡ err not_found)
      × (item_visible_rule (listed ids) (some user) (user_group_ids user_id after) ≡ ok tt)
unfolding delete_group load_group
delete_group-item_visible_rule id user_id user ids before after nonzero shown mine e =
    elim (Option-cases (find_group id before.groups)) [
      | inl missing ↦ absurd (ground (arith, e, missing))
      | inr (g, found) ↦
          let marked : after.groups
              ≡ update_groups id (λ g. record g { deleted = true }) before.groups =
            ground (arith, e, found) in
          let left : after.members ≡ before.members = ground (arith, e, found) in
          let still : mem id (user_group_ids user_id after) ≡ true =
            ap (λ members. mem id (group_ids_of user_id members)) left ∙ mine in
          (
            rw (marked, find_group-deleted id before.groups, load_group) refl,
            (item_visible_rule-Sees user (user_group_ids user_id after) (listed ids)).0.1
                ((id, nonzero, shown), inr (id, nonzero, shown, still)),
          )
    ]
