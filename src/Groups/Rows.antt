-- ===== src/Groups/Rows.antt =====
-- What the operations on groups make of the rows of the members.
use orbit_cloud.Base.{
  ℕ, ◌≡◌, ◌≢◌, refl, inl, inr, true, false, not, ◌&&◌, List, [], ◌∷◌, ◌++◌, ◌==◌, Bool-cases, arith,
  ◌⊎◌,
}
use orbit_cloud.Base.Errors.{ok, Result-cases}
use orbit_cloud.Access.{mem}
use orbit_cloud.Auth.{Accounts, get_user, is_active}
use orbit_cloud.Groups.{
  UserGroupMember, Groups, load_group, member_taken, insert_member, add_group_member, member_rows,
  delete_members, remove_group_member, group_ids_of, create_group, update_group, delete_group,
  CreateGroupArg, UpdateGroupArg,
}

module _ (group_id user_id : ℕ) where
  -- Rows stay, so the index stays.
  pub member_taken-append :
      (rows : List UserGroupMember) (m : UserGroupMember)
      → member_taken group_id user_id rows ≡ true
      → member_taken group_id user_id (rows ++ m ∷ []) ≡ true
  unfolding member_taken
  member_taken-append [] m h = cc
  member_taken-append (x ∷ rest) m h = elim (Bool-cases (member_taken group_id user_id rest)) [
    | inl b ↦ let later = member_taken-append rest m b in rw later (ground arith)
    | inr b ↦ ground (arith, h, b)
  ]

  pub member_taken-delete_members :
      (g u : ℕ) (rows : List UserGroupMember)
      → member_taken group_id user_id (delete_members g u rows) ≡ member_taken group_id user_id rows
  unfolding member_taken delete_members
  member_taken-delete_members g u [] = refl
  member_taken-delete_members g u (m ∷ rest) =
      let same = member_taken-delete_members g u rest in
      elim (Bool-cases (m.group_id == g && m.user_id == u && not m.deleted)) [
        | inl b ↦ rw (b, same) refl
        | inr b ↦ rw (b, same) refl
      ]

  pub member_rows-taken :
      (rows : List UserGroupMember)
      → (member_rows group_id user_id rows == 0) ≡ false
      → member_taken group_id user_id rows ≡ true
  unfolding member_rows member_taken
  member_rows-taken [] h = cc
  member_rows-taken (m ∷ rest) h =
      elim (Bool-cases (m.group_id == group_id && m.user_id == user_id)) [
        | inl b ↦ rw b refl
        | inr b ↦
            let others : (member_rows group_id user_id rest == 0) ≡ false = ground (arith, h, b) in
            rw (b, member_rows-taken rest others) refl
      ]

  -- A member that is removed is in the group no more.
  pub mem-delete_members :
      (rows : List UserGroupMember)
      → mem group_id (group_ids_of user_id (delete_members group_id user_id rows)) ≡ false
  unfolding mem group_ids_of delete_members
  mem-delete_members [] = refl
  mem-delete_members (m ∷ rest) =
      let gone = mem-delete_members rest in
      elim (Bool-cases (m.group_id == group_id && m.user_id == user_id && not m.deleted)) [
        | inl b ↦ ground (arith, gone, b)
        | inr b ↦ ground (arith, gone, b)
      ]

  pub mem-append :
      (rows : List UserGroupMember) (id now : ℕ)
      → mem group_id (
          group_ids_of user_id (
            rows
            ++ record {
              id = id;
              group_id = group_id;
              user_id = user_id;
              created_at = now;
              deleted = false;
            }
              ∷ []))
        ≡ true
  unfolding mem group_ids_of
  mem-append [] id now = ground arith
  mem-append (m ∷ rest) id now = let there = mem-append rest id now in ground (arith, there)

-- The load of the group does not fail where a removal succeeds, and a row is there.
pub remove_group_member-cases :
    (group_id user_id : ℕ) (before after : Groups)
    → remove_group_member group_id user_id before ≡ (ok tt, after)
    → ((member_rows group_id user_id before.members == 0) ≡ false)
      × (after.members ≡ delete_members group_id user_id before.members)
unfolding remove_group_member
remove_group_member-cases group_id user_id before after e =
    elim (Result-cases (load_group group_id before)) [
      | inr (failure, missing) ↦ absurd (ground (arith, e, missing))
      | inl (g, loaded) ↦ elim (Bool-cases (member_rows group_id user_id before.members == 0)) [
        | inl b ↦ absurd (ground (arith, e, loaded, b))
        | inr b ↦ (b, ground (arith, e, loaded, b))
      ]
    ]

-- The operations on groups leave the members.
pub create_group-members :
    (now : ℕ) (arg : CreateGroupArg) (db : Groups)
    → (create_group now arg db).1.members ≡ db.members
unfolding create_group
create_group-members now arg db = ground arith

pub update_group-members :
    (arg : UpdateGroupArg) (db : Groups) → (update_group arg db).1.members ≡ db.members
unfolding update_group
update_group-members arg db = ground arith

pub delete_group-members : (id : ℕ) (db : Groups) → (delete_group id db).1.members ≡ db.members
unfolding delete_group
delete_group-members id db = ground arith

-- An addition leaves the members, or adds a row behind them.
pub add_group_member-cases :
    (accounts : Accounts) (now group_id user_id : ℕ) (db : Groups)
    → (((add_group_member accounts now group_id user_id db).1.members ≡ db.members)
        × ((add_group_member accounts now group_id user_id db).0 ≢ ok tt))
      ⊎ ((member_taken group_id user_id db.members ≡ false)
          × ((add_group_member accounts now group_id user_id db).1.members
              ≡ db.members
                ++ record {
                  id = db.next_member_id;
                  group_id = group_id;
                  user_id = user_id;
                  created_at = now;
                  deleted = false;
                }
                  ∷ []))
unfolding add_group_member insert_member
add_group_member-cases accounts now group_id user_id db =
    elim (Result-cases (load_group group_id db)) [
      | inr (failure, missing) ↦
          inl (rw (missing, add_group_member) refl, rw (missing, add_group_member) (λ e. cc))
      | inl (g, loaded) ↦ elim (Bool-cases (is_active g.status)) [
        | inr b ↦
            inl (rw (loaded, b, add_group_member) refl, rw (loaded, b, add_group_member) (λ e. cc))
        | inl b ↦ elim (Result-cases (get_user accounts user_id)) [
          | inr (failure, missing) ↦ inl (
            rw (loaded, b, missing, add_group_member) refl,
            rw (loaded, b, missing, add_group_member) (λ e. cc),
          )
          | inl (u, found) ↦ elim (Bool-cases (member_taken group_id user_id db.members)) [
            | inl t ↦ inl (
              rw (loaded, b, found, t, add_group_member, insert_member) refl,
              rw (loaded, b, found, t, add_group_member, insert_member) (λ e. cc),
            )
            | inr t ↦ inr (t, rw (loaded, b, found, t, add_group_member, insert_member) refl)
          ]
        ]
      ]
    ]

pub remove_group_member-members :
    (group_id user_id : ℕ) (db : Groups)
    → ((remove_group_member group_id user_id db).1.members ≡ db.members)
      ⊎ ((remove_group_member group_id user_id db).1.members
          ≡ delete_members group_id user_id db.members)
unfolding remove_group_member
remove_group_member-members group_id user_id db = elim (Result-cases (load_group group_id db)) [
  | inr (failure, missing) ↦ inl (rw (missing, remove_group_member) refl)
  | inl (g, loaded) ↦ elim (Bool-cases (member_rows group_id user_id db.members == 0)) [
    | inl b ↦ inl (rw (loaded, b, remove_group_member) refl)
    | inr b ↦ inr (rw (loaded, b, remove_group_member) refl)
  ]
]
