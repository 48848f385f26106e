-- ===== src/Access/Rule/Setting.antt =====
-- Setting the visible groups: what is written, and that the operator still sees the item.
use mathlib.Core.Path.{subst}
use orbit_cloud.Base.{
  ℕ, ◌≡◌, ◌≢◌, ◌∙◌, ap, ◌⊎◌, inl, inr, true, some, List, [], ◌∷◌, Bool-cases, arith,
}
use orbit_cloud.Base.Errors.{ok-injective, Result, ok, bind-ok}
use orbit_cloud.Access.{VisibleToGroups, User, Database, is_admin, mem}
use orbit_cloud.Access.Rule.{
  distinct_from, item_visible_rule, normalize_and_check_groups, may_set, all_mine,
  marshal_visible_groups, visibility_to_set,
}
use orbit_cloud.Access.Rule.Groups.{mem-distinct_from, all_mine-mem, in_distinct}
use orbit_cloud.Access.Rule.Visible.{Sees, item_visible_rule-Sees}
use orbit_cloud.Access.Mem.{mem_self, mem_nil}

normalize-ok :
    (count : List ℕ → Result ℕ) (group_ids : List ℕ) {ids : List ℕ}
    → normalize_and_check_groups count group_ids ≡ ok ids
    → distinct_from [] group_ids ≡ ids
unfolding normalize_and_check_groups
normalize-ok count group_ids e = ground arith

normalized_nonzero :
    (count : List ℕ → Result ℕ) (group_ids ids : List ℕ) (id : ℕ)
    → normalize_and_check_groups count group_ids ≡ ok ids
    → mem id ids ≡ true
    → id ≢ 0
normalized_nonzero count group_ids ids id n m z =
    let m' : mem id (distinct_from [] group_ids) ≡ true =
      ap (mem id) (normalize-ok count group_ids n) ∙ m in
    in_distinct id group_ids m' (mem-distinct_from [] group_ids id) z

-- Who may set groups is an administrator, or a member of each.
may_set-member :
    (db : Database) (user_id : ℕ) (user : User) (groups ids : List ℕ) (id : ℕ)
    → db.get_user user_id ≡ ok user
    → db.user_group_ids user_id ≡ ok groups
    → may_set db user_id ids ≡ ok tt
    → mem id ids ≡ true
    → (is_admin user.permission_level ≡ true) ⊎ (mem id groups ≡ true)
unfolding may_set
may_set-member db user_id user groups [] id u g e m = absurd (mem_nil id m)
may_set-member db user_id user groups (x ∷ xs) id u g e m =
    elim (Bool-cases (is_admin user.permission_level)) [
      | inl admin ↦ inl admin
      | inr other ↦
          let mine : all_mine groups (x ∷ xs) ≡ true = ground arith in
          inr (all_mine-mem groups (x ∷ xs) id mine m)
    ]

Sees-marshal :
    (user : User) (groups ids : List ℕ)
    → ((id : ℕ)
        → mem id ids ≡ true
        → (id ≢ 0) × ((is_admin user.permission_level ≡ true) ⊎ (mem id groups ≡ true)))
    → Sees user groups (marshal_visible_groups ids)
unfolding marshal_visible_groups
Sees-marshal user groups [] all = tt
Sees-marshal user groups (id ∷ rest) all =
    let m = mem_self id rest in
    let (n, h) = all id m in
    ((id, n, m), elim h [ inl admin ↦ inl admin | inr mine ↦ inr (id, n, m, mine) ])

-- What an operator sets as the visible groups of an item leaves the item visible to the operator.
pub visibility_to_set-Sees {ℓ} :
    {Item : Type ℓ} (db : Database) (count : List ℕ → Result ℕ) (user_id : ℕ) (user : User)
    (groups : List ℕ) (item : Result Item) (group_ids : List ℕ) (v : VisibleToGroups)
    → db.get_user user_id ≡ ok user
    → db.user_group_ids user_id ≡ ok groups
    → visibility_to_set db count user_id item group_ids ≡ ok v
    → item_visible_rule v (some user) groups ≡ ok tt
unfolding visibility_to_set
visibility_to_set-Sees db count user_id user groups item group_ids v u g e =
    let (loaded, l, e1) = bind-ok item _ e in
    let (ids, n, e2) = bind-ok (normalize_and_check_groups count group_ids) _ e1 in
    let (allowed, a, e3) = bind-ok (may_set db user_id ids) _ e2 in
    let sees = Sees-marshal user groups ids (λ id m. (
      normalized_nonzero count group_ids ids id n m,
      may_set-member db user_id user groups ids id u g a m,
    )) in
    let written : marshal_visible_groups ids ≡ v = ok-injective e3 in
    (item_visible_rule-Sees user groups v).0.1 (subst (Sees user groups) written sees)
