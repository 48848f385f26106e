-- ===== src/Access/Rule/Visible.antt =====
-- Who sees an item.
use orbit_cloud.Base.{
  ℕ, ◌≡◌, ◌≢◌, refl, ◌↔◌, ◌⊎◌, inl, inr, true, some, List, [], ◌∷◌, arith, Bool-cases, ◌||◌,
}
use orbit_cloud.Base.Errors.{ok, err, forbidden}
use orbit_cloud.Access.{VisibleToGroups, blank, malformed, listed, User, is_admin, mem}
use orbit_cloud.Access.Mem.{mem_self, mem_nil}
use orbit_cloud.Access.Rule.{distinct_from, shares_group, item_visible_rule, rule_of_groups}
use orbit_cloud.Access.Rule.Groups.{
  mem-distinct_from, shares_group-mem, mem-shares_group, in_both, in_distinct, in_ids,
}

-- The item is not restricted, or it lists a group and the user is an administrator or a member
-- of a listed group.
abbrev pub Sees : User → List ℕ → VisibleToGroups → Type 0
Sees user groups blank = Unit
Sees user groups malformed = ⊥
Sees user groups (listed ids) =
    ((g : ℕ) × (g ≢ 0) × (mem g ids ≡ true))
    × ((is_admin user.permission_level ≡ true)
        ⊎ ((g : ℕ) × (g ≢ 0) × (mem g ids ≡ true) × (mem g groups ≡ true)))

from_listed :
    (x : ℕ) (ids : List ℕ) → mem x (distinct_from [] ids) ≡ true → (x ≢ 0) × (mem x ids ≡ true)
from_listed x ids m =
    (in_distinct x ids m (mem-distinct_from [] ids x), in_ids x ids m (mem-distinct_from [] ids x))

Admitted : User → List ℕ → List ℕ → Type 0
Admitted user groups ds =
    ((g : ℕ) × (mem g ds ≡ true))
    × ((is_admin user.permission_level ≡ true) ⊎ (shares_group groups ds ≡ true))

rule-Admitted :
    (user : User) (groups ds : List ℕ)
    → rule_of_groups (some user) groups ds ≡ ok tt
    → Admitted user groups ds
unfolding rule_of_groups Admitted
rule-Admitted user groups [] e = cc
rule-Admitted user groups (d ∷ ds) e = ((d, mem_self d ds), ground arith)

Admitted-rule :
    (user : User) (groups ds : List ℕ)
    → Admitted user groups ds
    → rule_of_groups (some user) groups ds ≡ ok tt
unfolding rule_of_groups Admitted
Admitted-rule user groups [] ((g, m), h) = absurd (mem_nil g m)
Admitted-rule user groups (d ∷ ds) (g, h) = ground arith

rule-Sees :
    (user : User) (groups ids : List ℕ)
    → rule_of_groups (some user) groups (distinct_from [] ids) ≡ ok tt
    → Sees user groups (listed ids)
unfolding Admitted
rule-Sees user groups ids e =
    let ((g, m), h) = rule-Admitted user groups (distinct_from [] ids) e in
    (
      (let (n, i) = from_listed g ids m in (g, n, i)),
      elim h [
        | inl admin ↦ inl admin
        | inr shared ↦
            let (x, in_groups, in_ds) = (shares_group-mem groups (distinct_from [] ids)).0 shared in
            let (n, i) = from_listed x ids in_ds in inr (x, n, i, in_groups)
      ],
    )

Sees-rule :
    (user : User) (groups ids : List ℕ)
    → Sees user groups (listed ids)
    → rule_of_groups (some user) groups (distinct_from [] ids) ≡ ok tt
unfolding Admitted
Sees-rule user groups ids ((g, n, m), h) = Admitted-rule user groups (distinct_from [] ids) (
  (g, in_both g ids n m),
  elim h [
    | inl admin ↦ inl admin
    | inr (x, k, i, in_groups) ↦
        inr (mem-shares_group groups (distinct_from [] ids) x in_groups (in_both x ids k i))
  ],
)

-- There is one error.
rule_of_groups_cases :
    (user : User) (groups ds : List ℕ)
    → (rule_of_groups (some user) groups ds ≡ ok tt)
      ⊎ (rule_of_groups (some user) groups ds ≡ err forbidden)
unfolding rule_of_groups
rule_of_groups_cases user groups [] = inr refl
rule_of_groups_cases user groups (d ∷ ds) =
    elim (Bool-cases (is_admin user.permission_level || shares_group groups (d ∷ ds))) [
      | inl b ↦ inl (rw b refl)
      | inr b ↦ inr (rw b refl)
    ]

-- The rule admits a user just where the item is not restricted, or it lists a group and the user
-- is an administrator or a member of a listed group; where it does not admit the user, it answers
-- `forbidden`.
pub item_visible_rule-Sees :
    (user : User) (groups : List ℕ) (v : VisibleToGroups)
    → ((item_visible_rule v (some user) groups ≡ ok tt) ↔ Sees user groups v)
      × ((item_visible_rule v (some user) groups ≡ ok tt)
          ⊎ (item_visible_rule v (some user) groups ≡ err forbidden))
unfolding item_visible_rule
item_visible_rule-Sees user groups blank = ((λ e. tt, λ s. refl), inl refl)
item_visible_rule-Sees user groups malformed = ((λ e. cc, λ s. absurd s), inr refl)
item_visible_rule-Sees user groups (listed ids) = (
  (rule-Sees user groups ids, Sees-rule user groups ids),
  rule_of_groups_cases user groups (distinct_from [] ids),
)
