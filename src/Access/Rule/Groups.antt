-- ===== src/Access/Rule/Groups.antt =====
-- The lists of group ids: which ids are in them.
use orbit_cloud.Base.{
  ℕ, ◌≡◌, ◌≢◌, refl, sym, ◌↔◌, inl, inr, true, false, not, ◌&&◌, ◌||◌, List, [], ◌∷◌, ◌==◌,
  Bool-cases, arith,
}
use orbit_cloud.Base.Errors.{ok}
use orbit_cloud.Access.{listed, mem}
use orbit_cloud.Access.Rule.{distinct_from, parse_visible_groups, shares_group, all_mine}

pub mem-distinct_from :
    (seen ids : List ℕ) (x : ℕ)
    → mem x (distinct_from seen ids) ≡ (not (x == 0 || mem x seen) && mem x ids)
unfolding distinct_from mem
mem-distinct_from seen [] x = ground arith
mem-distinct_from seen (id ∷ rest) x =
    ground (arith, mem-distinct_from seen rest x, mem-distinct_from (id ∷ seen) rest x)

abbrev pub Distinct : List ℕ → Type 0
Distinct [] = Unit
Distinct (x ∷ xs) = (mem x xs ≡ false) × Distinct xs

distinct_from-Distinct : (seen ids : List ℕ) → Distinct (distinct_from seen ids)
unfolding distinct_from mem
distinct_from-Distinct seen [] = tt
distinct_from-Distinct seen (id ∷ rest) = elim (Bool-cases (id == 0 || mem id seen)) [
  | inl b ↦ rw b (distinct_from-Distinct seen rest)
  | inr b ↦ rw b (
    ground (arith, mem-distinct_from (id ∷ seen) rest id),
    distinct_from-Distinct (id ∷ seen) rest,
  )
]

pub in_distinct :
    (x : ℕ) (ids : List ℕ)
    → mem x (distinct_from [] ids) ≡ true
    → mem x (distinct_from [] ids) ≡ (not (x == 0 || mem x []) && mem x ids)
    → x ≡ 0
    → ⊥
in_distinct x ids m e z = ground arith

pub in_ids :
    (x : ℕ) (ids : List ℕ)
    → mem x (distinct_from [] ids) ≡ true
    → mem x (distinct_from [] ids) ≡ (not (x == 0 || mem x []) && mem x ids)
    → mem x ids ≡ true
in_ids x ids m e = ground arith

pub in_both :
    (x : ℕ) (ids : List ℕ) → x ≢ 0 → mem x ids ≡ true → mem x (distinct_from [] ids) ≡ true
unfolding mem
in_both x ids n m = ground (arith, mem-distinct_from [] ids x)

-- The parsed groups of a list are its ids but 0, each once.
pub parse_visible_groups-Distinct :
    (ids : List ℕ)
    → (out : List ℕ) × (parse_visible_groups (listed ids) ≡ ok out)
      × Distinct out
      × ((x : ℕ) → (mem x out ≡ true) ↔ ((x ≢ 0) × (mem x ids ≡ true)))
unfolding parse_visible_groups
parse_visible_groups-Distinct ids = (
  distinct_from [] ids,
  refl,
  distinct_from-Distinct [] ids,
  λ x.
      let e = mem-distinct_from [] ids x in
      (λ m. ((λ z. in_distinct x ids m e z), in_ids x ids m e), λ (n, m). in_both x ids n m),
)

shares_group-shared :
    (gs ids : List ℕ)
    → shares_group gs ids ≡ true
    → (g : ℕ) × (mem g gs ≡ true) × (mem g ids ≡ true)
unfolding shares_group mem
shares_group-shared [] ids h = cc
shares_group-shared (g ∷ rest) ids h = elim (Bool-cases (mem g ids)) [
  | inl b ↦ (g, ground arith, b)
  | inr b ↦ let (x, m, n) = shares_group-shared rest ids (ground arith) in (x, ground arith, n)
]

pub mem-shares_group :
    (gs ids : List ℕ) (g : ℕ) → mem g gs ≡ true → mem g ids ≡ true → shares_group gs ids ≡ true
unfolding shares_group mem
mem-shares_group [] ids g m n = cc
mem-shares_group (x ∷ rest) ids g m n = elim (Bool-cases (g == x)) [
  | inl b ↦ let q : g ≡ x = ground arith in rw (sym q, n) refl
  | inr b ↦ ground (arith, mem-shares_group rest ids g (ground arith) n)
]

pub shares_group-mem :
    (gs ids : List ℕ)
    → (shares_group gs ids ≡ true) ↔ ((g : ℕ) × (mem g gs ≡ true) × (mem g ids ≡ true))
shares_group-mem gs ids = (shares_group-shared gs ids, λ (g, m, n). mem-shares_group gs ids g m n)

pub all_mine-mem :
    (mine ids : List ℕ) (x : ℕ) → all_mine mine ids ≡ true → mem x ids ≡ true → mem x mine ≡ true
unfolding all_mine mem
all_mine-mem mine [] x h m = ground arith
all_mine-mem mine (id ∷ rest) x h m = elim (Bool-cases (x == id)) [
  | inl b ↦ let q : x ≡ id = ground arith in ground arith
  | inr b ↦ all_mine-mem mine rest x (ground arith) (ground arith)
]
