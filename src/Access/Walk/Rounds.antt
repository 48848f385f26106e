-- ===== src/Access/Walk/Rounds.antt =====
-- One round of a walk, and that a walk ends: each round meets a folder that was not met before.
use orbit_cloud.Base.{
  ℕ, zero, suc, ◌≤◌, ◌<◌, ◌≡◌, refl, ◌∙◌, inl, inr, true, false, ◌||◌, some, List, [], ◌∷◌, ◌==◌,
  if◌then◌else◌, length, Bool-cases, arith,
}
use orbit_cloud.Base.Errors.{Result-cases, Error, Result, ok, err}
use orbit_cloud.Access.{Folder, mem, load_folder}
use orbit_cloud.Access.Walk.{walk, fuel_for}

-- How many folders a walk has not met.
unfoldable pub unseen : List Folder → List ℕ → ℕ
unseen [] seen = 0
unseen (f ∷ rest) seen = let n = unseen rest seen in if mem f.id seen then n else suc n

pub unseen-le-length :
    (folders : List Folder) (seen : List ℕ) → unseen folders seen ≤ length folders
unfolding unseen
unseen-le-length [] seen = omega arith
unseen-le-length (f ∷ rest) seen = ground (arith, unseen-le-length rest seen)

unseen_cons :
    (folders : List Folder) (x : ℕ) (seen : List ℕ)
    → unseen folders (x ∷ seen) ≤ unseen folders seen
unfolding unseen mem
unseen_cons [] x seen = omega arith
unseen_cons (f ∷ rest) x seen = ground (arith, unseen_cons rest x seen)

pub unseen_loaded :
    (folders : List Folder) (bucket_id x : ℕ) (seen : List ℕ) {f : Folder}
    → load_folder folders bucket_id x ≡ ok f
    → mem x seen ≡ false
    → unseen folders (x ∷ seen) < unseen folders seen
unfolding unseen load_folder mem
unseen_loaded [] b x seen e m = ground arith
unseen_loaded (g ∷ rest) b x seen {f} e m = elim (Bool-cases (g.id == x)) [
  | inl h ↦ let q : g.id ≡ x = ground arith in ground (arith, unseen_cons rest x seen)
  | inr h ↦
      let e' : load_folder rest b x ≡ ok f = ground arith in
      ground (arith, unseen_loaded rest b x seen e' m)
]

module _ (folders : List Folder) (bucket_id : ℕ) (check : Folder → Result (Unit {0})) where
  -- One round: the walk stops, an error ends it, or it goes on to the parent.
  pub data Round (fuel : ℕ) (seen : List ℕ) (cur : ℕ) : Type 0 where
    stops :
        (cur == 0 || mem cur seen) ≡ true
        → walk folders bucket_id check (suc fuel) seen cur ≡ some (ok tt)
        → Round fuel seen cur
    not_loaded :
        (e : Error)
        → (cur == 0 || mem cur seen) ≡ false
        → load_folder folders bucket_id cur ≡ err e
        → walk folders bucket_id check (suc fuel) seen cur ≡ some (err e)
        → Round fuel seen cur
    refused :
        (e : Error) (f : Folder)
        → (cur == 0 || mem cur seen) ≡ false
        → load_folder folders bucket_id cur ≡ ok f
        → check f ≡ err e
        → walk folders bucket_id check (suc fuel) seen cur ≡ some (err e)
        → Round fuel seen cur
    goes_on :
        (f : Folder)
        → (cur == 0 || mem cur seen) ≡ false
        → load_folder folders bucket_id cur ≡ ok f
        → check f ≡ ok tt
        → walk folders bucket_id check (suc fuel) seen cur
          ≡ walk folders bucket_id check fuel (cur ∷ seen) f.parent_id
        → Round fuel seen cur

  pub round : (fuel : ℕ) (seen : List ℕ) (cur : ℕ) → Round fuel seen cur
  unfolding walk
  round fuel seen cur = elim (Bool-cases (cur == 0 || mem cur seen)) [
    | inl b ↦ stops b (rw b refl)
    | inr b ↦ elim (Result-cases (load_folder folders bucket_id cur)) [
      | inr (e, l) ↦ not_loaded e b l (rw (b, l) refl)
      | inl (f, l) ↦ elim (Result-cases (check f)) [
        | inr (e, c) ↦ refused e f b l c (rw (b, l, c) refl)
        | inl (done, c) ↦ goes_on f b l c (rw (b, l, c) refl)
      ]
    ]
  ]

  walk_ends :
      (fuel : ℕ) (seen : List ℕ) (cur : ℕ)
      → unseen folders seen < fuel
      → (r : Result (Unit {0})) × (walk folders bucket_id check fuel seen cur ≡ some r)
  walk_ends zero seen cur h = ground arith
  walk_ends (suc fuel) seen cur h = elim (round fuel seen cur) [
    | stops b w ↦ (ok tt, w)
    | not_loaded e b l w ↦ (err e, w)
    | refused e f b l c w ↦ (err e, w)
    | goes_on f b l c w ↦
        let m : mem cur seen ≡ false = ground arith in
        let fewer = unseen_loaded folders bucket_id cur seen l m in
        let (r, e) = walk_ends fuel (cur ∷ seen) f.parent_id (omega arith) in (r, w ∙ e)
  ]

  -- The walk ends on any table, a cyclic one too, within the rounds that it is given.
  pub walk_returns :
      (folder_id : ℕ)
      → (r : Result (Unit {0})) × (walk folders bucket_id check (fuel_for folders) [] folder_id
          ≡ some r)
  walk_returns folder_id =
      walk_ends (fuel_for folders) [] folder_id
        (let fewer = unseen-le-length folders [] in omega arith)
