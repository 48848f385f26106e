-- ===== src/Access/Walk/Chain.antt =====
-- What the walks decide: the folders on the chain.
use orbit_cloud.Base.{
  ℕ, zero, suc, ◌<◌, ◌≡◌, ◌≢◌, refl, sym, ap, ◌∙◌, ◌⊎◌, ◌↔◌, inl, inr, true, false, ◌||◌, none,
  some, List, [], ◌∷◌, ◌==◌, Bool-cases, arith,
}
use orbit_cloud.Base.Errors.{Result, ok}
use orbit_cloud.Access.{Folder, mem, load_folder}
use orbit_cloud.Access.Mem.{mem_self, mem_nil, mem_later}
use orbit_cloud.Access.Walk.{walk, walk_unguarded, fuel_for}
use orbit_cloud.Access.Walk.Rounds.{
  stops, not_loaded, refused, goes_on, round, unseen, unseen-le-length, unseen_loaded,
}

module _ (folders : List Folder) (bucket_id : ℕ) (check : Folder → Result (Unit {0})) where
  -- The ids on the chain of `x`, 0 for the root of the bucket included.
  pub data OnChain : ℕ → ℕ → Type 0 where
    here : (x : ℕ) → OnChain x x
    up :
        (x y : ℕ) (f : Folder)
        → x ≢ 0
        → load_folder folders bucket_id x ≡ ok f
        → OnChain f.parent_id y
        → OnChain x y

  -- The folder is there, and passes the check.
  abbrev pub Passes : ℕ → Type 0
  Passes x = (f : Folder) × (load_folder folders bucket_id x ≡ ok f) × (check f ≡ ok tt)

  -- Every id in `seen` passes, and its parent is the root, in `seen` too, or `cur`.
  abbrev Closed : List ℕ → ℕ → Type 0
  Closed seen cur =
      (x : ℕ)
      → mem x seen ≡ true
      → (x ≢ 0)
        × (f : Folder) × (load_folder folders bucket_id x ≡ ok f)
        × (check f ≡ ok tt)
        × ((f.parent_id ≡ 0) ⊎ ((mem f.parent_id seen ≡ true) ⊎ (f.parent_id ≡ cur)))

  Closed-cons :
      (seen : List ℕ) (cur : ℕ) (f : Folder)
      → (cur == 0 || mem cur seen) ≡ false
      → load_folder folders bucket_id cur ≡ ok f
      → check f ≡ ok tt
      → Closed seen cur
      → Closed (cur ∷ seen) f.parent_id
  unfolding mem
  Closed-cons seen cur f b l c closed x m = elim (Bool-cases (x == cur)) [
    | inl same ↦
        let q : x ≡ cur = ground arith in
        (λ z. ground arith, f, ap (load_folder folders bucket_id) q ∙ l, c, inr (inr refl))
    | inr other ↦
        let (n, g, lg, cg, p) = closed x (ground arith) in
        (
          n,
          g,
          lg,
          cg,
          elim p [
            | inl root ↦ inl root
            | inr (inl met) ↦ inr (inl (ground arith))
            | inr (inr q) ↦ inr (inl (ground arith))
          ],
        )
  ]

  none-walk :
      (seen : List ℕ) (cur : ℕ) → walk folders bucket_id check zero seen cur ≡ some (ok tt) → ⊥
  unfolding walk
  none-walk seen cur e = cc

  -- A walk that succeeds has met a closed set of ids, with `cur` in it.
  walk_closes :
      (fuel : ℕ) (seen : List ℕ) (cur : ℕ)
      → walk folders bucket_id check fuel seen cur ≡ some (ok tt)
      → Closed seen cur
      → (met : List ℕ) × Closed met 0
        × ((cur ≡ 0) ⊎ (mem cur met ≡ true))
        × ((x : ℕ) → mem x seen ≡ true → mem x met ≡ true)
  walk_closes zero seen cur e closed = absurd (none-walk seen cur e)
  walk_closes (suc fuel) seen cur e closed = elim (round folders bucket_id check fuel seen cur) [
    | stops b w ↦ (
      seen,
      λ x m.
          let (n, f, l, c, p) = closed x m in
          (
            n,
            f,
            l,
            c,
            elim p [
              | inl root ↦ inl root
              | inr (inl met) ↦ inr (inl met)
              | inr (inr q) ↦ ground arith
            ],
          ),
      ground arith,
      λ x m. m,
    )
    | not_loaded x b l w ↦ absurd (ground arith)
    | refused x f b l c w ↦ absurd (ground arith)
    | goes_on f b l c w ↦
        let (met, closed', p, more) =
          walk_closes fuel (cur ∷ seen) f.parent_id (sym w ∙ e)
            (Closed-cons seen cur f b l c closed) in
        (met, closed', inr (more cur (mem_self cur seen)), λ x m. more x (mem_later x cur seen m))
  ]

  Closed-chain :
      (met : List ℕ) (x y : ℕ)
      → Closed met 0
      → (x ≡ 0) ⊎ (mem x met ≡ true)
      → OnChain x y
      → (y ≡ 0) ⊎ (mem y met ≡ true)
  Closed-chain met x y closed m (here z) = m
  Closed-chain met x y closed (inl root) (up _ _ f n l rest) = absurd (n root)
  Closed-chain met x y closed (inr m) (up _ _ f n l rest) =
      let (_, g, lg, _, p) = closed x m in
      let same : f.parent_id ≡ g.parent_id = ground arith in
      let next : (f.parent_id ≡ 0) ⊎ (mem f.parent_id met ≡ true) = elim p [
        | inl root ↦ inl (same ∙ root)
        | inr (inl met') ↦ inr (ap (λ i. mem i met) same ∙ met')
        | inr (inr root) ↦ inl (same ∙ root)
      ] in
      Closed-chain met f.parent_id y closed next rest

  -- Enough rounds for a walk whose every folder passes.
  walk_succeeds :
      (fuel : ℕ) (seen : List ℕ) (cur : ℕ)
      → unseen folders seen < fuel
      → ((x : ℕ) → OnChain cur x → x ≢ 0 → Passes x)
      → walk folders bucket_id check fuel seen cur ≡ some (ok tt)
  walk_succeeds zero seen cur h all = absurd (omega arith)
  walk_succeeds (suc fuel) seen cur h all = elim (round folders bucket_id check fuel seen cur) [
    | stops b w ↦ w
    | not_loaded e b l w ↦
        let (f, lf, c) = all cur (here cur) (λ z. ground arith) in absurd (ground arith)
    | refused e g b l w' w ↦
        let (f, lf, c) = all cur (here cur) (λ z. ground arith) in absurd (ground arith)
    | goes_on f b l c w ↦
        let m : mem cur seen ≡ false = ground arith in
        let fewer = unseen_loaded folders bucket_id cur seen l m in
        w
        ∙ walk_succeeds fuel (cur ∷ seen) f.parent_id (omega arith)
            (λ x chain n. all x (up cur x f (λ z. ground arith) l chain) n)
  ]

  -- A walk succeeds just where every folder on the chain is there and passes the check.
  pub walk-Passes :
      (folder_id : ℕ)
      → (walk folders bucket_id check (fuel_for folders) [] folder_id ≡ some (ok tt))
        ↔ ((x : ℕ) → OnChain folder_id x → x ≢ 0 → Passes x)
  walk-Passes folder_id = (
    λ e x chain n.
        let (met, closed, p, _) =
          walk_closes (fuel_for folders) [] folder_id e (λ y m. absurd (mem_nil y m)) in
        elim (Closed-chain met folder_id x closed p chain) [
          | inl root ↦ absurd (n root)
          | inr m ↦ let (_, f, l, c, _) = closed x m in (f, l, c)
        ],
    λ all.
        walk_succeeds (fuel_for folders) [] folder_id
          (let fewer = unseen-le-length folders [] in omega arith) all,
  )

  -- The walk that keeps no `seen` does not end, however many rounds it is given, where every
  -- folder on the chain passes and the chain never comes to the root.
  pub walk_unguarded_runs_on :
      (fuel cur : ℕ)
      → ((x : ℕ) → OnChain cur x → (x ≢ 0) × Passes x)
      → walk_unguarded folders bucket_id check fuel cur ≡ none
  unfolding walk_unguarded
  walk_unguarded_runs_on zero cur all = refl
  walk_unguarded_runs_on (suc fuel) cur all =
      let (n, (f, l, c)) = all cur (here cur) in
      let b : (cur == 0) ≡ false = ground arith in
      rw (b, l, c)
        (walk_unguarded_runs_on fuel f.parent_id (λ x chain. all x (up cur x f n l chain)))
