-- ===== src/Access/Http/Precheck.antt =====
-- What the checks before a read admit.
use orbit_cloud.Base.{ℕ, ◌≡◌, ◌≢◌, refl, sym, ◌∙◌, ap, ◌⊎◌, ◌↔◌, inl, inr, Option, some, none, []}
use mathlib.Core.Path.{subst}
use orbit_cloud.Base.Errors.{Error, Result, Result-cases, ok, err, ok-injective, bind-ok, ◌>>=◌}
use orbit_cloud.Access.{VisibleToGroups, Bucket, File, Database, load_file, check_bucket_usable}
use orbit_cloud.Access.Walk.{walk, fuel_for}
use orbit_cloud.Access.Walk.Rounds.{walk_returns}
use orbit_cloud.Access.Walk.Chain.{OnChain, Passes, walk-Passes}
use orbit_cloud.Access.Http.{
  Loaded, nothing_loaded, perm_item_access_with, perm_bucket_access_with,
  perm_ancestors_access_with, behind_walk, item_and_bucket, precheck_file_read,
}
use orbit_cloud.Access.Http.Caching.{
  item_access, bucket_access, folder_access, IsFresh, Same-item, Same-bucket, Same-ok, Same-err,
  SameWalk, perm_ancestors-SameWalk,
}

some-injective : {A : Type 0} {a b : A} → some a ≡ some b → a ≡ b
some-injective e = cc

some_err : {A : Type 0} {e : Error} {a : A} → some (err e) ≡ some (ok a) → ⊥
some_err e = cc

nothing-IsFresh : (db : Database) (user_id : ℕ) → IsFresh db user_id nothing_loaded
nothing-IsFresh db user_id = (inl refl, inl refl)

walk_cases :
    (o : Option (Result Loaded))
    → (o ≡ none) ⊎ (((e : Error) × (o ≡ some (err e))) ⊎ ((c : Loaded) × (o ≡ some (ok c))))
walk_cases none = inl refl
walk_cases (some (err e)) = inr (inl (e, refl))
walk_cases (some (ok c)) = inr (inr (c, refl))

module _ {A : Type 0} (db : Database) (user_id : ℕ) (v : VisibleToGroups) (bucket : Bucket)
    (item : A) where
  -- The checks of the item and of the bucket, each by what is loaded afresh.
  unfoldable pub plain_checks : Result A
  plain_checks =
      item_access db user_id v >>= λ seen. bucket_access db user_id bucket >>= λ let_in. ok item

  item_and_bucket-plain :
      (c : Loaded)
      → IsFresh db user_id c
      → item_and_bucket db user_id v bucket item c ≡ plain_checks
  unfolding item_and_bucket plain_checks
  item_and_bucket-plain c h =
      let same = Same-item db user_id v c h in
      elim (Result-cases (perm_item_access_with db user_id v c)) [
        | inr (e, p) ↦ rw (p, Same-err db user_id same p) refl
        | inl (c1, p) ↦
            let (q, fresh) = Same-ok db user_id same p in
            let same' = Same-bucket db user_id bucket c1 fresh in
            elim (Result-cases (perm_bucket_access_with db user_id bucket c1)) [
              | inr (e, p') ↦ rw (p, q, p', Same-err db user_id same' p') refl
              | inl (c2, p') ↦ rw (p, q, p', (Same-ok db user_id same' p').0) refl
            ]
      ]

  -- The whole of the checks behind the loading of the item.
  pub checks-plain :
      (bucket_id start : ℕ)
      → behind_walk
          (perm_ancestors_access_with db user_id bucket_id
            (fuel_for db.folders)
            []
            start
            nothing_loaded)
          (item_and_bucket db user_id v bucket item)
        ≡ elim (walk db.folders bucket_id
            (folder_access db user_id)
            (fuel_for db.folders)
            []
            start) [ none ↦ none | some r ↦ some (r >>= λ passed. plain_checks) ]
  checks-plain bucket_id start =
      let cached =
        perm_ancestors_access_with db user_id bucket_id (fuel_for db.folders) [] start
          nothing_loaded in
      let plain =
        walk db.folders bucket_id (folder_access db user_id) (fuel_for db.folders) [] start in
      let same =
        perm_ancestors-SameWalk db user_id bucket_id (fuel_for db.folders) [] start nothing_loaded
          (nothing-IsFresh db user_id) in
      elim (walk_cases cached) [
        | inl p ↦
            let q : plain ≡ none = subst (λ o. SameWalk db user_id o plain) p same in rw (p, q) refl
        | inr (inl (e, p)) ↦
            let q : plain ≡ some (err e) = subst (λ o. SameWalk db user_id o plain) p same in
            rw (p, q) refl
        | inr (inr (c, p)) ↦
            let (q, fresh) : (plain ≡ some (ok tt)) × IsFresh db user_id c =
              subst (λ o. SameWalk db user_id o plain) p same in
            rw (p, q) (ap some (item_and_bucket-plain c fresh))
      ]

  plain_checks-ok :
      (x : A)
      → plain_checks ≡ ok x
      → (item ≡ x) × (item_access db user_id v ≡ ok tt) × (bucket_access db user_id bucket ≡ ok tt)
  unfolding plain_checks
  plain_checks-ok x e =
      let (seen, i, e1) = bind-ok (item_access db user_id v) _ e in
      let (let_in, b, e2) = bind-ok (bucket_access db user_id bucket) _ e1 in
      (ok-injective e2, i, b)

  -- What the checks admit: a chain of folders that pass, the item, and the bucket.
  abbrev pub Admitted : ℕ → ℕ → Type 0
  Admitted bucket_id start =
      ((x : ℕ)
        → OnChain db.folders bucket_id (folder_access db user_id) start x
        → x ≢ 0
        → Passes db.folders bucket_id (folder_access db user_id) x)
      × (item_access db user_id v ≡ ok tt)
      × (bucket_access db user_id bucket ≡ ok tt)

  checks-Admitted :
      (bucket_id start : ℕ) (x : A)
      → behind_walk
          (perm_ancestors_access_with db user_id bucket_id
            (fuel_for db.folders)
            []
            start
            nothing_loaded)
          (item_and_bucket db user_id v bucket item)
        ≡ some (ok x)
      → (item ≡ x) × Admitted bucket_id start
  checks-Admitted bucket_id start x e =
      let access = folder_access db user_id in
      let (r, w) = walk_returns db.folders bucket_id access start in
      let e1 : (elim (walk db.folders bucket_id access (fuel_for db.folders) [] start) [
        | none ↦ none
        | some r ↦ some (r >>= λ passed. plain_checks)
      ])
          ≡ some (ok x) =
        sym (checks-plain bucket_id start) ∙ e in
      let e2 : some (r >>= λ passed. plain_checks) ≡ some (ok x) =
        subst
          (λ o.
            (elim o [ none ↦ none | some r ↦ some (r >>= λ passed. plain_checks) ]) ≡ some (ok x))
          w e1 in
      let (done, p, c) = bind-ok r _ (some-injective e2) in
      let (same, i, b) = plain_checks-ok x c in
      (same, ((walk-Passes db.folders bucket_id access start).0 (w ∙ ap some p), i, b))

  Admitted-checks :
      (bucket_id start : ℕ)
      → Admitted bucket_id start
      → behind_walk
          (perm_ancestors_access_with db user_id bucket_id
            (fuel_for db.folders)
            []
            start
            nothing_loaded)
          (item_and_bucket db user_id v bucket item)
        ≡ some (ok item)
  unfolding plain_checks
  Admitted-checks bucket_id start (chain, i, b) =
      let access = folder_access db user_id in
      let w = (walk-Passes db.folders bucket_id access start).1 chain in
      checks-plain bucket_id start ∙ rw (w, i, b) refl

file_no_bucket :
    (db : Database) (user_id bucket_id file_id : ℕ) {e : Error}
    → check_bucket_usable db bucket_id ≡ err e
    → precheck_file_read db user_id bucket_id file_id ≡ some (err e)
unfolding precheck_file_read
file_no_bucket db user_id bucket_id file_id b = rw (precheck_file_read, b) refl

file_not_there :
    (db : Database) (user_id bucket_id file_id : ℕ) {bucket : Bucket} {e : Error}
    → check_bucket_usable db bucket_id ≡ ok bucket
    → load_file db.files bucket_id file_id ≡ err e
    → precheck_file_read db user_id bucket_id file_id ≡ some (err e)
unfolding precheck_file_read
file_not_there db user_id bucket_id file_id b l = rw (precheck_file_read, b, l) refl

file_there :
    (db : Database) (user_id bucket_id file_id : ℕ) {bucket : Bucket} {f : File}
    → check_bucket_usable db bucket_id ≡ ok bucket
    → load_file db.files bucket_id file_id ≡ ok f
    → precheck_file_read db user_id bucket_id file_id
      ≡ behind_walk
          (perm_ancestors_access_with db user_id bucket_id
            (fuel_for db.folders)
            []
            f.folder_id
            nothing_loaded)
          (item_and_bucket db user_id f.visible_to_groups bucket f)
unfolding precheck_file_read
file_there db user_id bucket_id file_id b l = rw (precheck_file_read, b, l) refl

-- A file is handed to a reader just where the bucket is there and in use, the file is in it, each
-- folder above the file is there, not deleted and visible to the reader, the file is visible to
-- the reader, and the reader's level is as high as the bucket's.
pub precheck_file_read-Admitted :
    (db : Database) (user_id bucket_id file_id : ℕ) (f : File)
    → (precheck_file_read db user_id bucket_id file_id ≡ some (ok f)) ↔ (
        (bucket : Bucket) × (check_bucket_usable db bucket_id ≡ ok bucket)
        × (load_file db.files bucket_id file_id ≡ ok f)
        × Admitted db user_id f.visible_to_groups bucket f bucket_id f.folder_id)
precheck_file_read-Admitted db user_id bucket_id file_id f = (
  λ e. elim (Result-cases (check_bucket_usable db bucket_id)) [
    | inr (x, b) ↦ absurd (some_err (sym (file_no_bucket db user_id bucket_id file_id b) ∙ e))
    | inl (bucket, b) ↦ elim (Result-cases (load_file db.files bucket_id file_id)) [
      | inr (x, l) ↦ absurd (some_err (sym (file_not_there db user_id bucket_id file_id b l) ∙ e))
      | inl (g, l) ↦
          let (same, a) =
            checks-Admitted db user_id g.visible_to_groups bucket g bucket_id g.folder_id f
              (sym (file_there db user_id bucket_id file_id b l) ∙ e) in
          subst
            (λ (h : File).
              (bucket' : Bucket) × (check_bucket_usable db bucket_id ≡ ok bucket')
              × (load_file db.files bucket_id file_id ≡ ok h)
              × Admitted db user_id h.visible_to_groups bucket' h bucket_id h.folder_id)
            same (bucket, b, l, a)
    ]
  ],
  λ (bucket, b, l, a).
      file_there db user_id bucket_id file_id b l
      ∙ (Admitted-checks db user_id f.visible_to_groups bucket f bucket_id f.folder_id a),
)
