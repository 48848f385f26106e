-- ===== src/Drive/Resolve/Strict.antt =====
-- `ResolveDirPath` and `ResolveDirPathStrict` together.
use orbit_cloud.Base.{
  ℕ, ◌≡◌, refl, sym, ap, ◌∙◌, inl, inr, true, List, [], ◌∷◌, ltb, ◌==◌, length, Bool-cases, arith,
}
use orbit_cloud.Base.Errors.{Result, ok, err, Error, Result-cases}
use orbit_cloud.Names.{
  same_text_refl, same_text→≡, validate_item_name, split_slash, max_dir_path_len,
}
use orbit_cloud.Drive.{FolderRow, Drive, find_folder}
use orbit_cloud.Drive.Naming.{is_named}
use orbit_cloud.Drive.Resolve.{
  whole_path_len, new_folder, with_folder, folder_at, is_deleting, enter_or_make, on_to, make_path,
  resolve_dir_path, follow_path, resolve_dir_path_strict,
}

on_to-ok :
    (reached : Result ℕ × Drive) (next : ℕ → Drive → Result ℕ × Drive) {id : ℕ} {after : Drive}
    → on_to reached next ≡ (ok id, after)
    → (parent_id : ℕ) × (d : Drive) × (reached ≡ (ok parent_id, d))
      × (next parent_id d ≡ (ok id, after))
on_to-ok (err e, d) next h = cc
on_to-ok (ok parent_id, d) next h = (parent_id, d, refl, h)

module _ (to_lower : List ℕ → List ℕ) (user_id bucket_id : ℕ) where
  -- The new row is the one that is found under its name.
  folder_at-new :
      (d : Drive) (parent_id : ℕ) (seg : List ℕ)
      → folder_at to_lower
          (with_folder (new_folder user_id bucket_id parent_id seg d) d)
          bucket_id
          parent_id
          seg
        ≡ ok (new_folder user_id bucket_id parent_id seg d)
  unfolding folder_at find_folder
  folder_at-new d parent_id seg =
      let b : (bucket_id == bucket_id) ≡ true = ground arith in
      let p : (parent_id == parent_id) ≡ true = ground arith in
      rw (b, p, same_text_refl (to_lower seg)) refl

  -- A folder that is found is found when one is made that was not.
  folder_at-with_folder :
      (d : Drive) (q p : ℕ) (s seg : List ℕ) {g : FolderRow} {failure : Error}
      → folder_at to_lower d bucket_id q s ≡ ok g
      → folder_at to_lower d bucket_id p seg ≡ err failure
      → folder_at to_lower (with_folder (new_folder user_id bucket_id p seg d) d) bucket_id q s
        ≡ ok g
  unfolding folder_at find_folder
  folder_at-with_folder d q p s seg {g} there missing =
      elim (Bool-cases
        (is_named to_lower bucket_id q (to_lower s) (new_folder user_id bucket_id p seg d))) [
          | inr b ↦ rw b there
          | inl b ↦
              let same_parent : p ≡ q = ground (arith, b) in
              let same_name : to_lower seg ≡ to_lower s =
                same_text→≡ (to_lower seg) (to_lower s) (ground (arith, b)) in
              absurd (
                let both =
                  sym missing
                  ∙ (ap (λ n. find_folder (is_named to_lower bucket_id n (to_lower seg)) d.folders)
                        same_parent
                      ∙ (ap (λ l. find_folder (is_named to_lower bucket_id q l) d.folders) same_name
                          ∙ there)) in
                cc)
        ]

  -- What a segment that is entered or made leaves.
  enter_or_make-cases :
      (p : ℕ) (seg : List ℕ) (d : Drive) {id : ℕ} {after : Drive}
      → enter_or_make to_lower user_id bucket_id p seg d ≡ (ok id, after)
      → (validate_item_name seg ≡ ok tt)
        × ((f : FolderRow) × (folder_at to_lower after bucket_id p seg ≡ ok f) × (f.id ≡ id))
        × ((q : ℕ) (s : List ℕ) (g : FolderRow)
            → folder_at to_lower d bucket_id q s ≡ ok g
            → folder_at to_lower after bucket_id q s ≡ ok g)
  unfolding enter_or_make
  enter_or_make-cases p seg d {id} {after} e = elim (Result-cases (validate_item_name seg)) [
    | inr (failure, v) ↦ absurd (ground (arith, e, v))
    | inl (valid, v) ↦ elim (Result-cases (folder_at to_lower d bucket_id p seg)) [
      | inl (f, h) ↦ elim (Bool-cases (is_deleting f)) [
        | inl b ↦ absurd (ground (arith, e, v, h, b))
        | inr b ↦
            let left : d ≡ after = ground (arith, e, v, h, b) in
            let named : f.id ≡ id = ground (arith, e, v, h, b) in
            (v, (f, rw (sym left) h, named), λ q s g there. rw (sym left) there)
      ]
      | inr (failure, h) ↦
          let left : with_folder (new_folder user_id bucket_id p seg d) d ≡ after =
            ground (arith, e, v, h) in
          let named : d.next_folder_id ≡ id = ground (arith, e, v, h) in
          (
            v,
            (new_folder user_id bucket_id p seg d, rw (sym left) (folder_at-new d p seg), named),
            λ q s g there. rw (sym left) (folder_at-with_folder d q p s seg there h),
          )
    ]
  ]

  make_path-stays :
      (segs : List (List ℕ)) (p : ℕ) (d : Drive) {id : ℕ} {after : Drive}
      → make_path to_lower user_id bucket_id segs p d ≡ (ok id, after)
      → (q : ℕ) (s : List ℕ) (g : FolderRow) → folder_at to_lower d bucket_id q s ≡ ok g
      → folder_at to_lower after bucket_id q s ≡ ok g
  unfolding make_path
  make_path-stays [] p d e q s g there = rw (sym (ap (λ r. r.1) e)) there
  make_path-stays (seg ∷ segs) p d {id} {after} e q s g there =
      elim (Bool-cases (length seg == 0)) [
        | inl b ↦
            make_path-stays segs p d {id = id} {after = after} (ground (arith, e, b)) q s g there
        | inr b ↦
            let onward : on_to (enter_or_make to_lower user_id bucket_id p seg d)
                  (make_path to_lower user_id bucket_id segs)
                ≡ (ok id, after) =
              ground (arith, e, b) in
            let (r, d', entered, rest) =
              on_to-ok _ (make_path to_lower user_id bucket_id segs) onward in
            let (valid, found, stays) = enter_or_make-cases p seg d entered in
            make_path-stays segs r d' rest q s g (stays q s g there)
      ]

  make_path-follow_path :
      (segs : List (List ℕ)) (p : ℕ) (d : Drive) {id : ℕ} {after : Drive}
      → make_path to_lower user_id bucket_id segs p d ≡ (ok id, after)
      → follow_path to_lower after bucket_id segs p ≡ ok id
  unfolding make_path follow_path
  make_path-follow_path [] p d e = cc
  make_path-follow_path (seg ∷ segs) p d {id} {after} e = elim (Bool-cases (length seg == 0)) [
    | inl b ↦ rw b (make_path-follow_path segs p d {after = after} (ground (arith, e, b)))
    | inr b ↦
        let onward : on_to (enter_or_make to_lower user_id bucket_id p seg d)
              (make_path to_lower user_id bucket_id segs)
            ≡ (ok id, after) =
          ground (arith, e, b) in
        let (r, d', entered, rest) =
          on_to-ok _ (make_path to_lower user_id bucket_id segs) onward in
        let (valid, (f, found, named), stays) = enter_or_make-cases p seg d entered in
        let kept = make_path-stays segs r d' rest p seg f found in
        rw (b, valid, kept, follow_path) (rw named (make_path-follow_path segs r d' rest))
  ]

  -- The folder that `ResolveDirPath` answers is the one that `ResolveDirPathStrict` finds at the
  -- same path in the tables that it leaves.
  pub resolve_dir_path-strict :
      (path : List ℕ) (d : Drive) {id : ℕ} {after : Drive}
      → resolve_dir_path to_lower user_id bucket_id path d ≡ (ok id, after)
      → resolve_dir_path_strict to_lower after bucket_id path ≡ ok id
  unfolding resolve_dir_path resolve_dir_path_strict
  resolve_dir_path-strict path d {after = after} e =
      elim (Bool-cases (ltb whole_path_len (length path))) [
        | inl b ↦ absurd (ground (arith, e, b))
        | inr b ↦ elim (Bool-cases (ltb max_dir_path_len (length (split_slash path)))) [
          | inl h ↦ absurd (ground (arith, e, b, h))
          | inr h ↦
              rw (b, h, resolve_dir_path_strict)
                (make_path-follow_path (split_slash path) 0 d {after = after}
                  (ground (arith, e, b, h)))
        ]
      ]
