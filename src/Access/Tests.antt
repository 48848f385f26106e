-- ===== src/Access/Tests.antt =====
-- The theorems on the permission checks at a small database.
use orbit_cloud.Base.{
  ℕ, ◌≡◌, ◌≢◌, refl, sym, ap, ◌∙◌, ◌↔◌, ◌⊎◌, inl, some, none, List, [], ◌∷◌, ◌==◌, if◌then◌else◌,
  arith,
}
use orbit_cloud.Base.Errors.{Result, ok, err, not_found, forbidden}
use orbit_cloud.Access.{
  blank, listed, folder_usable, folder_deleting, User, Bucket, Folder, File, Database, mem,
  load_file, load_folder, check_bucket_usable,
}
use orbit_cloud.Access.Walk.{walk, walk_unguarded, writable, fuel_for}
use orbit_cloud.Access.Walk.Rounds.{walk_returns}
use orbit_cloud.Access.Walk.Chain.{OnChain, here, up, Passes, walk-Passes, walk_unguarded_runs_on}
use orbit_cloud.Access.Rule.{item_visible_rule, visibility_to_set}
use orbit_cloud.Access.Rule.Visible.{Sees, item_visible_rule-Sees}
use orbit_cloud.Access.Rule.Setting.{visibility_to_set-Sees}
use orbit_cloud.Access.Http.{nothing_loaded, precheck_file_read, perm_ancestors_access_with}
use orbit_cloud.Access.Http.Caching.{
  SameWalk, perm_ancestors-SameWalk, folder_access, bucket_access,
}
use orbit_cloud.Access.Http.Precheck.{Admitted, precheck_file_read-Admitted}
use orbit_cloud.Access.Smb.{SessionInfo, load_session_info, check_bucket_access}
use orbit_cloud.Access.Smb.Agree.{check_bucket_access-bucket_access}

abbrev alice : User
alice = record { id = 1; permission_level = 3; status = 1 }

abbrev team : Bucket
team = record {
  id = 2;
  permission_level = 3;
  manage_permission_level = 0;
  owner_id = 9;
  status = 1;
}

abbrev outer : Folder
outer = record {
  id = 10;
  bucket_id = 2;
  parent_id = 0;
  isable = folder_usable;
  visible_to_groups = blank;
  uploaded_by = 1;
}

abbrev inner : Folder
inner = record {
  id = 11;
  bucket_id = 2;
  parent_id = 10;
  isable = folder_deleting;
  visible_to_groups = listed (0 ∷ 5 ∷ 5 ∷ []);
  uploaded_by = 9;
}

abbrev report : File
report = record {
  id = 20;
  bucket_id = 2;
  folder_id = 11;
  visible_to_groups = listed (7 ∷ 5 ∷ []);
  uploaded_by = 9;
}

abbrev small : Database
small = record {
  folders = outer ∷ inner ∷ [];
  files = report ∷ [];
  get_user = λ id. if id == 1 then ok alice else err not_found;
  get_bucket = λ id. if id == 2 then ok team else err not_found;
  user_group_ids = λ id. if id == 1 then ok (5 ∷ []) else ok [];
}

abbrev alice_session : SessionInfo
alice_session = record { user_id = 1; permission_level = 3; status = 1; groups = 5 ∷ [] }

-- A folder that is its own parent.
abbrev looped : List Folder
looped = (record outer { parent_id = 10 }) ∷ []

walk-Passes_example :
    (walk small.folders 2 writable (fuel_for small.folders) [] 11 ≡ some (ok tt))
    ↔ ((x : ℕ) → OnChain small.folders 2 writable 11 x → x ≢ 0 → Passes small.folders 2 writable x)
walk-Passes_example = walk-Passes small.folders 2 writable 11

walk_returns_example :
    (r : Result (Unit {0})) × (walk looped 2 writable (fuel_for looped) [] 10 ≡ some r)
walk_returns_example = walk_returns looped 2 writable 10

looped-chain : (x y : ℕ) → x ≡ 10 → OnChain looped 2 writable x y → y ≡ 10
unfolding load_folder
looped-chain x _ q (here _) = q
looped-chain x y q (up _ _ f n l rest) =
    let l' : load_folder looped 2 10 ≡ ok f = ap (load_folder looped 2) (sym q) ∙ l in
    looped-chain f.parent_id y (ground arith) rest

walk_unguarded_runs_on_example : walk_unguarded looped 2 writable 100 10 ≡ none
unfolding load_folder
walk_unguarded_runs_on_example = walk_unguarded_runs_on looped 2 writable 100 10 (λ x chain.
    let q = looped-chain 10 x refl chain in
    (
      λ z. ground arith,
      (record outer { parent_id = 10 }, ap (load_folder looped 2) q ∙ refl, refl),
    ))

item_visible_rule-Sees_example :
    ((item_visible_rule (listed (7 ∷ 5 ∷ [])) (some alice) (5 ∷ []) ≡ ok tt)
      ↔ Sees alice (5 ∷ []) (listed (7 ∷ 5 ∷ [])))
    × ((item_visible_rule (listed (7 ∷ 5 ∷ [])) (some alice) (5 ∷ []) ≡ ok tt)
        ⊎ (item_visible_rule (listed (7 ∷ 5 ∷ [])) (some alice) (5 ∷ []) ≡ err forbidden))
item_visible_rule-Sees_example = item_visible_rule-Sees alice (5 ∷ []) (listed (7 ∷ 5 ∷ []))

visibility_to_set-Sees_example : item_visible_rule (listed (5 ∷ [])) (some alice) (5 ∷ []) ≡ ok tt
unfolding visibility_to_set mem
visibility_to_set-Sees_example =
    visibility_to_set-Sees small (λ ids. ok 1) 1 alice (5 ∷ []) (ok report) (5 ∷ 0 ∷ 5 ∷ [])
      (listed (5 ∷ [])) refl refl refl

perm_ancestors-SameWalk_example :
    SameWalk small 1
      (perm_ancestors_access_with small 1 2 3 [] 11 nothing_loaded)
      (walk small.folders 2 (folder_access small 1) 3 [] 11)
perm_ancestors-SameWalk_example =
    perm_ancestors-SameWalk small 1 2 3 [] 11 nothing_loaded (inl refl, inl refl)

precheck_file_read-Admitted_example : (precheck_file_read small 1 2 20 ≡ some (ok report)) ↔ (
    (bucket : Bucket) × (check_bucket_usable small 2 ≡ ok bucket)
    × (load_file small.files 2 20 ≡ ok report)
    × Admitted small 1 report.visible_to_groups bucket report 2 11)
precheck_file_read-Admitted_example = precheck_file_read-Admitted small 1 2 20 report

check_bucket_access-bucket_access_example :
    (check_bucket_access alice_session team ≡ ok tt)
    ↔ ((team.owner_id ≡ alice_session.user_id) ⊎ (bucket_access small 1 team ≡ ok tt))
unfolding load_session_info
check_bucket_access-bucket_access_example =
    check_bucket_access-bucket_access small 1 alice_session team refl refl
