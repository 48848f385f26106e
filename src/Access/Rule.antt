-- ===== src/Access/Rule.antt =====
-- server/visibility.go: the visible groups of a file or folder, who sees it, and the setting of
-- them.
pub mod Groups
pub mod Visible
pub mod Setting
use orbit_cloud.Base.{
  ℕ, ◌≡◌, ◌≢◌, Bool, true, false, not, ◌&&◌, ◌||◌, Option, none, some, List, [], ◌∷◌, ◌==◌,
  if◌then◌else◌, length,
}
use orbit_cloud.Base.Errors.{Result, ok, err, invalid_input, forbidden, not_found, ◌>>=◌, ◌>>◌}
use orbit_cloud.Access.{
  VisibleToGroups, blank, malformed, listed, User, Folder, File, Database, is_admin, mem, load_file,
  load_folder,
}

-- The loop of `ParseVisibleGroups` and of `normalizeAndCheckGroups`: the ids but 0, each once.
unfoldable pub distinct_from : List ℕ → List ℕ → List ℕ
distinct_from seen [] = []
distinct_from seen (id ∷ rest) =
    let skipped = distinct_from seen rest in
    let kept = distinct_from (id ∷ seen) rest in
    if id == 0 || mem id seen then skipped else id ∷ kept

-- `ParseVisibleGroups`
unfoldable pub parse_visible_groups : VisibleToGroups → Result (List ℕ)
unfolding distinct_from
parse_visible_groups blank = ok []
parse_visible_groups malformed = err invalid_input
parse_visible_groups (listed ids) = ok (distinct_from [] ids)

-- The two loops at the end of `ItemVisibleRule`: is one of the user's groups in the other list?
unfoldable pub shares_group : List ℕ → List ℕ → Bool
shares_group [] ids = false
shares_group (gid ∷ rest) ids = mem gid ids || shares_group rest ids

-- The rule behind the test for blank and the parsing.
unfoldable pub rule_of_groups : Option User → List ℕ → List ℕ → Result (Unit {0})
rule_of_groups user user_groups [] = err forbidden
rule_of_groups none user_groups (g ∷ gs) = err forbidden
rule_of_groups (some user) user_groups (g ∷ gs) =
    if is_admin user.permission_level || shares_group user_groups (g ∷ gs)
    then ok tt
    else err forbidden

-- `ItemVisibleRule`
unfoldable pub item_visible_rule : VisibleToGroups → Option User → List ℕ → Result (Unit {0})
unfolding parse_visible_groups rule_of_groups
item_visible_rule blank user user_groups = ok tt
item_visible_rule malformed user user_groups = err forbidden
item_visible_rule (listed ids) user user_groups =
    rule_of_groups user user_groups (distinct_from [] ids)

-- `marshalVisibleGroups`
unfoldable pub marshal_visible_groups : List ℕ → VisibleToGroups
marshal_visible_groups [] = blank
marshal_visible_groups (id ∷ rest) = listed (id ∷ rest)

-- `normalizeAndCheckGroups`; `count` is the query for the number of the ids whose group exists
-- and is enabled.
unfoldable pub normalize_and_check_groups : (List ℕ → Result ℕ) → List ℕ → Result (List ℕ)
unfolding distinct_from
normalize_and_check_groups count group_ids =
    let ids = distinct_from [] group_ids in
    if length ids == 0
    then ok ids
    else count ids >>= λ n. if n == length ids then ok ids else err invalid_input

unfoldable pub all_mine : List ℕ → List ℕ → Bool
all_mine mine [] = true
all_mine mine (gid ∷ rest) = mem gid mine && all_mine mine rest

-- The test of `setItemVisibility` that the operator may set these groups.
unfoldable pub may_set : Database → ℕ → List ℕ → Result (Unit {0})
unfolding all_mine
may_set db user_id ids =
    if length ids == 0
    then ok tt
    else db.get_user user_id >>= λ operator.
        if is_admin operator.permission_level
        then ok tt
        else db.user_group_ids user_id >>= λ mine.
            if all_mine mine ids then ok tt else err forbidden

-- The value that `setItemVisibility` writes, or its error. `item` is the result of loading the
-- file or folder.
unfoldable pub visibility_to_set {ℓ} :
    {Item : Type ℓ}
    → Database
    → (List ℕ → Result ℕ)
    → ℕ
    → Result Item
    → List ℕ
    → Result VisibleToGroups
unfolding normalize_and_check_groups may_set marshal_visible_groups
visibility_to_set db count user_id item group_ids = item >>= λ loaded.
    normalize_and_check_groups count group_ids >>= λ ids.
    may_set db user_id ids >>= λ allowed. ok (marshal_visible_groups ids)

-- The update of the rows with this id in this bucket.
unfoldable pub set_file_row : ℕ → ℕ → VisibleToGroups → List File → List File
set_file_row bucket_id id v [] = []
set_file_row bucket_id id v (f ∷ rest) =
    (if f.id == id && f.bucket_id == bucket_id then record f { visible_to_groups = v } else f)
    ∷ set_file_row bucket_id id v rest

unfoldable pub set_folder_row : ℕ → ℕ → VisibleToGroups → List Folder → List Folder
set_folder_row bucket_id id v [] = []
set_folder_row bucket_id id v (f ∷ rest) =
    (if f.id == id && f.bucket_id == bucket_id then record f { visible_to_groups = v } else f)
    ∷ set_folder_row bucket_id id v rest

-- `SetFileVisibility` and `SetFolderVisibility`; the update itself does not fail here.
unfoldable pub set_file_visibility :
    (List ℕ → Result ℕ) → ℕ → ℕ → ℕ → List ℕ → Database → Result Database
unfolding visibility_to_set set_file_row
set_file_visibility count user_id bucket_id file_id group_ids db =
    visibility_to_set db count user_id (load_file db.files bucket_id file_id) group_ids >>= λ v.
    ok (record db { files = set_file_row bucket_id file_id v db.files })

unfoldable pub set_folder_visibility :
    (List ℕ → Result ℕ) → ℕ → ℕ → ℕ → List ℕ → Database → Result Database
unfolding visibility_to_set set_folder_row
set_folder_visibility count user_id bucket_id folder_id group_ids db =
    visibility_to_set db count user_id (load_folder db.folders bucket_id folder_id) group_ids
    >>= λ v. ok (record db { folders = set_folder_row bucket_id folder_id v db.folders })
