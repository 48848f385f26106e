-- ===== src/Share.antt =====
-- server/share.go: the links that give files and folders to anyone who has them. Times are natural
-- numbers; passwords are lists of bytes, and their hashes come from a library.
pub mod Access
pub mod Below
pub mod Granted
pub mod Revoked
pub mod Created
mod Tests
use orbit_cloud.Base.{
  ℕ, zero, suc, ◌+◌, ◌≡◌, Bool, true, false, not, ◌&&◌, ◌||◌, Option, none, some, List, [], ◌∷◌,
  ltb, ◌==◌, if◌then◌else◌, length,
}
use orbit_cloud.Base.Errors.{
  Error, Result, ok, err, invalid_input, not_found, internal, ◌>>=◌, ◌>>◌,
}
use orbit_cloud.Base.Int.{ℤ, pos, negsuc}
use orbit_cloud.Names.{same_text, trim_space}
use orbit_cloud.Drive.{
  FileRow, FolderRow, ItemKind, kind_file, kind_folder, ShareLink, Drive, is_kept, find_file,
  find_folder,
}

-- `loadFolderByID` and `loadFileByID`
unfoldable pub load_folder_by_id : Drive → ℕ → Result FolderRow
unfolding find_folder
load_folder_by_id d id = find_folder (λ f. is_kept f.deleted_at && f.id == id) d.folders

unfoldable pub load_file_by_id : Drive → ℕ → Result FileRow
unfolding find_file
load_file_by_id d id = find_file (λ f. is_kept f.deleted_at && f.id == id) d.files

-- `CreateShareArg`; `hashed` is what bcrypt makes of the password, and `draws` are the tokens that
-- are drawn.
pub record CreateShareArg : Type 0 where
  pub user_id : ℕ
  pub file_id : ℕ
  pub expires_at : Option ℕ
  pub max_downloads : ℤ
  pub password : List ℕ
  pub hashed : Result (List ℕ)
  pub draws : List (Result (List ℕ))

abbrev pub is_negative : ℤ → Bool
is_negative (pos k) = false
is_negative (negsuc k) = true

-- The first share, not deleted, that passes a test.
unfoldable pub find_share : (ShareLink → Bool) → List ShareLink → Result ShareLink
find_share test [] = err not_found
find_share test (s ∷ rest) = if not s.deleted && test s then ok s else find_share test rest

unfoldable pub has_share : (ShareLink → Bool) → List ShareLink → Bool
has_share test [] = false
has_share test (s ∷ rest) = (not s.deleted && test s) || has_share test rest

-- What the id names: a folder, or else a file.
unfoldable pub kind_of_item : Drive → ℕ → Result ItemKind
unfolding load_folder_by_id load_file_by_id
kind_of_item d id = elim (load_folder_by_id d id) [
  | ok folder ↦ ok kind_folder
  | err e ↦ (elim (load_file_by_id d id) [ ok file ↦ ok kind_file | err e ↦ err not_found ])
]

-- The loop over the drawn tokens, with the rounds that are left.
unfoldable pub free_token : List ShareLink → ℕ → List (Result (List ℕ)) → Result (List ℕ)
unfolding has_share same_text
free_token shares zero draws = err internal
free_token shares (suc rounds) [] = err internal
free_token shares (suc rounds) (err e ∷ draws) = err e
free_token shares (suc rounds) (ok t ∷ draws) =
    let rest = free_token shares rounds draws in
    if has_share (λ s. same_text s.token t) shares then rest else ok t

-- The hash that is stored: none without a password.
abbrev pub hash_to_store : List ℕ → Result (List ℕ) → Result (List ℕ)
hash_to_store password hashed = if length password == 0 then ok [] else hashed

abbrev pub new_share : CreateShareArg → ItemKind → List ℕ → List ℕ → ℕ → ShareLink
new_share arg kind token hash id = record {
  id = id;
  bucket_item_id = arg.file_id;
  item_type = kind;
  creator_id = arg.user_id;
  token = token;
  expires_at = arg.expires_at;
  max_downloads = arg.max_downloads;
  password = hash;
  deleted = false;
}

abbrev pub without_password : ShareLink → ShareLink
without_password s = record s { password = [] }

-- The insertion, behind the unique index on the tokens, that of deleted shares too.
unfoldable pub token_in : List ℕ → List ShareLink → Bool
unfolding same_text
token_in t [] = false
token_in t (s ∷ rest) = same_text s.token t || token_in t rest

unfoldable pub insert_share : ShareLink → Drive → Result ShareLink × Drive
unfolding token_in
insert_share s d = if token_in s.token d.shares then (err internal, d) else (
  ok (without_password s),
  record d { shares = s ∷ d.shares; next_share_id = d.next_share_id + 1 },
)

-- The checks of what `CreateShare` is given.
unfoldable pub check_input : CreateShareArg → Result (Unit {0})
check_input arg =
    if arg.file_id == 0 || (is_negative arg.max_downloads || ltb 32 (length arg.password))
    then err invalid_input
    else ok tt

-- What `CreateShare` finds out before it inserts.
unfoldable pub share_to_insert : CreateShareArg → Drive → Result ShareLink
unfolding check_input kind_of_item free_token
share_to_insert arg d = do
  check_input arg
  kind ← kind_of_item d arg.file_id
  token ← free_token d.shares 5 arg.draws
  hash ← hash_to_store arg.password arg.hashed
  ok (new_share arg kind token hash d.next_share_id)

-- `if err != nil { return nil, err }` before a step that changes the tables.
abbrev pub after :
    {A B : Type 0} → Result A → (A → Drive → Result B × Drive) → Drive → Result B × Drive
after (err e) step d = (err e, d)
after (ok a) step d = step a d

-- `CreateShare`
unfoldable pub create_share : CreateShareArg → Drive → Result ShareLink × Drive
unfolding share_to_insert insert_share
create_share arg d = after (share_to_insert arg d) insert_share d

-- `GetShareByToken`
unfoldable pub get_share_by_token : Drive → List ℕ → Result ShareLink
unfolding find_share same_text trim_space
get_share_by_token d token =
    if length (trim_space token) == 0
    then err invalid_input
    else find_share (λ s. same_text s.token token) d.shares

-- `LoadShare`
unfoldable pub load_share : Drive → ℕ → Result ShareLink
unfolding find_share
load_share d id = find_share (λ s. s.id == id) d.shares

-- `UpdateShareInput`: `none` is no change, and `hashed` is what bcrypt makes of a new password.
pub record UpdateShareInput : Type 0 where
  pub permission : Bool
  pub expires_at : Option (Option ℕ)
  pub max_downloads : Option ℤ
  pub password : Option (List ℕ)
  pub hashed : Result (List ℕ)

-- The columns that are set. The permission is always read.
abbrev pub set_expiry : Option (Option ℕ) → ShareLink → ShareLink
set_expiry none s = s
set_expiry (some at) s = record s { expires_at = at }

abbrev pub set_max : Option ℤ → ShareLink → Result ShareLink
set_max none s = ok s
set_max (some n) s =
    if is_negative n then err invalid_input else ok (record s { max_downloads = n })

abbrev pub set_password : Option (List ℕ) → Result (List ℕ) → ShareLink → Result ShareLink
set_password none hashed s = ok s
set_password (some password) hashed s =
    hash_to_store password hashed >>= λ hash. ok (record s { password = hash })

abbrev pub changes_nothing : UpdateShareInput → Bool
changes_nothing input = elim input.expires_at [
  | some at ↦ false
  | none ↦ (elim input.max_downloads [
    | some n ↦ false
    | none ↦ (elim input.password [ some p ↦ false | none ↦ not input.permission ])
  ])
]

unfoldable pub changed_share : UpdateShareInput → ShareLink → Result ShareLink
changed_share input s = set_max input.max_downloads (set_expiry input.expires_at s) >>= λ limited.
    set_password input.password input.hashed limited >>= λ changed.
    if changes_nothing input then err invalid_input else ok changed

-- The update of the rows with an id, those that are deleted not.
unfoldable pub put_share : ℕ → (ShareLink → ShareLink) → List ShareLink → List ShareLink
put_share id change [] = []
put_share id change (s ∷ rest) =
    (if s.id == id && not s.deleted then change s else s) ∷ put_share id change rest

-- `UpdateShare`
unfoldable pub update_share : ℕ → UpdateShareInput → Drive → Result ShareLink × Drive
unfolding load_share changed_share put_share
update_share id input d =
    after (load_share d id >>= changed_share input)
      (λ s d. (ok (without_password s), record d { shares = put_share id (λ old. s) d.shares })) d

-- `DeleteShare`
unfoldable pub delete_share : ℕ → Drive → Result (Unit {0}) × Drive
unfolding load_share put_share
delete_share id d =
    after (load_share d id)
      (λ s d.
        (ok tt, record d { shares = put_share id (λ old. record old { deleted = true }) d.shares }))
      d
