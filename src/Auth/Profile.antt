-- ===== src/Auth/Profile.antt =====
-- server/user.go: registering, changing and deleting accounts. A hash of bcrypt, or its error, is
-- an input.
use orbit_cloud.Base.{
  ℕ, ◌+◌, Bool, true, false, not, ◌&&◌, ◌||◌, Option, none, some, List, [], ◌∷◌, ltb, ◌==◌,
  if◌then◌else◌, length,
}
use orbit_cloud.Base.Errors.{Result, ok, err, internal, invalid_input, conflict, ◌>>=◌}
use orbit_cloud.Base.Int.{ℤ, pos, above, leb_ℤ}
use orbit_cloud.Names.{same_text, trim_space}
use orbit_cloud.Auth.{Account, Accounts, Libraries, get_user, is_empty, sanitized, is_active}

-- SuperAdmin, Admin and NormalUser
abbrev pub super_admin : ℤ
super_admin = pos 0

abbrev pub admin : ℤ
admin = pos 1

abbrev pub normal_user : ℤ
normal_user = pos 3

-- The unique index on the names; a deleted row keeps its name.
unfoldable pub username_taken : List ℕ → List Account → Bool
username_taken name [] = false
username_taken name (u ∷ rest) = same_text u.username name || username_taken name rest

-- A level that the interface may not give is the lowest.
abbrev pub level_of : ℤ → ℤ
level_of level = if leb_ℤ level super_admin then normal_user else level

-- `Register`
unfoldable pub register :
    Libraries → List ℕ → List ℕ → ℤ → Result (List ℕ) → Accounts → Result Account × Accounts
unfolding username_taken
register lib username password level hashed db =
    let name = trim_space username in
    if is_empty name || ltb (length password) 8 then (err invalid_input, db) else elim hashed [
      | err e ↦ (err internal, db)
      | ok hash ↦
          let user : Account = record {
            id = db.next_user_id;
            username = name;
            password = hash;
            name = name;
            email = [];
            permission_level = above (level_of level);
            status = pos 1;
            nt_hash = lib.nt_hash_of password;
            quota = none;
            last_login = none;
            deleted = false;
          } in
          if username_taken name db.users then (err conflict, db) else (
            ok (sanitized user),
            record db { users = user ∷ db.users; next_user_id = db.next_user_id + 1 },
          )
    ]

-- An update of the row with this id, where it is not deleted.
unfoldable pub update_row : ℕ → (Account → Account) → List Account → List Account
update_row id change [] = []
update_row id change (u ∷ rest) =
    (if not u.deleted && u.id == id then change u else u) ∷ update_row id change rest

-- updates["password"], with what bcrypt gives
abbrev pub change_password : Libraries → List ℕ → Result (List ℕ) → Result (Account → Account)
change_password lib password hashed = if is_empty password then ok (λ u. u) else elim hashed [
  | err e ↦ err internal
  | ok hash ↦ ok (λ u. record u { password = hash; nt_hash = lib.nt_hash_of password })
]

abbrev pub change_name : List ℕ → Account → Account
change_name name u = if is_empty name then u else record u { name = name }

abbrev pub change_email : List ℕ → Account → Account
change_email email u = if is_empty email then u else record u { email = email }

-- What an update leads to: the row again, without hashes.
abbrev pub changed : ℕ → (Account → Account) → Accounts → Result Account × Accounts
changed id change db =
    let db' = record db { users = update_row id change db.users } in (get_user db' id, db')

-- `UpdateMeInput`
pub record UpdateMeInput : Type 0 where
  pub password : List ℕ
  pub name : List ℕ
  pub email : List ℕ

-- `UpdateMe`
unfoldable pub update_me :
    Libraries → ℕ → UpdateMeInput → Result (List ℕ) → Accounts → Result Account × Accounts
unfolding update_row get_user
update_me lib id input hashed db = elim (change_password lib input.password hashed) [
  | err e ↦ (err e, db)
  | ok change ↦
      if is_empty input.password && (is_empty input.name && is_empty input.email)
      then (err invalid_input, db)
      else changed id (λ u. change_email input.email (change_name input.name (change u))) db
]

-- `UpdateUserInput`; `none` is no update.
pub record UpdateUserInput : Type 0 where
  pub password : List ℕ
  pub name : List ℕ
  pub email : List ℕ
  pub permission_level : Option ℤ
  pub status : Option ℤ
  pub quota : Option ℤ

abbrev pub change_level : Option ℤ → Result (Account → Account)
change_level none = ok (λ u. u)
change_level (some level) =
    if leb_ℤ admin level
    then ok (λ u. record u { permission_level = above level })
    else err invalid_input

abbrev pub change_status : Option ℤ → Result (Account → Account)
change_status none = ok (λ u. u)
change_status (some status) =
    if is_active status || (leb_ℤ status (pos 0) && leb_ℤ (pos 0) status)
    then ok (λ u. record u { status = status })
    else err invalid_input

abbrev pub change_quota : Option ℤ → Result (Account → Account)
change_quota none = ok (λ u. u)
change_quota (some quota) =
    if leb_ℤ (pos 0) quota then ok (λ u. record u { quota = some quota }) else err invalid_input

abbrev pub is_unset : Option ℤ → Bool
is_unset none = true
is_unset (some z) = false

-- len(updates) == 0
abbrev pub updates_nothing : UpdateUserInput → Bool
updates_nothing input =
    (is_empty input.password && (is_empty input.name && is_empty input.email))
    && (is_unset input.permission_level && (is_unset input.status && is_unset input.quota))

-- The changes that the input asks for.
unfoldable pub changes_of :
    Libraries → UpdateUserInput → Result (List ℕ) → Result (Account → Account)
changes_of lib input hashed = change_password lib input.password hashed >>= λ c1.
    change_level input.permission_level >>= λ c2. change_status input.status >>= λ c3.
    change_quota input.quota >>= λ c4.
    if updates_nothing input
    then err invalid_input
    else ok (λ u. c4 (c3 (c2 (change_email input.email (change_name input.name (c1 u))))))

-- `UpdateUser`
unfoldable pub update_user :
    Libraries → ℕ → UpdateUserInput → Result (List ℕ) → Accounts → Result Account × Accounts
unfolding changes_of update_row get_user
update_user lib id input hashed db = elim (get_user db id) [
  | err e ↦ (err e, db)
  | ok u ↦ elim (changes_of lib input hashed) [
    | err e ↦ (err e, db)
    | ok change ↦ changed id change db
  ]
]

-- `UpdateUserQuota`
unfoldable pub update_user_quota : ℕ → Option ℤ → Accounts → Result Account × Accounts
unfolding update_row get_user
update_user_quota id quota db = elim (get_user db id) [
  | err e ↦ (err e, db)
  | ok u ↦ elim (change_quota quota) [
    | err e ↦ (err e, db)
    | ok change ↦ changed id (λ u. record u { quota = quota }) db
  ]
]

-- `DeleteUser`
unfoldable pub delete_user : ℕ → Accounts → Result (Unit {0}) × Accounts
unfolding update_row get_user
delete_user id db = elim (get_user db id) [
  | err e ↦ (err e, db)
  | ok u ↦ (ok tt, record db { users = update_row id (λ u. record u { deleted = true }) db.users })
]
