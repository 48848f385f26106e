-- ===== src/Auth.antt =====
-- server/user.go with model/enter.go and model/refresh_token.go: accounts, and the login tokens.
-- Passwords and tokens are lists of bytes, names lists of runes. The hashes and the tokens' signs
-- are libraries': their functions are in `Libraries`, and what they draw at random (a salted hash,
-- a signed token) is an input of the operation. No query fails; the times are numbers.
pub mod Profile
pub mod Cleanup
pub mod Untouched
pub mod Calls
pub mod Invariant
pub mod Rotation
pub mod Single
pub mod Changes
pub mod Levels
mod Tests
use orbit_cloud.Base.{
  ℕ, suc, ◌+◌, ◌≡◌, Bool, true, false, not, ◌&&◌, ◌||◌, Option, none, some, List, [], ◌∷◌, ◌++◌,
  map, ltb, leb, ◌==◌, if◌then◌else◌, length,
}
use orbit_cloud.Base.Errors.{
  Result, ok, err, internal, invalid_input, unauthorized, forbidden, not_found, conflict, ◌>>=◌,
}
use orbit_cloud.Base.Int.{ℤ, pos, above, leb_ℤ}
use orbit_cloud.Names.{same_text, trim_space}

-- `User`; `deleted` where `DeletedAt` is set.
pub record Account : Type 0 where
  pub id : ℕ
  pub username : List ℕ
  pub password : List ℕ
  pub name : List ℕ
  pub email : List ℕ
  pub permission_level : ℕ
  pub status : ℤ
  pub nt_hash : List ℕ
  pub quota : Option ℤ
  pub last_login : Option ℕ
  pub deleted : Bool

-- `RefreshToken`; `token` is the hash.
pub record RefreshToken : Type 0 where
  pub id : ℕ
  pub user_id : ℕ
  pub token : List ℕ
  pub expires_at : ℕ
  pub revoked_at : Option ℕ

-- The tables `users` and `refresh_tokens`, with the ids that they give next.
pub record Accounts : Type 0 where
  pub users : List Account
  pub tokens : List RefreshToken
  pub next_user_id : ℕ
  pub next_token_id : ℕ

-- `VerifyRefresh` at a time, `HashToken`, bcrypt.CompareHashAndPassword and `NtHashOf`.
pub record Libraries : Type 0 where
  pub verify_refresh : ℕ → List ℕ → Bool
  pub hash_token : List ℕ → List ℕ
  pub compare_password : List ℕ → List ℕ → Bool
  pub nt_hash_of : List ℕ → List ℕ
  pub refresh_ttl : ℕ

-- What `SignAccess` and `SignRefresh` return.
pub record Signed : Type 0 where
  pub access_token : Result (List ℕ)
  pub refresh_token : Result (List ℕ)

-- `LoginResult`
pub record LoginResult : Type 0 where
  pub access_token : List ℕ
  pub refresh_token : List ℕ
  pub user : Account

-- What is returned of a user: no hashes.
abbrev pub sanitized : Account → Account
sanitized u = record u { password = []; nt_hash = [] }

-- The rows that are not deleted, by a test.
unfoldable pub find_user : (Account → Bool) → List Account → Option Account
find_user test [] = none
find_user test (u ∷ rest) = if not u.deleted && test u then some u else find_user test rest

-- `GetUser`
unfoldable pub get_user : Accounts → ℕ → Result Account
unfolding find_user
get_user db id = elim (find_user (λ u. u.id == id) db.users) [
  | none ↦ err not_found
  | some u ↦ ok (sanitized u)
]

-- status == 1
abbrev pub is_active : ℤ → Bool
is_active status = leb_ℤ status (pos 1) && leb_ℤ (pos 1) status

abbrev pub is_empty : List ℕ → Bool
is_empty text = length text == 0

-- The unique index on the hashes.
unfoldable pub token_taken : List ℕ → List RefreshToken → Bool
token_taken h [] = false
token_taken h (t ∷ rest) = same_text t.token h || token_taken h rest

-- The update of `last_login`.
abbrev pub seen_at : ℕ → ℕ → Accounts → Accounts
seen_at now id db = record db {
  users = map (λ u. if u.id == id then record u { last_login = some now } else u) db.users;
}

-- Where the tokens cannot be issued, what was done before them stays.
abbrev pub kept_where_failed :
    Accounts → Result (LoginResult × Accounts) → Result LoginResult × Accounts
kept_where_failed db (err e) = (err e, db)
kept_where_failed db (ok (result, db')) = (ok result, db')

-- revoked_at IS NULL AND expires_at > now, and the hash
abbrev pub is_live : ℕ → RefreshToken → Bool
is_live now t = elim t.revoked_at [ none ↦ ltb now t.expires_at | some at ↦ false ]

unfoldable pub find_token : ℕ → List ℕ → List RefreshToken → Option RefreshToken
find_token now h [] = none
find_token now h (t ∷ rest) =
    if same_text t.token h && is_live now t then some t else find_token now h rest

-- The update of `revoked_at` for one id.
unfoldable pub revoke_id : ℕ → ℕ → List RefreshToken → List RefreshToken
revoke_id now id [] = []
revoke_id now id (t ∷ rest) =
    (if t.id == id then record t { revoked_at = some now } else t) ∷ revoke_id now id rest

-- The update of `revoked_at` for one hash, where it is not set.
unfoldable pub revoke_hash : ℕ → List ℕ → List RefreshToken → List RefreshToken
revoke_hash now h [] = []
revoke_hash now h (t ∷ rest) =
    (elim t.revoked_at [
      | none ↦ if same_text t.token h then record t { revoked_at = some now } else t
      | some at ↦ t
    ])
    ∷ revoke_hash now h rest

module _ (lib : Libraries) where
  -- The row of a token that is issued.
  abbrev pub new_token : ℕ → Account → List ℕ → Accounts → RefreshToken
  new_token now u h db = record {
    id = db.next_token_id;
    user_id = u.id;
    token = h;
    expires_at = now + lib.refresh_ttl;
    revoked_at = none;
  }

  -- The row of the refresh token, and the result.
  unfoldable pub store_token :
      ℕ → Account → List ℕ → List ℕ → Accounts → Result (LoginResult × Accounts)
  unfolding token_taken
  store_token now u access raw db =
      if token_taken (lib.hash_token raw) db.tokens
      then err internal
      else ok (
        record { access_token = access; refresh_token = raw; user = sanitized u },
        record db {
          tokens = db.tokens ++ (new_token now u (lib.hash_token raw) db ∷ []);
          next_token_id = db.next_token_id + 1;
        },
      )

  -- `issueTokens`
  unfoldable pub issue_tokens : ℕ → Account → Signed → Accounts → Result (LoginResult × Accounts)
  unfolding store_token
  issue_tokens now u signed db = signed.access_token >>= λ access.
      signed.refresh_token >>= λ raw. store_token now u access raw db

  -- `Login`, for the user that was found.
  unfoldable pub login_as : ℕ → Account → List ℕ → Signed → Accounts → Result LoginResult × Accounts
  unfolding issue_tokens
  login_as now u password signed db =
      if not (is_active u.status)
      then (err forbidden, db)
      else if not (lib.compare_password u.password password)
      then (err unauthorized, db)
      else kept_where_failed (seen_at now u.id db) (issue_tokens now u signed (seen_at now u.id db))

  -- `Login`
  unfoldable pub login : ℕ → List ℕ → List ℕ → Signed → Accounts → Result LoginResult × Accounts
  unfolding find_user login_as
  login now username password signed db =
      elim (find_user (λ u. same_text u.username (trim_space username)) db.users) [
        | none ↦ (err unauthorized, db)
        | some u ↦ login_as now u password signed db
      ]

  -- The transaction at the end of `Refresh`: it is rolled back where the tokens cannot be issued.
  unfoldable pub rotate :
      ℕ → RefreshToken → Account → Signed → Accounts → Result LoginResult × Accounts
  unfolding revoke_id issue_tokens
  rotate now t u signed db =
      elim (issue_tokens now u signed (record db { tokens = revoke_id now t.id db.tokens })) [
        | err e ↦ (err internal, db)
        | ok r ↦ (ok r.0, r.1)
      ]

  -- `Refresh`, for a token that was found.
  unfoldable pub refresh_with : ℕ → RefreshToken → Signed → Accounts → Result LoginResult × Accounts
  unfolding get_user rotate
  refresh_with now t signed db = elim (get_user db t.user_id) [
    | err e ↦ (err unauthorized, db)
    | ok u ↦ if is_active u.status then rotate now t u signed db else (err forbidden, db)
  ]

  -- `Refresh`
  unfoldable pub refresh : ℕ → List ℕ → Signed → Accounts → Result LoginResult × Accounts
  unfolding find_token refresh_with
  refresh now raw signed db =
      if is_empty raw || not (lib.verify_refresh now raw)
      then (err unauthorized, db)
      else elim (find_token now (lib.hash_token raw) db.tokens) [
        | none ↦ (err unauthorized, db)
        | some t ↦ refresh_with now t signed db
      ]

  -- `Logout`
  unfoldable pub logout : ℕ → List ℕ → Accounts → Accounts
  unfolding revoke_hash
  logout now raw db =
      if is_empty raw
      then db
      else record db { tokens = revoke_hash now (lib.hash_token raw) db.tokens }
