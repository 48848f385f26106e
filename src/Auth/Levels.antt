-- ===== src/Auth/Levels.antt =====
-- Nobody becomes a super administrator by the calls of the interface.
use orbit_cloud.Base.{
  ℕ, ◌≤◌, ◌≡◌, refl, ap, inl, inr, true, Option, some, List, [], ◌∷◌, Option-cases, arith,
}
use orbit_cloud.Base.Errors.{Result, ok, Result-cases, bind-ok}
use orbit_cloud.Base.Int.{ℤ}
use orbit_cloud.Auth.{
  Account, Accounts, Libraries, Signed, LoginResult, RefreshToken, revoke_id, seen_at, issue_tokens,
  rotate, refresh_with, refresh, login, login_as, find_user, get_user, find_token,
}
use orbit_cloud.Auth.Profile.{
  UpdateMeInput, UpdateUserInput, change_password, change_name, change_email, changes_of, update_me,
  update_user, update_user_quota, delete_user,
}
use orbit_cloud.Auth.Cleanup.{clean_expired_tokens, expired_tokens}
use orbit_cloud.Cron.{clean_expired}
use orbit_cloud.Names.{same_text, trim_space}
use orbit_cloud.Auth.Rotation.{store_token_users}
use orbit_cloud.Auth.Calls.{
  Call, registers, logs_in, refreshes, logs_out, updates_me, updates_user, updates_quota,
  deletes_user, cleans, apply, run,
}
use orbit_cloud.Auth.Changes.{
  count_super, count_super-update_row, count_super-seen_at, count_super-register,
  change_password-AllLower, change_texts-lower, changes_of-AllLower,
}

count_super-update_user :
    (lib : Libraries) (id : ℕ) (input : UpdateUserInput) (hashed : Result (List ℕ)) (db : Accounts)
    → count_super (update_user lib id input hashed db).1.users ≤ count_super db.users
unfolding update_user
count_super-update_user lib id input hashed db = elim (Result-cases (get_user db id)) [
  | inr (e, p) ↦ rw (p, update_user) (omega arith)
  | inl (u, p) ↦ elim (Result-cases (changes_of lib input hashed)) [
    | inr (e, q) ↦ rw (p, update_user, q) (omega arith)
    | inl (change, q) ↦
        let lower = rw q at (changes_of-AllLower lib input hashed) in
        rw (p, update_user, q) (count_super-update_row id change db.users lower)
  ]
]

count_super-update_me :
    (lib : Libraries) (id : ℕ) (input : UpdateMeInput) (hashed : Result (List ℕ)) (db : Accounts)
    → count_super (update_me lib id input hashed db).1.users ≤ count_super db.users
unfolding update_me
count_super-update_me lib id input hashed db =
    elim (Result-cases (change_password lib input.password hashed)) [
      | inr (e, p) ↦ rw (p, update_me) (omega arith)
      | inl (c1, p) ↦
          let lower = rw p at (change_password-AllLower lib input.password hashed) in
          let all : Account → Account =
            λ u. change_email input.email (change_name input.name (c1 u)) in
          let fewer =
            count_super-update_row id all db.users
              (λ u. omega (arith, change_texts-lower input.name input.email (c1 u), lower u)) in
          rw (p, update_me) (ground (arith, fewer))
    ]

count_super-update_user_quota :
    (id : ℕ) (quota : Option ℤ) (db : Accounts)
    → count_super (update_user_quota id quota db).1.users ≤ count_super db.users
unfolding update_user_quota
count_super-update_user_quota id quota db =
    let fewer =
      count_super-update_row id (λ u. record u { quota = quota }) db.users (λ u. omega arith) in
    ground (arith, fewer)

count_super-delete_user :
    (id : ℕ) (db : Accounts) → count_super (delete_user id db).1.users ≤ count_super db.users
unfolding delete_user
count_super-delete_user id db =
    let fewer =
      count_super-update_row id (λ u. record u { deleted = true }) db.users (λ u. omega arith) in
    ground (arith, fewer)

users-clean :
    (now : ℕ) (batch_size : ℤ) (db : Accounts) {r : ℕ × Accounts}
    → clean_expired_tokens now batch_size db ≡ some r
    → r.1.users ≡ db.users
unfolding clean_expired_tokens
users-clean now batch_size db {r} e =
    elim (Option-cases (clean_expired (expired_tokens now) batch_size db.tokens)) [
      | inl f ↦ absurd (ground (arith, rw (f, clean_expired_tokens) at e))
      | inr (x, f) ↦ ground (arith, rw (f, clean_expired_tokens) at e)
    ]

module _ (lib : Libraries) where
  users-issue_tokens :
      (now : ℕ) (u : Account) (signed : Signed) (db : Accounts) {r : LoginResult × Accounts}
      → issue_tokens lib now u signed db ≡ ok r
      → r.1.users ≡ db.users
  unfolding issue_tokens
  users-issue_tokens now u signed db e =
      let (access, p, e1) = bind-ok signed.access_token _ e in
      let (new, q, e2) = bind-ok signed.refresh_token _ e1 in
      store_token_users lib now u access new db e2

  count_super-login_as :
      (now : ℕ) (u : Account) (password : List ℕ) (signed : Signed) (db : Accounts)
      → count_super (login_as lib now u password signed db).1.users ≡ count_super db.users
  unfolding login_as
  count_super-login_as now u password signed db =
      let seen = seen_at now u.id db in
      let same = count_super-seen_at now u.id db.users in
      elim (Result-cases (issue_tokens lib now u signed seen)) [
        | inr (e, p) ↦ rw (p, login_as) (ground (arith, same))
        | inl (r, p) ↦
            let kept = ap count_super (users-issue_tokens now u signed seen p) in
            rw (p, login_as) (ground (arith, same, kept))
      ]

  count_super-login :
      (now : ℕ) (username password : List ℕ) (signed : Signed) (db : Accounts)
      → count_super (login lib now username password signed db).1.users ≡ count_super db.users
  unfolding login
  count_super-login now username password signed db =
      elim (Option-cases (find_user (λ u. same_text u.username (trim_space username)) db.users)) [
        | inl e ↦ rw (e, login) refl
        | inr (u, e) ↦ rw (e, login) (count_super-login_as now u password signed db)
      ]

  users-rotate :
      (now : ℕ) (t : RefreshToken) (u : Account) (signed : Signed) (db : Accounts)
      → (rotate lib now t u signed db).1.users ≡ db.users
  unfolding rotate
  users-rotate now t u signed db =
      let mid = record db { tokens = revoke_id now t.id db.tokens } in
      elim (Result-cases (issue_tokens lib now u signed mid)) [
        | inr (e, p) ↦ rw (p, rotate) refl
        | inl (r, p) ↦ rw (p, rotate) (users-issue_tokens now u signed mid p)
      ]

  users-refresh_with :
      (now : ℕ) (t : RefreshToken) (signed : Signed) (db : Accounts)
      → (refresh_with lib now t signed db).1.users ≡ db.users
  unfolding refresh_with
  users-refresh_with now t signed db = elim (Result-cases (get_user db t.user_id)) [
    | inr (e, p) ↦ rw (p, refresh_with) refl
    | inl (u, p) ↦ rw (p, refresh_with) (ground (arith, users-rotate now t u signed db))
  ]

  users-refresh :
      (now : ℕ) (raw : List ℕ) (signed : Signed) (db : Accounts)
      → (refresh lib now raw signed db).1.users ≡ db.users
  unfolding refresh
  users-refresh now raw signed db =
      elim (Option-cases (find_token now (lib.hash_token raw) db.tokens)) [
        | inl e ↦ rw (e, refresh) (ground arith)
        | inr (t, e) ↦ rw (e, refresh) (ground (arith, users-refresh_with now t signed db))
      ]

  count_super-apply :
      (call : Call) (db : Accounts) → count_super (apply lib call db).users ≤ count_super db.users
  unfolding apply
  count_super-apply (registers username password level hashed) db =
      count_super-register lib username password level hashed db
  count_super-apply (logs_in now username password signed) db =
      omega (arith, count_super-login now username password signed db)
  count_super-apply (refreshes now raw signed) db =
      omega (arith, ap count_super (users-refresh now raw signed db))
  count_super-apply (logs_out now raw) db = ground arith
  count_super-apply (updates_me id input hashed) db = count_super-update_me lib id input hashed db
  count_super-apply (updates_user id input hashed) db =
      count_super-update_user lib id input hashed db
  count_super-apply (updates_quota id quota) db = count_super-update_user_quota id quota db
  count_super-apply (deletes_user id) db = count_super-delete_user id db
  count_super-apply (cleans now batch_size) db =
      elim (Option-cases (clean_expired_tokens now batch_size db)) [
        | inl e ↦ rw (e, apply) (omega arith)
        | inr (r, e) ↦
            rw (e, apply) (omega (arith, ap count_super (users-clean now batch_size db e)))
      ]

  -- The calls make no super administrator: there are never more rows of that level than at the
  -- beginning.
  pub count_super-run :
      (calls : List Call) (db : Accounts)
      → count_super (run lib calls db).users ≤ count_super db.users
  unfolding run
  count_super-run [] db = omega arith
  count_super-run (call ∷ calls) db =
      omega (arith, count_super-apply call db, count_super-run calls (apply lib call db))
