-- ===== src/Auth/Invariant.antt =====
-- What the four ways in which the table of tokens changes keep, every sequence of calls keeps.
use orbit_cloud.Base.{
  ℕ, zero, suc, ◌+◌, ◌-◌, ◌≡◌, inl, inr, false, Option, none, some, List, [], ◌∷◌, ◌++◌, ltb, ◌==◌,
  length, Bool-cases, Option-cases, arith,
}
use orbit_cloud.Base.Errors.{ok, Result-cases, bind-ok}
use orbit_cloud.Base.Int.{ℤ}
use orbit_cloud.Names.{same_text, trim_space}
use orbit_cloud.Cron.{
  Table, clean_expired, clean_from, delete_ids, next_id_batch, last_id, batch_size_of,
}
use orbit_cloud.Auth.Cleanup.{expired_tokens, clean_expired_tokens}
use orbit_cloud.Auth.Untouched.{
  tokens-register, tokens-update_me, tokens-update_user, tokens-update_user_quota,
  tokens-delete_user,
}
use orbit_cloud.Auth.Calls.{
  Call, registers, logs_in, refreshes, logs_out, updates_me, updates_user, updates_quota,
  deletes_user, cleans, cleaned, apply, run, Signs, CallSigns, AllSign,
}
use orbit_cloud.Auth.{
  Account, RefreshToken, Accounts, Libraries, Signed, LoginResult, find_token, revoke_id,
  revoke_hash, token_taken, store_token, issue_tokens, rotate, refresh_with, refresh, login,
  login_as, new_token, get_user, find_user, seen_at,
}

-- The four changes; a hash that is added is allowed and new.
pub record IsClosed (Allowed : List ℕ → Type 0) (P : List RefreshToken → Type 0) : Type 0 where
  pub revoking_id : (now id : ℕ) (ts : List RefreshToken) → P ts → P (revoke_id now id ts)
  pub revoking_hash :
      (now : ℕ) (k : List ℕ) (ts : List RefreshToken) → P ts → P (revoke_hash now k ts)
  pub adding :
      (ts : List RefreshToken) (t : RefreshToken)
      → P ts
      → token_taken t.token ts ≡ false
      → Allowed t.token
      → P (ts ++ (t ∷ []))
  pub deleting :
      (table : Table RefreshToken) (ids : List ℕ) (ts : List RefreshToken)
      → P ts
      → P (delete_ids table ids ts)

pub store_token_added :
    (lib : Libraries) (now : ℕ) (u : Account) (access raw : List ℕ) (db : Accounts)
    {r : LoginResult × Accounts}
    → store_token lib now u access raw db ≡ ok r
    → (token_taken (lib.hash_token raw) db.tokens ≡ false)
      × (r.1.tokens ≡ db.tokens ++ (new_token lib now u (lib.hash_token raw) db ∷ []))
unfolding store_token
store_token_added lib now u access raw db {r} e = (ground arith, ground arith)

module _ (lib : Libraries) (Allowed : List ℕ → Type 0) (P : List RefreshToken → Type 0)
    (closed : IsClosed Allowed P) where
  abbrev LeavesP : Option (ℕ × List RefreshToken) → Type 0
  LeavesP none = Unit {0}
  LeavesP (some (total, ts)) = P ts

  clean_from-P :
      (table : Table RefreshToken) (fuel size cursor total : ℕ) (ts : List RefreshToken)
      → P ts
      → LeavesP (clean_from table fuel size cursor total ts)
  unfolding clean_from
  clean_from-P table zero size cursor total ts u = tt
  clean_from-P table (suc fuel) size cursor total ts u =
      let ids = (next_id_batch table cursor size ts).0 in
      let left = delete_ids table ids ts in
      let gone = closed.deleting table ids ts u in
      let rest =
        clean_from-P table fuel size (last_id cursor ids) (total + (length ts - length left)) left
          gone in
      elim (Bool-cases (length ids == 0)) [
        | inl z ↦ rw z u
        | inr z ↦ elim (Bool-cases (ltb (length ids) size)) [
          | inl m ↦ rw (z, m) gone
          | inr m ↦ rw (z, m) rest
        ]
      ]

  store_token-P :
      (now : ℕ) (u : Account) (access raw : List ℕ) (db : Accounts) {r : LoginResult × Accounts}
      → P db.tokens
      → Allowed (lib.hash_token raw)
      → store_token lib now u access raw db ≡ ok r
      → P r.1.tokens
  unfolding store_token
  store_token-P now u access raw db {r} o s e =
      let (new, added) = store_token_added lib now u access raw db e in
      rw added (closed.adding db.tokens (new_token lib now u (lib.hash_token raw) db) o new s)

  issue_tokens-P :
      (now : ℕ) (u : Account) (signed : Signed) (db : Accounts) {r : LoginResult × Accounts}
      → P db.tokens
      → Signs lib Allowed signed.refresh_token
      → issue_tokens lib now u signed db ≡ ok r
      → P r.1.tokens
  unfolding issue_tokens
  issue_tokens-P now u signed db {r} o s e =
      let (access, p, e1) = bind-ok signed.access_token _ e in
      let (raw, q, e2) = bind-ok signed.refresh_token _ e1 in
      store_token-P now u access raw db o (rw q at s) e2

  rotate-P :
      (now : ℕ) (t : RefreshToken) (u : Account) (signed : Signed) (db : Accounts)
      → P db.tokens
      → Signs lib Allowed signed.refresh_token
      → P (rotate lib now t u signed db).1.tokens
  unfolding rotate
  rotate-P now t u signed db o s =
      let mid = record db { tokens = revoke_id now t.id db.tokens } in
      elim (Result-cases (issue_tokens lib now u signed mid)) [
        | inr (e, p) ↦ rw (p, rotate) o
        | inl (r, p) ↦
            rw (p, rotate)
              (issue_tokens-P now u signed mid (closed.revoking_id now t.id db.tokens o) s p)
      ]

  login_as-P :
      (now : ℕ) (u : Account) (password : List ℕ) (signed : Signed) (db : Accounts)
      → P db.tokens
      → Signs lib Allowed signed.refresh_token
      → P (login_as lib now u password signed db).1.tokens
  unfolding login_as
  login_as-P now u password signed db o s =
      let seen = seen_at now u.id db in
      elim (Result-cases (issue_tokens lib now u signed seen)) [
        | inr (e, p) ↦ rw (p, login_as) (ground (arith, o))
        | inl (r, p) ↦
            let after = issue_tokens-P now u signed seen o s p in
            rw (p, login_as) (ground (arith, o, after))
      ]

  login-P :
      (now : ℕ) (username password : List ℕ) (signed : Signed) (db : Accounts)
      → P db.tokens
      → Signs lib Allowed signed.refresh_token
      → P (login lib now username password signed db).1.tokens
  unfolding login
  login-P now username password signed db o s =
      elim (Option-cases (find_user (λ u. same_text u.username (trim_space username)) db.users)) [
        | inl e ↦ rw (e, login) o
        | inr (u, e) ↦ rw (e, login) (login_as-P now u password signed db o s)
      ]

  refresh_with-P :
      (now : ℕ) (t : RefreshToken) (signed : Signed) (db : Accounts)
      → P db.tokens
      → Signs lib Allowed signed.refresh_token
      → P (refresh_with lib now t signed db).1.tokens
  unfolding refresh_with
  refresh_with-P now t signed db o s = elim (Result-cases (get_user db t.user_id)) [
    | inr (e, p) ↦ rw (p, refresh_with) o
    | inl (u, p) ↦
        let rotated = rotate-P now t u signed db o s in
        rw (p, refresh_with) (ground (arith, o, rotated))
  ]

  refresh-P :
      (now : ℕ) (raw : List ℕ) (signed : Signed) (db : Accounts)
      → P db.tokens
      → Signs lib Allowed signed.refresh_token
      → P (refresh lib now raw signed db).1.tokens
  unfolding refresh
  refresh-P now raw signed db o s =
      elim (Option-cases (find_token now (lib.hash_token raw) db.tokens)) [
        | inl e ↦ rw (e, refresh) (ground (arith, o))
        | inr (t, e) ↦
            let rest = refresh_with-P now t signed db o s in
            rw (e, refresh) (ground (arith, o, rest))
      ]

  clean-P :
      (now : ℕ) (batch_size : ℤ) (db : Accounts)
      → P db.tokens
      → P (cleaned db (clean_expired_tokens now batch_size db)).tokens
  unfolding clean_expired_tokens clean_expired
  clean-P now batch_size db o =
      let table = expired_tokens now in
      let fuel = suc (length db.tokens) in
      let size = batch_size_of batch_size in
      let left = clean_from-P table fuel size 0 0 db.tokens o in
      elim (Option-cases (clean_from table fuel size 0 0 db.tokens)) [
        | inl e ↦ rw (e, clean_expired_tokens) o
        | inr (r, e) ↦ rw (e, clean_expired_tokens) (rw e at left)
      ]

  apply-P :
      (call : Call) (db : Accounts)
      → P db.tokens
      → CallSigns lib Allowed call
      → P (apply lib call db).tokens
  unfolding apply
  apply-P (registers username password level hashed) db o s =
      rw (tokens-register lib username password level hashed db) o
  apply-P (logs_in now username password signed) db o s =
      login-P now username password signed db o s
  apply-P (refreshes now raw signed) db o s = refresh-P now raw signed db o s
  apply-P (logs_out now raw) db o s =
      ground (arith, closed.revoking_hash now (lib.hash_token raw) db.tokens o, o)
  apply-P (updates_me id input hashed) db o s = rw (tokens-update_me lib id input hashed db) o
  apply-P (updates_user id input hashed) db o s = rw (tokens-update_user lib id input hashed db) o
  apply-P (updates_quota id quota) db o s = rw (tokens-update_user_quota id quota db) o
  apply-P (deletes_user id) db o s = rw (tokens-delete_user id db) o
  apply-P (cleans now batch_size) db o s = clean-P now batch_size db o

  -- Every sequence of calls keeps it.
  pub run-P :
      (calls : List Call) (db : Accounts)
      → P db.tokens
      → AllSign lib Allowed calls
      → P (run lib calls db).tokens
  unfolding run
  run-P [] db o s = o
  run-P (call ∷ calls) db o s = run-P calls (apply lib call db) (apply-P call db o s.0) s.1
