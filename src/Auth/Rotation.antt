-- ===== src/Auth/Rotation.antt =====
-- `Refresh` takes a token once, and gives one that serves in its place.
use orbit_cloud.Base.{
  ℕ, ◌+◌, ◌≤◌, ◌<◌, ◌≡◌, refl, sym, ◌∙◌, ap, inl, inr, true, false, some, List, [], ◌∷◌, ◌++◌, ◌==◌,
  Bool-cases, Option-cases, arith,
}
use orbit_cloud.Base.Errors.{ok, err, unauthorized, Result-cases, bind-ok}
use orbit_cloud.Names.{same_text, same_text_refl, same_text→≡}
use orbit_cloud.Auth.{
  Account, RefreshToken, Accounts, Libraries, Signed, LoginResult, find_token, is_live, revoke_id,
  token_taken, store_token, issue_tokens, rotate, refresh_with, refresh, new_token, get_user,
  find_user, is_active, is_empty, sanitized,
}
use orbit_cloud.Auth.Calls.{Call, run, AllSign}
use orbit_cloud.Auth.Invariant.{run-P, store_token_added}
use orbit_cloud.Auth.Single.{
  usable, count_of, find_token_unusable, usable-revoke_found, usable-append, unusable_closed,
}

find_token_taken :
    (now : ℕ) (h : List ℕ) (ts : List RefreshToken) (t : RefreshToken)
    → find_token now h ts ≡ some t
    → token_taken h ts ≡ true
unfolding find_token token_taken
find_token_taken now h [] t f = cc
find_token_taken now h (x ∷ rest) t f = ground (arith, find_token_taken now h rest t)

token_taken-revoke_id :
    (h : List ℕ) (now id : ℕ) (ts : List RefreshToken)
    → token_taken h (revoke_id now id ts) ≡ token_taken h ts
unfolding token_taken revoke_id
token_taken-revoke_id h now id [] = refl
token_taken-revoke_id h now id (t ∷ rest) = ground (arith, token_taken-revoke_id h now id rest)

untaken_differs :
    (now : ℕ) (h k : List ℕ) (ts : List RefreshToken) (t : RefreshToken)
    → find_token now h ts ≡ some t
    → token_taken k ts ≡ false
    → same_text k h ≡ false
untaken_differs now h k ts t f n = elim (Bool-cases (same_text k h)) [
  | inr b ↦ b
  | inl b ↦ let taken = find_token_taken now h ts t f in ground (arith, rw (same_text→≡ k h b) at n)
]

find_token_appended :
    (now : ℕ) (h : List ℕ) (ts : List RefreshToken) (t : RefreshToken)
    → token_taken h ts ≡ false
    → same_text t.token h ≡ true
    → is_live now t ≡ true
    → find_token now h (ts ++ (t ∷ [])) ≡ some t
unfolding find_token token_taken
find_token_appended now h [] t n s l = ground arith
find_token_appended now h (x ∷ rest) t n s l = ground (arith, find_token_appended now h rest t)

id-find_user :
    (i : ℕ) (users : List Account) (u : Account)
    → find_user (λ u. u.id == i) users ≡ some u
    → u.id ≡ i
unfolding find_user
id-find_user i [] u f = cc
id-find_user i (x ∷ rest) u f = ground (arith, id-find_user i rest u)

pub id-get_user : (db : Accounts) (i : ℕ) (u : Account) → get_user db i ≡ ok u → u.id ≡ i
unfolding get_user
id-get_user db i u e = elim (Option-cases (find_user (λ u. u.id == i) db.users)) [
  | inl f ↦ absurd (ground (arith, rw (f, get_user) at e))
  | inr (v, f) ↦ ground (arith, rw (f, get_user) at e, id-find_user i db.users v f)
]

get_user-users : (db db' : Accounts) (i : ℕ) → db'.users ≡ db.users → get_user db' i ≡ get_user db i
unfolding get_user
get_user-users db db' i e = rw (e, get_user) refl

module _ (lib : Libraries) where
  -- What a refresh that succeeds has found and done.
  pub record Rotated (now : ℕ) (raw : List ℕ) (signed : Signed) (db : Accounts) (r : LoginResult)
      (db' : Accounts) : Type 0 where
    pub old : RefreshToken
    pub user : Account
    pub found : find_token now (lib.hash_token raw) db.tokens ≡ some old
    pub loaded : get_user db old.user_id ≡ ok user
    pub active : is_active user.status ≡ true
    pub refreshed : signed.refresh_token ≡ ok r.refresh_token
    pub fresh :
        token_taken (lib.hash_token r.refresh_token) (revoke_id now old.id db.tokens) ≡ false
    pub users_kept : db'.users ≡ db.users
    pub added :
        db'.tokens
        ≡ revoke_id now old.id db.tokens
          ++ (new_token lib now user (lib.hash_token r.refresh_token) db ∷ [])

  refresh_found :
      (now : ℕ) (raw : List ℕ) (signed : Signed) (db : Accounts) {r : LoginResult} {db' : Accounts}
      → refresh lib now raw signed db ≡ (ok r, db')
      → (t : RefreshToken) × (find_token now (lib.hash_token raw) db.tokens ≡ some t)
        × (refresh_with lib now t signed db ≡ (ok r, db'))
  unfolding refresh
  refresh_found now raw signed db e =
      elim (Option-cases (find_token now (lib.hash_token raw) db.tokens)) [
        | inl f ↦ absurd (ground (arith, rw (f, refresh) at e))
        | inr (t, f) ↦ (t, f, ground (arith, rw (f, refresh) at e))
      ]

  refresh_loaded :
      (now : ℕ) (t : RefreshToken) (signed : Signed) (db : Accounts) {r : LoginResult}
      {db' : Accounts}
      → refresh_with lib now t signed db ≡ (ok r, db')
      → (u : Account) × (get_user db t.user_id ≡ ok u)
        × (is_active u.status ≡ true)
        × (rotate lib now t u signed db ≡ (ok r, db'))
  unfolding refresh_with
  refresh_loaded now t signed db e = elim (Result-cases (get_user db t.user_id)) [
    | inr (x, f) ↦ absurd (ground (arith, rw (f, refresh_with) at e))
    | inl (u, f) ↦
        let e' = rw (f, refresh_with) at e in (u, f, ground (arith, e'), ground (arith, e'))
  ]

  rotate_issued :
      (now : ℕ) (t : RefreshToken) (u : Account) (signed : Signed) (db : Accounts) {r : LoginResult}
      {db' : Accounts}
      → rotate lib now t u signed db ≡ (ok r, db')
      → issue_tokens lib now u signed (record db { tokens = revoke_id now t.id db.tokens })
        ≡ ok (r, db')
  unfolding rotate
  rotate_issued now t u signed db e =
      let mid = record db { tokens = revoke_id now t.id db.tokens } in
      elim (Result-cases (issue_tokens lib now u signed mid)) [
        | inr (x, f) ↦ absurd (ground (arith, rw (f, rotate) at e))
        | inl (s, f) ↦ f ∙ ground (arith, rw (f, rotate) at e)
      ]

  store_token_result :
      (now : ℕ) (u : Account) (access raw : List ℕ) (db : Accounts) {r : LoginResult × Accounts}
      → store_token lib now u access raw db ≡ ok r
      → r.0.refresh_token ≡ raw
  unfolding store_token
  store_token_result now u access raw db e = ground arith

  pub store_token_users :
      (now : ℕ) (u : Account) (access raw : List ℕ) (db : Accounts) {r : LoginResult × Accounts}
      → store_token lib now u access raw db ≡ ok r
      → r.1.users ≡ db.users
  unfolding store_token
  store_token_users now u access raw db e = ground arith

  refresh-Rotated :
      (now : ℕ) (raw : List ℕ) (signed : Signed) (db : Accounts) {r : LoginResult} {db' : Accounts}
      → refresh lib now raw signed db ≡ (ok r, db')
      → Rotated now raw signed db r db'
  unfolding issue_tokens
  refresh-Rotated now raw signed db {r} {db'} e =
      let (t, found, e1) = refresh_found now raw signed db e in
      let (u, loaded, active, e2) = refresh_loaded now t signed db e1 in
      let mid = record db { tokens = revoke_id now t.id db.tokens } in
      let (access, p, e3) = bind-ok signed.access_token _ (rotate_issued now t u signed db e2) in
      let (new, q, e4) = bind-ok signed.refresh_token _ e3 in
      let same = store_token_result now u access new mid e4 in
      let (fresh, added) = store_token_added lib now u access new mid e4 in
      record {
        old = t;
        user = u;
        found = found;
        loaded = loaded;
        active = active;
        refreshed = q ∙ ap ok (sym same);
        fresh = rw same fresh;
        users_kept = store_token_users now u access new mid e4;
        added = rw same added;
      }

  Rotated-unusable :
      (now : ℕ) (raw : List ℕ) (signed : Signed) (db : Accounts) {r : LoginResult} {db' : Accounts}
      → count_of (lib.hash_token raw) db.tokens ≤ 1
      → Rotated now raw signed db r db'
      → usable (lib.hash_token raw) db'.tokens ≡ false
  Rotated-unusable now raw signed db {r} {db'} c w =
      let h = lib.hash_token raw in
      let k = lib.hash_token r.refresh_token in
      let gone = usable-revoke_found now now h db.tokens w.old w.found c in
      let untaken = sym (token_taken-revoke_id k now w.old.id db.tokens) ∙ w.fresh in
      let other = untaken_differs now h k db.tokens w.old w.found untaken in
      rw w.added (
        usable-append h (revoke_id now w.old.id db.tokens) (new_token lib now w.user k db) gone
          other)

  refresh_unusable :
      (now : ℕ) (raw : List ℕ) (signed : Signed) (db : Accounts)
      → usable (lib.hash_token raw) db.tokens ≡ false
      → refresh lib now raw signed db ≡ (err unauthorized, db)
  unfolding refresh
  refresh_unusable now raw signed db u =
      let gone = find_token_unusable now (lib.hash_token raw) db.tokens u in
      rw (gone, refresh) (ground arith)

  -- A refresh token that was taken once is refused ever after, whatever calls follow, as long as
  -- no token is signed that has its hash.
  pub refresh-run-refresh :
      (now : ℕ) (raw : List ℕ) (signed : Signed) (db : Accounts) {r : LoginResult} {db1 : Accounts}
      (calls : List Call) (later : ℕ) (again : Signed)
      → count_of (lib.hash_token raw) db.tokens ≤ 1
      → refresh lib now raw signed db ≡ (ok r, db1)
      → AllSign lib (λ k. same_text k (lib.hash_token raw) ≡ false) calls
      → (refresh lib later raw again (run lib calls db1)).0 ≡ err unauthorized
  refresh-run-refresh now raw signed db {r} {db1} calls later again c e s =
      let h = lib.hash_token raw in
      let gone = Rotated-unusable now raw signed db c (refresh-Rotated now raw signed db e) in
      let stays =
        run-P lib (λ k. same_text k h ≡ false) (λ ts. usable h ts ≡ false) (unusable_closed h) calls
          db1 gone s in
      ap (λ z. z.0) (refresh_unusable later raw again (run lib calls db1) stays)

  refresh_serves :
      (now : ℕ) (raw : List ℕ) (signed : Signed) (db : Accounts) (t : RefreshToken) (u : Account)
      (access new : List ℕ)
      → is_empty raw ≡ false
      → lib.verify_refresh now raw ≡ true
      → find_token now (lib.hash_token raw) db.tokens ≡ some t
      → get_user db t.user_id ≡ ok u
      → is_active u.status ≡ true
      → signed.access_token ≡ ok access
      → signed.refresh_token ≡ ok new
      → token_taken (lib.hash_token new) db.tokens ≡ false
      → (r : LoginResult) × ((refresh lib now raw signed db).0 ≡ ok r) × (r.refresh_token ≡ new)
  unfolding refresh refresh_with rotate issue_tokens store_token
  refresh_serves now raw signed db t u access new e v f g a p q n =
      let kept = token_taken-revoke_id (lib.hash_token new) now t.id db.tokens ∙ n in
      (
        record { access_token = access; refresh_token = new; user = sanitized u },
        rw (e, v, f, refresh_with, g, a, rotate, p, q, store_token, kept) refl,
        refl,
      )

  -- The token that a refresh gives serves for the next one until it expires, where the library
  -- takes it, and signs tokens whose hash is new.
  pub refresh-refresh :
      (now later : ℕ) (raw : List ℕ) (signed again : Signed) (db : Accounts) {r : LoginResult}
      {db1 : Accounts} (access new : List ℕ)
      → refresh lib now raw signed db ≡ (ok r, db1)
      → later < now + lib.refresh_ttl
      → is_empty r.refresh_token ≡ false
      → lib.verify_refresh later r.refresh_token ≡ true
      → again.access_token ≡ ok access
      → again.refresh_token ≡ ok new
      → token_taken (lib.hash_token new) db1.tokens ≡ false
      → (r' : LoginResult) × ((refresh lib later r.refresh_token again db1).0 ≡ ok r')
        × (r'.refresh_token ≡ new)
  refresh-refresh now later raw signed again db {r} {db1} access new e l m v p q n =
      let w = refresh-Rotated now raw signed db e in
      let k = lib.hash_token r.refresh_token in
      let t = new_token lib now w.user k db in
      let live : is_live later t ≡ true = ground arith in
      let found =
        ap (find_token later k) w.added
        ∙ find_token_appended later k (revoke_id now w.old.id db.tokens) t w.fresh
            (same_text_refl k) live in
      let loaded =
        get_user-users db db1 w.user.id w.users_kept
        ∙ (ap (get_user db) (id-get_user db w.old.user_id w.user w.loaded) ∙ w.loaded) in
      refresh_serves later r.refresh_token again db1 t w.user access new m v found loaded w.active p
        q n
