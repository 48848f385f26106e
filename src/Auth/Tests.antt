-- ===== src/Auth/Tests.antt =====
-- The theorems on accounts and tokens at a table of two users.
use orbit_cloud.Base.{ℕ, ◌≡◌, ◌≤◌, refl, true, false, none, some, List, [], ◌∷◌, arith}
use orbit_cloud.Base.Errors.{ok, err, unauthorized}
use orbit_cloud.Base.Int.{pos}
use orbit_cloud.Names.{same_text}
use orbit_cloud.Auth.{
  Account, RefreshToken, Accounts, Libraries, Signed, LoginResult, refresh, refresh_with, rotate,
  find_token, get_user, find_user, revoke_id, issue_tokens, store_token, token_taken,
}
use orbit_cloud.Auth.Calls.{
  Call, registers, logs_in, refreshes, logs_out, updates_user, cleans, run,
}
use orbit_cloud.Auth.Single.{count_of}
use orbit_cloud.Auth.Rotation.{refresh-run-refresh, refresh-refresh}
use orbit_cloud.Auth.Changes.{count_super}
use orbit_cloud.Auth.Levels.{count_super-run}

-- Hashes that keep the text, and tokens that are never refused.
abbrev plain : Libraries
plain = record {
  verify_refresh = λ now raw. true;
  hash_token = λ raw. raw;
  compare_password = λ hash password. same_text hash password;
  nt_hash_of = λ password. password;
  refresh_ttl = 100;
}

abbrev alice : Account
alice = record {
  id = 1;
  username = b'a' ∷ [];
  password = b'p' ∷ [];
  name = b'a' ∷ [];
  email = [];
  permission_level = 0;
  status = pos 1;
  nt_hash = [];
  quota = none;
  last_login = none;
  deleted = false;
}

abbrev issued : RefreshToken
issued = record { id = 1; user_id = 1; token = 7 ∷ []; expires_at = 50; revoked_at = none }

abbrev accounts : Accounts
accounts = record { users = alice ∷ []; tokens = issued ∷ []; next_user_id = 2; next_token_id = 2 }

abbrev signs : ℕ → Signed
signs n = record { access_token = ok (0 ∷ []); refresh_token = ok (n ∷ []) }

abbrev calls : List Call
calls =
    logs_in 12 (b'a' ∷ []) (b'p' ∷ []) (signs 9)
    ∷ refreshes 13 (8 ∷ []) (signs 10)
    ∷ logs_out 14 (9 ∷ [])
    ∷ cleans 60 (pos 1)
    ∷ []

refresh-run-refresh_example :
    (refresh plain 70
      (7 ∷ [])
      (signs 11)
      (run plain calls (refresh plain 10 (7 ∷ []) (signs 8) accounts).1)).0
    ≡ err unauthorized
unfolding refresh refresh_with rotate find_token get_user find_user revoke_id issue_tokens
    store_token token_taken same_text count_of
refresh-run-refresh_example =
    refresh-run-refresh plain 10 (7 ∷ []) (signs 8) accounts calls 70 (signs 11) (omega arith) refl
      (refl, (refl, (tt, (tt, tt))))

refresh-refresh_example :
    (r : LoginResult) × ((refresh plain 90
        (8 ∷ [])
        (signs 9)
        (refresh plain 10 (7 ∷ []) (signs 8) accounts).1).0
      ≡ ok r)
    × (r.refresh_token ≡ 9 ∷ [])
unfolding refresh refresh_with rotate find_token get_user find_user revoke_id issue_tokens
    store_token token_taken same_text
refresh-refresh_example =
    refresh-refresh plain 10 90 (7 ∷ []) (signs 8) (signs 9) accounts (0 ∷ []) (9 ∷ []) refl
      (omega arith) refl refl refl refl refl

-- One asks for the highest level.
abbrev climbing : List Call
climbing =
    registers (b'b' ∷ []) (1 ∷ 2 ∷ 3 ∷ 4 ∷ 5 ∷ 6 ∷ 7 ∷ 8 ∷ []) (pos 0) (ok (9 ∷ []))
    ∷ updates_user 2
        (record {
          password = [];
          name = [];
          email = [];
          permission_level = some (pos 0);
          status = none;
          quota = none;
        })
        (ok [])
    ∷ []

count_super-run_example :
    count_super (run plain climbing accounts).users ≤ count_super accounts.users
count_super-run_example = count_super-run plain climbing accounts
