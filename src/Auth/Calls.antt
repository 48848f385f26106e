-- ===== src/Auth/Calls.antt =====
-- Sequences of the calls that change the tables of accounts and tokens.
use orbit_cloud.Base.{ℕ, Option, none, some, List, [], ◌∷◌}
use orbit_cloud.Base.Errors.{Result, ok, err}
use orbit_cloud.Base.Int.{ℤ}
use orbit_cloud.Auth.{Accounts, Libraries, Signed, login, refresh, logout}
use orbit_cloud.Auth.Profile.{
  UpdateMeInput, UpdateUserInput, register, update_me, update_user, update_user_quota, delete_user,
}
use orbit_cloud.Auth.Cleanup.{clean_expired_tokens}

pub data Call : Type 0 where
  registers : List ℕ → List ℕ → ℤ → Result (List ℕ) → Call
  logs_in : ℕ → List ℕ → List ℕ → Signed → Call
  refreshes : ℕ → List ℕ → Signed → Call
  logs_out : ℕ → List ℕ → Call
  updates_me : ℕ → UpdateMeInput → Result (List ℕ) → Call
  updates_user : ℕ → UpdateUserInput → Result (List ℕ) → Call
  updates_quota : ℕ → Option ℤ → Call
  deletes_user : ℕ → Call
  cleans : ℕ → ℤ → Call

abbrev pub cleaned : Accounts → Option (ℕ × Accounts) → Accounts
cleaned db none = db
cleaned db (some (total, db')) = db'

unfoldable pub apply : Libraries → Call → Accounts → Accounts
unfolding register login refresh logout update_me update_user update_user_quota delete_user
    clean_expired_tokens
apply lib (registers username password level hashed) db =
    (register lib username password level hashed db).1
apply lib (logs_in now username password signed) db = (login lib now username password signed db).1
apply lib (refreshes now raw signed) db = (refresh lib now raw signed db).1
apply lib (logs_out now raw) db = logout lib now raw db
apply lib (updates_me id input hashed) db = (update_me lib id input hashed db).1
apply lib (updates_user id input hashed) db = (update_user lib id input hashed db).1
apply lib (updates_quota id quota) db = (update_user_quota id quota db).1
apply lib (deletes_user id) db = (delete_user id db).1
apply lib (cleans now batch_size) db = cleaned db (clean_expired_tokens now batch_size db)

unfoldable pub run : Libraries → List Call → Accounts → Accounts
unfolding apply
run lib [] db = db
run lib (call ∷ calls) db = run lib calls (apply lib call db)

-- Each token that is signed has a hash that is allowed.
abbrev pub Signs : Libraries → (List ℕ → Type 0) → Result (List ℕ) → Type 0
Signs lib Allowed (err e) = Unit {0}
Signs lib Allowed (ok raw) = Allowed (lib.hash_token raw)

abbrev pub CallSigns : Libraries → (List ℕ → Type 0) → Call → Type 0
CallSigns lib Allowed (registers username password level hashed) = Unit {0}
CallSigns lib Allowed (logs_in now username password signed) =
    Signs lib Allowed signed.refresh_token
CallSigns lib Allowed (refreshes now raw signed) = Signs lib Allowed signed.refresh_token
CallSigns lib Allowed (logs_out now raw) = Unit {0}
CallSigns lib Allowed (updates_me id input hashed) = Unit {0}
CallSigns lib Allowed (updates_user id input hashed) = Unit {0}
CallSigns lib Allowed (updates_quota id quota) = Unit {0}
CallSigns lib Allowed (deletes_user id) = Unit {0}
CallSigns lib Allowed (cleans now batch_size) = Unit {0}

abbrev pub AllSign : Libraries → (List ℕ → Type 0) → List Call → Type 0
AllSign lib Allowed [] = Unit {0}
AllSign lib Allowed (call ∷ calls) = CallSigns lib Allowed call × AllSign lib Allowed calls

Signs-any : (lib : Libraries) (r : Result (List ℕ)) → Signs lib (λ k. Unit {0}) r
Signs-any lib (err e) = tt
Signs-any lib (ok raw) = tt

CallSigns-any : (lib : Libraries) (call : Call) → CallSigns lib (λ k. Unit {0}) call
CallSigns-any lib (registers username password level hashed) = tt
CallSigns-any lib (logs_in now username password signed) = Signs-any lib signed.refresh_token
CallSigns-any lib (refreshes now raw signed) = Signs-any lib signed.refresh_token
CallSigns-any lib (logs_out now raw) = tt
CallSigns-any lib (updates_me id input hashed) = tt
CallSigns-any lib (updates_user id input hashed) = tt
CallSigns-any lib (updates_quota id quota) = tt
CallSigns-any lib (deletes_user id) = tt
CallSigns-any lib (cleans now batch_size) = tt

pub AllSign-any : (lib : Libraries) (calls : List Call) → AllSign lib (λ k. Unit {0}) calls
AllSign-any lib [] = tt
AllSign-any lib (call ∷ calls) = (CallSigns-any lib call, AllSign-any lib calls)
