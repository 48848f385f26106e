-- ===== src/Auth/Untouched.antt =====
-- The changes of accounts leave the tokens alone.
use orbit_cloud.Base.{ℕ, ◌≡◌, Option, List, arith}
use orbit_cloud.Base.Errors.{Result}
use orbit_cloud.Base.Int.{ℤ}
use orbit_cloud.Auth.{Accounts, Libraries}
use orbit_cloud.Auth.Profile.{
  UpdateMeInput, UpdateUserInput, register, update_me, update_user, update_user_quota, delete_user,
}

pub tokens-register :
    (lib : Libraries) (username password : List ℕ) (level : ℤ) (hashed : Result (List ℕ))
    (db : Accounts)
    → (register lib username password level hashed db).1.tokens ≡ db.tokens
unfolding register
tokens-register lib username password level hashed db = ground arith

pub tokens-update_me :
    (lib : Libraries) (id : ℕ) (input : UpdateMeInput) (hashed : Result (List ℕ)) (db : Accounts)
    → (update_me lib id input hashed db).1.tokens ≡ db.tokens
unfolding update_me
tokens-update_me lib id input hashed db = ground arith

pub tokens-update_user :
    (lib : Libraries) (id : ℕ) (input : UpdateUserInput) (hashed : Result (List ℕ)) (db : Accounts)
    → (update_user lib id input hashed db).1.tokens ≡ db.tokens
unfolding update_user
tokens-update_user lib id input hashed db = ground arith

pub tokens-update_user_quota :
    (id : ℕ) (quota : Option ℤ) (db : Accounts)
    → (update_user_quota id quota db).1.tokens ≡ db.tokens
unfolding update_user_quota
tokens-update_user_quota id quota db = ground arith

pub tokens-delete_user : (id : ℕ) (db : Accounts) → (delete_user id db).1.tokens ≡ db.tokens
unfolding delete_user
tokens-delete_user id db = ground arith
