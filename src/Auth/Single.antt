-- ===== src/Auth/Single.antt =====
-- A refresh token serves once, and no two rows have one hash.
use orbit_cloud.Base.{
  ℕ, suc, ◌+◌, ◌≤◌, ◌≡◌, refl, inl, inr, Bool, true, false, ◌&&◌, ◌||◌, none, some, List, [], ◌∷◌,
  ◌++◌, if◌then◌else◌, Bool-cases, arith,
}
use orbit_cloud.Names.{same_text, same_text→≡}
use orbit_cloud.Cron.{Table, delete_ids}
use orbit_cloud.Auth.Invariant.{IsClosed, run-P}
use orbit_cloud.Auth.Calls.{Call, run, AllSign-any}
use orbit_cloud.Auth.{
  RefreshToken, Accounts, Libraries, find_token, revoke_id, revoke_hash, token_taken,
}

-- A token of this hash that is not revoked.
unfoldable pub usable : List ℕ → List RefreshToken → Bool
usable h [] = false
usable h (t ∷ rest) =
    (same_text t.token h && (elim t.revoked_at [ none ↦ true | some at ↦ false ])) || usable h rest

-- The number of the rows of a hash.
unfoldable pub count_of : List ℕ → List RefreshToken → ℕ
count_of h [] = 0
count_of h (t ∷ rest) = let n = count_of h rest in if same_text t.token h then suc n else n

pub find_token_unusable :
    (now : ℕ) (h : List ℕ) (ts : List RefreshToken)
    → usable h ts ≡ false
    → find_token now h ts ≡ none
unfolding find_token usable
find_token_unusable now h [] u = refl
find_token_unusable now h (t ∷ rest) u = ground (arith, find_token_unusable now h rest)

pub usable-revoke_id :
    (now id : ℕ) (h : List ℕ) (ts : List RefreshToken)
    → usable h ts ≡ false
    → usable h (revoke_id now id ts) ≡ false
unfolding usable revoke_id
usable-revoke_id now id h [] u = refl
usable-revoke_id now id h (t ∷ rest) u = ground (arith, usable-revoke_id now id h rest)

pub usable-revoke_hash :
    (now : ℕ) (h k : List ℕ) (ts : List RefreshToken)
    → usable h ts ≡ false
    → usable h (revoke_hash now k ts) ≡ false
unfolding usable revoke_hash
usable-revoke_hash now h k [] u = refl
usable-revoke_hash now h k (t ∷ rest) u = ground (arith, usable-revoke_hash now h k rest)

pub usable-append :
    (h : List ℕ) (ts : List RefreshToken) (t : RefreshToken)
    → usable h ts ≡ false
    → same_text t.token h ≡ false
    → usable h (ts ++ (t ∷ [])) ≡ false
unfolding usable
usable-append h [] t u n = ground arith
usable-append h (x ∷ rest) t u n = ground (arith, usable-append h rest t)

count_of_zero : (h : List ℕ) (ts : List RefreshToken) → count_of h ts ≡ 0 → usable h ts ≡ false
unfolding usable count_of
count_of_zero h [] c = refl
count_of_zero h (t ∷ rest) c = ground (arith, count_of_zero h rest)

-- Revoking the token that was found leaves none of its hash.
pub usable-revoke_found :
    (now at : ℕ) (h : List ℕ) (ts : List RefreshToken) (t : RefreshToken)
    → find_token now h ts ≡ some t
    → count_of h ts ≤ 1
    → usable h (revoke_id at t.id ts) ≡ false
unfolding find_token usable count_of revoke_id
usable-revoke_found now at h [] t f c = cc
usable-revoke_found now at h (x ∷ rest) t f c = ground (
  arith,
  usable-revoke_found now at h rest t,
  count_of_zero h rest,
  usable-revoke_id at t.id h rest,
  find_token_unusable now h rest,
)

usable-delete_ids :
    (table : Table RefreshToken) (ids h : List ℕ) (ts : List RefreshToken)
    → usable h ts ≡ false
    → usable h (delete_ids table ids ts) ≡ false
unfolding usable delete_ids
usable-delete_ids table ids h [] u = refl
usable-delete_ids table ids h (t ∷ rest) u = ground (arith, usable-delete_ids table ids h rest)

count_of-revoke_id :
    (now id : ℕ) (h : List ℕ) (ts : List RefreshToken)
    → count_of h (revoke_id now id ts) ≡ count_of h ts
unfolding count_of revoke_id
count_of-revoke_id now id h [] = refl
count_of-revoke_id now id h (t ∷ rest) = ground (arith, count_of-revoke_id now id h rest)

count_of-revoke_hash :
    (now : ℕ) (h k : List ℕ) (ts : List RefreshToken)
    → count_of h (revoke_hash now k ts) ≡ count_of h ts
unfolding count_of revoke_hash
count_of-revoke_hash now h k [] = refl
count_of-revoke_hash now h k (t ∷ rest) = ground (arith, count_of-revoke_hash now h k rest)

count_of-delete_ids :
    (table : Table RefreshToken) (ids h : List ℕ) (ts : List RefreshToken)
    → count_of h (delete_ids table ids ts) ≤ count_of h ts
unfolding count_of delete_ids
count_of-delete_ids table ids h [] = omega arith
count_of-delete_ids table ids h (t ∷ rest) = ground (arith, count_of-delete_ids table ids h rest)

count_of-append :
    (h : List ℕ) (ts : List RefreshToken) (t : RefreshToken)
    → count_of h (ts ++ (t ∷ [])) ≡ count_of h ts + (if same_text t.token h then 1 else 0)
unfolding count_of
count_of-append h [] t = ground arith
count_of-append h (x ∷ rest) t = ground (arith, count_of-append h rest t)

-- A hash that no row has is counted nowhere.
count_of_untaken :
    (h : List ℕ) (ts : List RefreshToken) → token_taken h ts ≡ false → count_of h ts ≡ 0
unfolding count_of token_taken
count_of_untaken h [] n = refl
count_of_untaken h (t ∷ rest) n = ground (arith, count_of_untaken h rest)

count_of-adding :
    (h : List ℕ) (ts : List RefreshToken) (t : RefreshToken)
    → count_of h ts ≤ 1
    → token_taken t.token ts ≡ false
    → count_of h (ts ++ (t ∷ [])) ≤ 1
count_of-adding h ts t c n = elim (Bool-cases (same_text t.token h)) [
  | inr b ↦ ground (arith, count_of-append h ts t)
  | inl b ↦
      let same = same_text→≡ t.token h b in
      ground (arith, count_of-append h ts t, count_of_untaken h ts (rw same at n))
]

pub unusable_closed :
    (h : List ℕ) → IsClosed (λ k. same_text k h ≡ false) (λ ts. usable h ts ≡ false)
unusable_closed h = record {
  revoking_id = λ now id ts u. usable-revoke_id now id h ts u;
  revoking_hash = λ now k ts u. usable-revoke_hash now h k ts u;
  adding = λ ts t u n s. usable-append h ts t u s;
  deleting = λ table ids ts u. usable-delete_ids table ids h ts u;
}

single_closed : (h : List ℕ) → IsClosed (λ k. Unit {0}) (λ ts. count_of h ts ≤ 1)
single_closed h = record {
  revoking_id = λ now id ts c. omega (arith, c, count_of-revoke_id now id h ts);
  revoking_hash = λ now k ts c. omega (arith, c, count_of-revoke_hash now h k ts);
  adding = λ ts t c n s. count_of-adding h ts t c n;
  deleting = λ table ids ts c. omega (arith, c, count_of-delete_ids table ids h ts);
}

-- The calls keep what the rotation asks of the tokens: no two rows of the table have one hash.
run-single :
    (lib : Libraries) (h : List ℕ) (calls : List Call) (db : Accounts)
    → count_of h db.tokens ≤ 1
    → count_of h (run lib calls db).tokens ≤ 1
run-single lib h calls db c =
    run-P lib (λ k. Unit {0}) (λ ts. count_of h ts ≤ 1) (single_closed h) calls db c
      (AllSign-any lib calls)
