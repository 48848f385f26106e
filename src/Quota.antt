-- ===== src/Quota.antt =====
-- server/quota.go: the quotas of buckets and users, and the booking of a user's space.
pub mod Booking
use orbit_cloud.Base.{
  ℕ, ◌≡◌, Bool, true, false, Option, none, some, List, [], ◌∷◌, zero, suc, ◌==◌, ltb, if◌then◌else◌,
}
use orbit_cloud.Base.Errors.{Result, ok, err, internal, quota_exceeded, ◌>>=◌}
use orbit_cloud.Base.Int.{ℤ, pos, negsuc, ◌+ℤ◌, leb_ℤ}

pub record BucketRow : Type 0 where
  pub quota : ℤ
  pub used_space : ℤ

pub record UserRow : Type 0 where
  pub quota : Option ℤ
  pub used_space : ℤ

-- The rows by id; `none` is no row.
pub record Tables : Type 0 where
  pub bucket : ℕ → Option BucketRow
  pub user : ℕ → Option UserRow
  pub file_size : ℕ → Option ℤ

-- `First`: a missing row is the error of the query, which is no sentinel.
abbrev pub first {ℓ} : {Row : Type ℓ} → Option Row → Result Row
first none = err internal
first (some row) = ok row

-- `CheckBucketQuota`
unfoldable pub check_bucket_quota : Tables → ℕ → ℤ → Result (Unit {0})
check_bucket_quota t bucket_id delta =
    if leb_ℤ delta (pos 0)
    then ok tt
    else first (t.bucket bucket_id) >>= λ b.
        if leb_ℤ b.quota (pos 0)
        then ok tt
        else if leb_ℤ (b.used_space +ℤ delta) b.quota
        then ok tt
        else err quota_exceeded

-- The end of `CheckUserQuota`, for a quota that is set.
abbrev pub check_set_quota : ℤ → ℤ → Result (Unit {0})
check_set_quota used (pos zero) = err quota_exceeded
check_set_quota used (pos (suc k)) = if leb_ℤ used (pos (suc k)) then ok tt else err quota_exceeded
check_set_quota used (negsuc k) = if leb_ℤ used (negsuc k) then ok tt else err quota_exceeded

-- `CheckUserQuota`
unfoldable pub check_user_quota : Tables → ℕ → Result (Unit {0})
check_user_quota t user_id = first (t.user user_id) >>= λ u. elim u.quota [
  | none ↦ ok tt
  | some quota ↦ check_set_quota u.used_space quota
]

-- The update of the rows with this id; no row, no update.
abbrev pub at_id {ℓ} : {Row : Type ℓ} → ℕ → (Row → Row) → (ℕ → Option Row) → ℕ → Option Row
at_id id change rows i =
    if i == id then (elim (rows id) [ none ↦ none | some row ↦ some (change row) ]) else rows i

-- CASE WHEN used_space + n < 0 THEN 0 ELSE used_space + n END
abbrev pub clamped : ℤ → ℤ → ℤ
clamped used n = if leb_ℤ (pos 0) (used +ℤ n) then used +ℤ n else pos 0

-- -n
abbrev pub negated : ℤ → ℤ
negated (pos zero) = pos zero
negated (pos (suc k)) = negsuc k
negated (negsuc k) = pos (suc k)

-- `addUserUsedSpace`
unfoldable pub add_user_used_space : ℕ → ℤ → Tables → Tables
add_user_used_space user_id size t = if leb_ℤ size (pos 0) then t else record t {
  user = at_id user_id (λ u. record u { used_space = u.used_space +ℤ size }) t.user;
}

-- `returnUserUsedSpace`
unfoldable pub return_user_used_space : ℕ → ℤ → Tables → Tables
return_user_used_space user_id size t = if leb_ℤ size (pos 0) then t else record t {
  user = at_id user_id (λ u. record u { used_space = clamped u.used_space (negated size) }) t.user;
}
