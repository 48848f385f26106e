-- ===== src/Quota/Booking.antt =====
-- The booking of a user's space: it is given back, and never below 0.
use orbit_cloud.Base.{ℕ, ◌≡◌, refl, ◌⊎◌, inl, inr, true, some, ◌==◌, Bool-cases, arith}
use orbit_cloud.Base.Errors.{ok}
use orbit_cloud.Base.Int.{ℤ, pos, above, below, ◌+ℤ◌, leb_ℤ, ◌≤ℤ◌, parts-+ℤ, parts_eq}
use orbit_cloud.Quota.{
  BucketRow, UserRow, Tables, check_bucket_quota, clamped, negated, add_user_used_space,
  return_user_used_space,
}

parts-negated : (z : ℤ) → (above (negated z) ≡ below z) × (below (negated z) ≡ above z)
parts-negated z = (ground arith, ground arith)

pub clamped-back : (used size : ℤ) → pos 0 ≤ℤ used → clamped (used +ℤ size) (negated size) ≡ used
clamped-back used size h =
    let (up, down) = parts-negated size in
    let back =
      parts_eq (used +ℤ size +ℤ negated size) used
        (omega (arith, parts-+ℤ used size, parts-+ℤ (used +ℤ size) (negated size))) in
    ground arith

-- What was booked for a user is taken back whole, where the user's space was not below 0.
pub return-add_user_used_space :
    (user_id : ℕ) (size : ℤ) (t : Tables) (u : UserRow)
    → t.user user_id ≡ some u
    → pos 0 ≤ℤ u.used_space
    → (return_user_used_space user_id size (add_user_used_space user_id size t)).user user_id
      ≡ some u
unfolding return_user_used_space add_user_used_space
return-add_user_used_space user_id size t u e h = elim (Bool-cases (leb_ℤ size (pos 0))) [
  | inl b ↦ rw b e
  | inr b ↦
      let same : (user_id == user_id) ≡ true = ground arith in
      rw (b, same, e, clamped-back u.used_space size h) refl
]

-- A write that the bucket's quota admits keeps the bucket within its quota.
pub check_bucket_quota_keeps :
    (t : Tables) (bucket_id : ℕ) (delta : ℤ) (b : BucketRow)
    → t.bucket bucket_id ≡ some b
    → check_bucket_quota t bucket_id delta ≡ ok tt
    → (delta ≤ℤ pos 0) ⊎ ((b.quota ≤ℤ pos 0) ⊎ (b.used_space +ℤ delta ≤ℤ b.quota))
unfolding check_bucket_quota
check_bucket_quota_keeps t bucket_id delta b e h = ground arith
