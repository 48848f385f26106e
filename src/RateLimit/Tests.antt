-- ===== src/RateLimit/Tests.antt =====
-- The theorems on the ring at a ring of three.
use orbit_cloud.Base.{ℕ, ◌≡◌, refl, [], ◌∷◌}
use orbit_cloud.Base.Int.{pos}
use orbit_cloud.RateLimit.{
  RateLimiter, record_limit, init_rate_limiter, add_record, add_all, reversed, snapshot,
}

abbrev full_ring : RateLimiter ℕ
full_ring = record { limit = pos 3; records = 1 ∷ 2 ∷ 3 ∷ []; next_pos = 0 }

-- The newest of four stands last.
newest_last :
    snapshot {Entry = ℕ} (add_all (1 ∷ 2 ∷ 3 ∷ 4 ∷ []) (init_rate_limiter (pos 3))) ≡ 3 ∷ 2 ∷ 4 ∷ []
unfolding record_limit reversed snapshot add_all add_record
newest_last = refl
