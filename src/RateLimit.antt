-- ===== src/RateLimit.antt =====
-- server/ratelimit.go: the ring of refused requests, and the capacities of the limiter. The token
-- buckets count in floating point and live in a cache of a library; they are not modelled.
pub mod Ring
mod Tests
use orbit_cloud.Base.{
  ℕ, zero, suc, ◌+◌, ◌%◌, ◌≡◌, Bool, true, false, List, [], ◌∷◌, ◌++◌, ltb, if◌then◌else◌, length,
  set,
}
use orbit_cloud.Base.Int.{ℤ, pos, negsuc}

-- `recordLimit`, of the configured RecordLimit
unfoldable pub record_limit : ℤ → ℕ
record_limit (pos zero) = 1000
record_limit (pos (suc n)) = suc n
record_limit (negsuc n) = 1000

-- What `RateLimiter` keeps of the refused requests, in a type of records. The counter is a Go int
-- that is taken as unbounded.
pub record RateLimiter {ℓ} (Entry : Type ℓ) : Type ℓ where
  pub limit : ℤ
  pub records : List Entry
  pub next_pos : ℕ

module _ {ℓ} {Entry : Type ℓ} where
  -- `InitRateLimiter`, as far as the records go
  abbrev pub init_rate_limiter : ℤ → RateLimiter Entry
  init_rate_limiter limit = record { limit = limit; records = []; next_pos = 0 }

  -- `Record`: behind the limit the oldest is overwritten.
  unfoldable pub add_record : Entry → RateLimiter Entry → RateLimiter Entry
  add_record entry r =
      if ltb (length r.records) (record_limit r.limit)
      then record r { records = r.records ++ (entry ∷ []) }
      else record r {
        records = set r.records (r.next_pos % record_limit r.limit) entry;
        next_pos = r.next_pos + 1;
      }

  -- A run of records, the oldest first.
  unfoldable pub add_all : List Entry → RateLimiter Entry → RateLimiter Entry
  unfolding add_record
  add_all [] r = r
  add_all (entry ∷ rest) r = add_all rest (add_record entry r)

  -- The loop that swaps the ends of the copy.
  unfoldable pub reversed : List Entry → List Entry
  reversed [] = []
  reversed (entry ∷ rest) = reversed rest ++ (entry ∷ [])

  -- `Records`
  unfoldable pub snapshot : RateLimiter Entry → List Entry
  unfolding reversed
  snapshot r = reversed r.records
