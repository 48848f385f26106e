-- ===== src/Cron/Tests.antt =====
-- The cleaning of a small table.
use orbit_cloud.Base.{ℕ, ◌≡◌, some, [], ◌∷◌, leb, arith}
use orbit_cloud.Base.Int.{pos}
use orbit_cloud.Cron.{Table, clean_expired}
use orbit_cloud.Cron.Removal.{unexpired, count_expired}
use orbit_cloud.Cron.Batches.{clean_expired-unexpired}

-- Rows that are their ids; those up to 4 have expired.
abbrev small_ids : Table ℕ
small_ids = record { id = λ r. r; is_expired = λ r. leb r 4 }

clean_expired-unexpired_example :
    clean_expired small_ids (pos 2) (1 ∷ 2 ∷ 4 ∷ 7 ∷ 9 ∷ []) ≡ some (3, 7 ∷ 9 ∷ [])
unfolding unexpired count_expired
clean_expired-unexpired_example =
    clean_expired-unexpired small_ids (pos 2) (1 ∷ 2 ∷ 4 ∷ 7 ∷ 9 ∷ []) (omega arith)
