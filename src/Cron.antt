-- ===== src/Cron.antt =====
-- cron/enter.go: the cleaning of expired rows in batches, by a cursor over the ids. A table is the
-- list of its rows in the order of their ids; a query that fails is not modelled. The loop runs on
-- fuel; one round for each row and one more are enough.
pub mod Removal
pub mod Batches
mod Tests
use orbit_cloud.Base.{
  ℕ, zero, suc, ◌+◌, ◌-◌, ◌≡◌, Bool, true, false, not, ◌&&◌, ◌||◌, Option, none, some, List, [],
  ◌∷◌, map, ltb, leb, ◌==◌, if◌then◌else◌, length, take,
}
use orbit_cloud.Base.Int.{ℤ, pos, negsuc}
use orbit_cloud.Access.{mem}

-- The ids of a table, and its condition.
pub record Table (Row : Type 0) : Type 0 where
  pub id : Row → ℕ
  pub is_expired : Row → Bool

-- if batchSize <= 0 { batchSize = 100 }
unfoldable pub batch_size_of : ℤ → ℕ
batch_size_of (pos zero) = 100
batch_size_of (pos (suc n)) = suc n
batch_size_of (negsuc n) = 100

-- The last of the ids, or the cursor where there is none.
unfoldable pub last_id : ℕ → List ℕ → ℕ
last_id cursor [] = cursor
last_id cursor (id ∷ ids) = last_id id ids

module _ {Row : Type 0} (table : Table Row) where
  -- WHERE the condition, and id > cursor where there is a cursor
  unfoldable pub matching : ℕ → List Row → List ℕ
  matching cursor [] = []
  matching cursor (r ∷ rest) =
      let later = matching cursor rest in
      if table.is_expired r && (cursor == 0 || ltb cursor (table.id r))
      then table.id r ∷ later
      else later

  -- `nextIDBatch`
  unfoldable pub next_id_batch : ℕ → ℕ → List Row → List ℕ × ℕ
  unfolding matching last_id
  next_id_batch cursor batch_size rows =
      let ids = take batch_size (matching cursor rows) in (ids, last_id cursor ids)

  -- DELETE WHERE id IN ids
  unfoldable pub delete_ids : List ℕ → List Row → List Row
  delete_ids ids [] = []
  delete_ids ids (r ∷ rest) =
      let kept = delete_ids ids rest in if mem (table.id r) ids then kept else r ∷ kept

  -- The loop of the cleaning functions: the number of the deleted rows, and the rows left; `none`
  -- is out of fuel.
  unfoldable pub clean_from : ℕ → ℕ → ℕ → ℕ → List Row → Option (ℕ × List Row)
  unfolding next_id_batch delete_ids
  clean_from zero batch_size cursor total rows = none
  clean_from (suc fuel) batch_size cursor total rows =
      let ids = (next_id_batch cursor batch_size rows).0 in
      let left = delete_ids ids rows in
      let total' = total + (length rows - length left) in
      let more = clean_from fuel batch_size (last_id cursor ids) total' left in
      if length ids == 0
      then some (total, rows)
      else if ltb (length ids) batch_size
      then some (total', left)
      else more

  -- The body that `CleanExpiredTokens`, `CleanExpiredShares` and `CleanExpiredDownloadTasks`
  -- share.
  unfoldable pub clean_expired : ℤ → List Row → Option (ℕ × List Row)
  unfolding batch_size_of clean_from
  clean_expired batch_size rows = clean_from (suc (length rows)) (batch_size_of batch_size) 0 0 rows
