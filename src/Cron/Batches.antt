-- ===== src/Cron/Batches.antt =====
-- The batches together delete what has expired, and nothing else.
use orbit_cloud.Base.{
  ℕ, zero, suc, ◌+◌, ◌-◌, ◌≤◌, ◌<◌, ◌≡◌, refl, ◌∙◌, ap, inl, inr, some, List, [], ◌∷◌, ltb, ◌==◌,
  length, take, length-take, Bool-cases, arith,
}
use Prim.Native.Nat.{min}
use orbit_cloud.Base.Int.{ℤ, pos, negsuc}
use orbit_cloud.Cron.{
  Table, matching, last_id, next_id_batch, clean_from, clean_expired, batch_size_of,
}
use orbit_cloud.Cron.Removal.{
  AscendingFrom, unexpired, count_expired, without_first, Beyond, AscendingFrom-Beyond,
  delete_batch, Beyond-without_first, AscendingFrom-without_first,
}

batch_size_positive : (size : ℤ) → 0 < batch_size_of size
unfolding batch_size_of
batch_size_positive (pos zero) = omega arith
batch_size_positive (pos (suc n)) = omega arith
batch_size_positive (negsuc n) = omega arith

module _ {Row : Type 0} (table : Table Row) where
  count_expired-le : (rows : List Row) → count_expired table rows ≤ length rows
  unfolding count_expired
  count_expired-le [] = omega arith
  count_expired-le (r ∷ rest) = ground (arith, count_expired-le rest)

  length-matching :
      (cursor : ℕ) (rows : List Row)
      → Beyond table cursor rows
      → length (matching table cursor rows) ≡ count_expired table rows
  unfolding matching count_expired
  length-matching cursor [] b = refl
  length-matching cursor (r ∷ rest) b = ground (arith, length-matching cursor rest b.1, b.0)

  count_expired-without_first :
      (k : ℕ) (rows : List Row)
      → count_expired table (without_first table k rows) ≡ count_expired table rows - k
  unfolding count_expired without_first
  count_expired-without_first zero rows = omega arith
  count_expired-without_first (suc k) [] = omega arith
  count_expired-without_first (suc k) (r ∷ rest) =
      ground (arith, count_expired-without_first k rest, count_expired-without_first (suc k) rest)

  unexpired-without_first :
      (k : ℕ) (rows : List Row)
      → unexpired table (without_first table k rows) ≡ unexpired table rows
  unfolding unexpired without_first
  unexpired-without_first zero rows = refl
  unexpired-without_first (suc k) [] = refl
  unexpired-without_first (suc k) (r ∷ rest) =
      ground (arith, unexpired-without_first k rest, unexpired-without_first (suc k) rest)

  length-without_first :
      (k : ℕ) (rows : List Row)
      → length (without_first table k rows) + min k (count_expired table rows) ≡ length rows
  unfolding count_expired without_first
  length-without_first zero rows = omega arith
  length-without_first (suc k) [] = omega arith
  length-without_first (suc k) (r ∷ rest) =
      ground (arith, length-without_first k rest, length-without_first (suc k) rest)

  without_first_all :
      (k : ℕ) (rows : List Row)
      → count_expired table rows ≤ k
      → without_first table k rows ≡ unexpired table rows
  unfolding count_expired without_first unexpired
  without_first_all zero [] h = refl
  without_first_all zero (r ∷ rest) h = ground (arith, without_first_all zero rest)
  without_first_all (suc k) [] h = refl
  without_first_all (suc k) (r ∷ rest) h =
      ground (arith, without_first_all k rest, without_first_all (suc k) rest)

  -- The deleted rows of one round.
  removed :
      (k : ℕ) (rows : List Row)
      → length rows - length (without_first table k rows) ≡ min k (count_expired table rows)
  removed k rows = omega (arith, length-without_first k rows)

  ids_of_batch :
      (k cursor : ℕ) (rows : List Row)
      → Beyond table cursor rows
      → length (take k (matching table cursor rows)) ≡ min k (count_expired table rows)
  ids_of_batch k cursor rows b =
      length-take k (matching table cursor rows) ∙ ap (min k) (length-matching cursor rows b)

  zero_first : (rows : List Row) → without_first table 0 rows ≡ rows
  unfolding without_first
  zero_first rows = refl

  clean_from-unexpired :
      (fuel size cursor total bound : ℕ) (rows : List Row)
      → 0 < size
      → AscendingFrom table.id bound rows
      → Beyond table cursor rows
      → count_expired table rows < fuel
      → clean_from table fuel size cursor total rows
        ≡ some (total + count_expired table rows, unexpired table rows)
  unfolding clean_from next_id_batch
  clean_from-unexpired zero size cursor total bound rows p a b l = absurd (omega arith)
  clean_from-unexpired (suc fuel) size cursor total bound rows p a b l =
      let batch = delete_batch table cursor size bound rows a b in
      let n = ids_of_batch size cursor rows b in
      let gone = removed size rows in
      let cursor' = last_id cursor (take size (matching table cursor rows)) in
      let left = without_first table size rows in
      let fewer = count_expired-without_first size rows in
      let same = unexpired-without_first size rows in
      let rest = λ (q : count_expired table left < fuel).
        clean_from-unexpired fuel size cursor' (total + (length rows - length left)) bound left p
          (AscendingFrom-without_first table size bound rows a)
          (Beyond-without_first table cursor cursor size bound rows a b b) q in
      rw (batch, n)
        (elim (Bool-cases (min size (count_expired table rows) == 0)) [
          | inl z ↦ rw z (
              ground
                (arith, without_first_all 0 rows, unexpired-without_first 0 rows, zero_first rows))
          | inr z ↦ elim (Bool-cases (ltb (min size (count_expired table rows)) size)) [
            | inl m ↦ rw (z, m) (ground (arith, without_first_all size rows))
            | inr m ↦ rw (z, m) (rest (ground arith) ∙ ground arith)
          ]
        ])

  -- The batches, of whatever size, delete each row that has expired and no other, and count them;
  -- the loop ends.
  pub clean_expired-unexpired :
      (batch_size : ℤ) (rows : List Row)
      → AscendingFrom table.id 0 rows
      → clean_expired table batch_size rows ≡ some (count_expired table rows, unexpired table rows)
  unfolding clean_expired
  clean_expired-unexpired batch_size rows a =
      clean_from-unexpired (suc (length rows)) (batch_size_of batch_size) 0 0 0 rows
        (batch_size_positive batch_size) a (AscendingFrom-Beyond table 0 0 rows (omega arith) a)
        (omega (arith, count_expired-le rows))
      ∙ ap (λ n. some (n, unexpired table rows)) (omega arith)
