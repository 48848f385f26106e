-- ===== src/Cron/Removal.antt =====
-- What the deletion of one batch leaves.
use orbit_cloud.Base.{
  ℕ, zero, suc, ◌≤◌, ◌<◌, ◌≡◌, refl, sym, ◌∙◌, ap, ◌⊎◌, inl, inr, true, false, ◌&&◌, ◌||◌, List, [],
  ◌∷◌, ltb, ◌==◌, if◌then◌else◌, take, Bool-cases, arith,
}
use orbit_cloud.Access.{mem}
use orbit_cloud.Cron.{Table, matching, delete_ids, last_id}

-- Ids above 0 in ascending order, all above a bound.
abbrev pub AscendingFrom : {Row : Type 0} → (Row → ℕ) → ℕ → List Row → Type 0
AscendingFrom id bound [] = Unit {0}
AscendingFrom id bound (r ∷ rest) = (bound < id r) × AscendingFrom id (id r) rest

module _ {Row : Type 0} (table : Table Row) where
  -- The rows that have not expired.
  unfoldable pub unexpired : List Row → List Row
  unexpired [] = []
  unexpired (r ∷ rest) = let kept = unexpired rest in if table.is_expired r then kept else r ∷ kept

  unfoldable pub count_expired : List Row → ℕ
  count_expired [] = 0
  count_expired (r ∷ rest) = let n = count_expired rest in if table.is_expired r then suc n else n

  -- The rows without the first of those that have expired.
  unfoldable pub without_first : ℕ → List Row → List Row
  without_first zero rows = rows
  without_first (suc k) [] = []
  without_first (suc k) (r ∷ rest) =
      let one = without_first k rest in
      let all = without_first (suc k) rest in if table.is_expired r then one else r ∷ all

  pub AscendingFrom-lower :
      (low bound : ℕ) (rows : List Row)
      → low ≤ bound
      → AscendingFrom table.id bound rows
      → AscendingFrom table.id low rows
  AscendingFrom-lower low bound [] l a = tt
  AscendingFrom-lower low bound (r ∷ rest) l a = (omega arith, a.1)

  -- An id that is not above the bound is none of the batch.
  mem-matching :
      (cursor k x bound : ℕ) (rows : List Row)
      → x ≤ bound
      → AscendingFrom table.id bound rows
      → mem x (take k (matching table cursor rows)) ≡ false
  unfolding matching mem
  mem-matching cursor zero x bound rows l a = refl
  mem-matching cursor (suc k) x bound [] l a = refl
  mem-matching cursor (suc k) x bound (r ∷ rest) l a =
      elim (Bool-cases (table.is_expired r && (cursor == 0 || ltb cursor (table.id r)))) [
        | inl b ↦ rw b (
            ground (arith, a.0, mem-matching cursor k x (table.id r) rest (omega (arith, a.0)) a.1))
        | inr b ↦ rw b (mem-matching cursor (suc k) x (table.id r) rest (omega (arith, a.0)) a.1)
      ]

  delete_ids_nothing : (rows : List Row) → delete_ids table [] rows ≡ rows
  unfolding delete_ids mem
  delete_ids_nothing [] = refl
  delete_ids_nothing (r ∷ rest) = ap (◌∷◌ r) (delete_ids_nothing rest)

  delete_ids_below :
      (x : ℕ) (ids : List ℕ) (rows : List Row)
      → AscendingFrom table.id x rows
      → delete_ids table (x ∷ ids) rows ≡ delete_ids table ids rows
  unfolding delete_ids mem
  delete_ids_below x ids [] a = refl
  delete_ids_below x ids (r ∷ rest) a =
      let other : (table.id r == x) ≡ false = ground (arith, a.0) in
      let below =
        delete_ids_below x ids rest
          (AscendingFrom-lower x (table.id r) rest (omega (arith, a.0)) a.1) in
      rw (other, below) refl

  -- What has expired lies behind the cursor.
  abbrev pub Beyond : ℕ → List Row → Type 0
  Beyond cursor [] = Unit {0}
  Beyond cursor (r ∷ rest) =
      ((table.is_expired r ≡ false) ⊎ (cursor < table.id r)) × Beyond cursor rest

  pub AscendingFrom-Beyond :
      (cursor bound : ℕ) (rows : List Row)
      → cursor ≤ bound
      → AscendingFrom table.id bound rows
      → Beyond cursor rows
  AscendingFrom-Beyond cursor bound [] l a = tt
  AscendingFrom-Beyond cursor bound (r ∷ rest) l a = (
    inr (omega (arith, a.0)),
    AscendingFrom-Beyond cursor (table.id r) rest (omega (arith, a.0)) a.1,
  )

  matching_head :
      (cursor : ℕ) (r : Row) (rest : List Row)
      → table.is_expired r ≡ true
      → Beyond cursor (r ∷ rest)
      → matching table cursor (r ∷ rest) ≡ table.id r ∷ matching table cursor rest
  unfolding matching
  matching_head cursor r rest e b = ground (arith, b.0)

  matching_skip :
      (cursor : ℕ) (r : Row) (rest : List Row)
      → table.is_expired r ≡ false
      → matching table cursor (r ∷ rest) ≡ matching table cursor rest
  unfolding matching
  matching_skip cursor r rest e = ground arith

  without_first_head :
      (k : ℕ) (r : Row) (rest : List Row)
      → table.is_expired r ≡ true
      → without_first (suc k) (r ∷ rest) ≡ without_first k rest
  unfolding without_first
  without_first_head k r rest e = ground arith

  without_first_skip :
      (k : ℕ) (r : Row) (rest : List Row)
      → table.is_expired r ≡ false
      → without_first (suc k) (r ∷ rest) ≡ r ∷ without_first (suc k) rest
  unfolding without_first
  without_first_skip k r rest e = ground arith

  delete_ids_met :
      (ids : List ℕ) (r : Row) (rest : List Row)
      → mem (table.id r) ids ≡ true
      → delete_ids table ids (r ∷ rest) ≡ delete_ids table ids rest
  unfolding delete_ids
  delete_ids_met ids r rest m = ground arith

  delete_ids_kept :
      (ids : List ℕ) (r : Row) (rest : List Row)
      → mem (table.id r) ids ≡ false
      → delete_ids table ids (r ∷ rest) ≡ r ∷ delete_ids table ids rest
  unfolding delete_ids
  delete_ids_kept ids r rest m = ground arith

  mem_first : (x : ℕ) (ids : List ℕ) → mem x (x ∷ ids) ≡ true
  unfolding mem
  mem_first x ids = ground arith

  -- The deletion of a batch takes the first expired rows.
  pub delete_batch :
      (cursor k bound : ℕ) (rows : List Row)
      → AscendingFrom table.id bound rows
      → Beyond cursor rows
      → delete_ids table (take k (matching table cursor rows)) rows ≡ without_first k rows
  delete_batch cursor zero bound rows a b = unfold without_first in delete_ids_nothing rows
  delete_batch cursor (suc k) bound [] a b = unfold delete_ids without_first in refl
  delete_batch cursor (suc k) bound (r ∷ rest) a b = elim (Bool-cases (table.is_expired r)) [
    | inl e ↦
        let ids = take k (matching table cursor rest) in
        ap (λ m. delete_ids table (take (suc k) m) (r ∷ rest)) (matching_head cursor r rest e b)
        ∙ (delete_ids_met (table.id r ∷ ids) r rest (mem_first (table.id r) ids)
            ∙ (delete_ids_below (table.id r) ids rest a.1
                ∙ (delete_batch cursor k (table.id r) rest a.1 b.1
                    ∙ sym (without_first_head k r rest e))))
    | inr e ↦
        let ids = take (suc k) (matching table cursor rest) in
        let out = mem-matching cursor (suc k) (table.id r) (table.id r) rest (omega arith) a.1 in
        ap (λ m. delete_ids table (take (suc k) m) (r ∷ rest)) (matching_skip cursor r rest e)
        ∙ (delete_ids_kept ids r rest out
            ∙ (ap (◌∷◌ r) (delete_batch cursor (suc k) (table.id r) rest a.1 b.1)
                ∙ sym (without_first_skip k r rest e)))
  ]

  pub Beyond-without_first :
      (cursor start k bound : ℕ) (rows : List Row)
      → AscendingFrom table.id bound rows
      → Beyond cursor rows
      → Beyond start rows
      → Beyond (last_id start (take k (matching table cursor rows))) (without_first k rows)
  unfolding last_id without_first matching
  Beyond-without_first cursor start zero bound rows a b c = c
  Beyond-without_first cursor start (suc k) bound [] a b c = tt
  Beyond-without_first cursor start (suc k) bound (r ∷ rest) a b c =
      elim (Bool-cases (table.is_expired r)) [
        | inl e ↦
            rw (matching_head cursor r rest e b, without_first_head k r rest e)
              (Beyond-without_first cursor (table.id r) k (table.id r) rest a.1 b.1
                (AscendingFrom-Beyond (table.id r) (table.id r) rest (omega arith) a.1))
        | inr e ↦
            rw (matching_skip cursor r rest e, without_first_skip k r rest e)
              (inl e, Beyond-without_first cursor start (suc k) (table.id r) rest a.1 b.1 c.1)
      ]

  pub AscendingFrom-without_first :
      (k bound : ℕ) (rows : List Row)
      → AscendingFrom table.id bound rows
      → AscendingFrom table.id bound (without_first k rows)
  unfolding without_first
  AscendingFrom-without_first zero bound rows a = a
  AscendingFrom-without_first (suc k) bound [] a = tt
  AscendingFrom-without_first (suc k) bound (r ∷ rest) a = elim (Bool-cases (table.is_expired r)) [
    | inl e ↦ rw (without_first_head k r rest e) (
        AscendingFrom-without_first k bound rest
          (AscendingFrom-lower bound (table.id r) rest (omega (arith, a.0)) a.1))
    | inr e ↦
        rw (without_first_skip k r rest e)
          (a.0, AscendingFrom-without_first (suc k) (table.id r) rest a.1)
  ]
