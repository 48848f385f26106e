-- ===== src/RateLimit/Ring.antt =====
-- The order in which the ring gives its records.
use native.Mathlib.Nat.{mod-lt}
use mathlib.Core.List.{append-nil, append_assoc}
use orbit_cloud.Base.{
  ℕ, zero, suc, ◌+◌, ◌-◌, ◌%◌, ◌≡◌, ◌≤◌, ◌<◌, refl, sym, ◌∙◌, ap, true, false, some, List, [], ◌∷◌,
  ◌++◌, ltb, if◌then◌else◌, length, set, get_elem?, length-append, length-set, get_elem?-append,
  arith,
}
use orbit_cloud.Base.Int.{ℤ, pos, negsuc}
use orbit_cloud.RateLimit.{
  RateLimiter, record_limit, init_rate_limiter, add_record, add_all, reversed, snapshot,
}

record_limit_positive : (limit : ℤ) → 0 < record_limit limit
unfolding record_limit
record_limit_positive (pos zero) = omega arith
record_limit_positive (pos (suc n)) = omega arith
record_limit_positive (negsuc n) = omega arith

module _ {ℓ} {Entry : Type ℓ} where
  length-reversed : (xs : List Entry) → length (reversed xs) ≡ length xs
  unfolding reversed
  length-reversed [] = refl
  length-reversed (x ∷ xs) = omega (arith, length-append (reversed xs) (x ∷ []), length-reversed xs)

  get_elem?-set :
      (xs : List Entry) (i : ℕ) (x : Entry) → i < length xs → get_elem? (set xs i x) i ≡ some x
  get_elem?-set [] i x h = absurd (omega arith)
  get_elem?-set (y ∷ xs) zero x h = refl
  get_elem?-set (y ∷ xs) (suc i) x h = get_elem?-set xs i x (omega arith)

  -- The place that an element has in the reversed list.
  get_elem?-reversed :
      (xs : List Entry) (i : ℕ)
      → i < length xs
      → get_elem? (reversed xs) (length xs - 1 - i) ≡ get_elem? xs i
  unfolding reversed
  get_elem?-reversed [] i h = absurd (omega arith)
  get_elem?-reversed (x ∷ xs) zero h =
      let l = length-reversed xs in
      let same : length xs - 0 ≡ length (reversed xs) = omega arith in
      ground (arith, get_elem?-append (reversed xs) (x ∷ []) (length xs))
  get_elem?-reversed (x ∷ xs) (suc i) h =
      let l = length-reversed xs in
      let below = get_elem?-reversed xs i (omega arith) in
      let same : length xs - suc i ≡ length xs - 1 - i = omega arith in
      ground (arith, get_elem?-append (reversed xs) (x ∷ []) (length xs - 1 - i))

  add_record-room :
      (r : RateLimiter Entry) (entry : Entry)
      → ltb (length r.records) (record_limit r.limit) ≡ true
      → add_record entry r ≡ record r { records = r.records ++ (entry ∷ []) }
  unfolding add_record
  add_record-room r entry h =
      ap
        (λ b. if b then record r { records = r.records ++ (entry ∷ []) } else record r {
          records = set r.records (r.next_pos % record_limit r.limit) entry;
          next_pos = r.next_pos + 1;
        })
        h

  records-add_record_full :
      (r : RateLimiter Entry) (entry : Entry)
      → ltb (length r.records) (record_limit r.limit) ≡ false
      → (add_record entry r).records ≡ set r.records (r.next_pos % record_limit r.limit) entry
  unfolding add_record
  records-add_record_full r entry h =
      ap
        (λ b.
          (if b then record r { records = r.records ++ (entry ∷ []) } else record r {
            records = set r.records (r.next_pos % record_limit r.limit) entry;
            next_pos = r.next_pos + 1;
          }).records)
        h

  add_all_records :
      (entries : List Entry) (r : RateLimiter Entry)
      → length r.records + length entries ≤ record_limit r.limit
      → (add_all entries r).records ≡ r.records ++ entries
  unfolding add_all add_record
  add_all_records [] r h = sym (append-nil r.records)
  add_all_records (x ∷ rest) r h =
      let room : ltb (length r.records) (record_limit r.limit) ≡ true = ground arith in
      let l = length-append r.records (x ∷ []) in
      let grown = record r { records = r.records ++ (x ∷ []) } in
      let step : add_record x r ≡ grown = add_record-room r x room in
      ap (λ g. (add_all rest g).records) step
      ∙ (add_all_records rest grown (omega arith) ∙ append_assoc r.records (x ∷ []) rest)

  -- As long as no more were recorded than the limit, the snapshot gives all of them, the newest
  -- first.
  pub snapshot-add_all :
      (limit : ℤ) (entries : List Entry)
      → length entries ≤ record_limit limit
      → snapshot (add_all entries (init_rate_limiter limit)) ≡ reversed entries
  unfolding snapshot
  snapshot-add_all limit entries h =
      ap reversed (add_all_records entries (init_rate_limiter limit) (omega (arith, h)))

  -- Once the ring is full, a new record stands at the place of the snapshot that the counter
  -- gives, which is the first only where the counter is at the end of the ring.
  pub snapshot-add_record_full :
      (r : RateLimiter Entry) (entry : Entry)
      → length r.records ≡ record_limit r.limit
      → get_elem?
          (snapshot (add_record entry r))
          (record_limit r.limit - 1 - r.next_pos % record_limit r.limit)
        ≡ some entry
  unfolding snapshot add_record
  snapshot-add_record_full r entry h =
      let cap = record_limit r.limit in
      let place = r.next_pos % cap in
      let below = mod-lt r.next_pos (record_limit_positive r.limit) in
      let full : ltb (length r.records) cap ≡ false = ground (arith, h) in
      let after = set r.records place entry in
      let l = length-set r.records place entry in
      let index : cap - 1 - place ≡ length after - 1 - place =
        ap (λ n. n - 1 - place) (sym (l ∙ h)) in
      ap (λ xs. get_elem? (reversed xs) (cap - 1 - place)) (records-add_record_full r entry full)
      ∙ (ap (get_elem? (reversed after)) index
          ∙ (get_elem?-reversed after place (omega (arith, h, l, below))
              ∙ get_elem?-set r.records place entry (omega (arith, h, below))))
