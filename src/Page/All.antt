-- ===== src/Page/All.antt =====
-- The pages of a query together.
use orbit_cloud.Base.{
  ℕ, zero, suc, ◌+◌, ◌-◌, ◌*◌, ◌/◌, ◌%◌, ◌^◌, ◌≤◌, ◌<◌, ◌≡◌, refl, ap, ◌∙◌, Bool, List, [], ◌∷◌,
  ◌++◌, ltb, if◌then◌else◌, length, take, drop, arith, lt→ltb,
}
use orbit_cloud.Base.Int.{ℤ, pos, negsuc}
use native.Mathlib.Nat.{mod-eq_of_lt, lt-mul-div-succ, div-mul-le_self}
use orbit_cloud.Page.{PageInfo, TimeInfo, page_of, size_of, offset_of, Columns, asked, page_query}

module _ {Row : Type 0} where
  take-all : (n : ℕ) (xs : List Row) → length xs ≤ n → take n xs ≡ xs
  take-all zero [] h = refl
  take-all zero (x ∷ xs) h = absurd (omega (arith, h))
  take-all (suc n) [] h = refl
  take-all (suc n) (x ∷ xs) h = ap (λ rest. x ∷ rest) (take-all n xs (omega (arith, h)))

  take-nil : (n : ℕ) → take {A = Row} n [] ≡ []
  take-nil zero = refl
  take-nil (suc n) = refl

  take-append :
      (k n m : ℕ) (xs : List Row) → m ≡ k + n → take k xs ++ take n (drop k xs) ≡ take m xs
  take-append zero n m xs e = ap (λ i. take i xs) (omega (arith, e))
  take-append (suc k) n zero xs e = absurd (omega (arith, e))
  take-append (suc k) n (suc m) [] e = take-nil n
  take-append (suc k) n (suc m) (x ∷ xs) e =
      ap (λ rest. x ∷ rest) (take-append k n m xs (omega (arith, e)))

bounds_of_size : (asks : ℤ) → (1 ≤ size_of asks) × (size_of asks ≤ 100)
bounds_of_size (negsuc k) = (omega arith, omega arith)
bounds_of_size (pos k) = (ground arith, ground arith)

-- Where the product does not wrap, the offset is it.
offset_of_small :
    (page before size : ℕ)
    → page - 1 ≡ before
    → before * size < 2 ^ 63
    → offset_of page size ≡ before * size
unfolding offset_of
offset_of_small page before size e h =
    let whole : before * size % 2 ^ 64 ≡ before * size = mod-eq_of_lt (omega (arith, h)) in
    rw (e, whole, lt→ltb (before * size) (2 ^ 63) h) refl

div_up : (total size : ℕ) → 1 ≤ size → total ≤ ((total + size - 1) / size) * size
div_up total size h =
    let above : total + size - 1 < size * ((total + size - 1) / size + 1) =
      lt-mul-div-succ (total + size - 1) (omega (arith, h)) in
    omega (arith, above, h)

page_of-suc : (n : ℕ) → page_of (pos (suc n)) ≡ suc n
page_of-suc n = ground arith

module _ {Row : Type 0} (like : List ℕ → List ℕ → Bool) (columns : Columns Row) where
  -- The first pages of a query, one behind the other.
  unfoldable pub first_pages : ℕ → PageInfo → TimeInfo → List Row → List Row
  first_pages zero opt time rows = []
  first_pages (suc n) opt time rows =
      let page = page_query like columns (record opt { page = pos (suc n) }) time rows in
      first_pages n opt time rows ++ page.list

  -- Where a page starts.
  start_of_page :
      (n size : ℕ)
      → n * size < 2 ^ 63
      → (if ltb 1 (suc n) then offset_of (suc n) size else 0) ≡ n * size
  start_of_page zero size h = omega arith
  start_of_page (suc n) size h =
      rw (lt→ltb 1 (suc (suc n)) (omega arith))
        (offset_of_small (suc (suc n)) (suc n) size (omega arith) h)

  first_pages-take :
      (n : ℕ) (opt : PageInfo) (time : TimeInfo) (rows : List Row)
      → n * size_of opt.page_size < 2 ^ 63
      → first_pages n opt time rows
        ≡ take (n * size_of opt.page_size) (asked like columns opt.cursor opt.key time rows)
  unfolding first_pages page_query
  first_pages-take zero opt time rows h =
      let nothing : 0 * size_of opt.page_size ≡ 0 = omega arith in rw nothing refl
  first_pages-take (suc n) opt time rows h =
      let size = size_of opt.page_size in
      let found = asked like columns opt.cursor opt.key time rows in
      let one_more : suc n * size ≡ n * size + size = omega arith in
      let before : n * size < 2 ^ 63 = omega (arith, one_more, h) in
      rw (page_of-suc n, start_of_page n size before, first_pages-take n opt time rows before)
        (take-append (n * size) size (suc n * size) found one_more)

  -- The pages of a query together, from the first to the last of `TotalPages`, are all its rows in
  -- their order, none twice and none left out, where the rows, and one page more, are as many as an
  -- int64 counts.
  pub first_pages-all :
      (opt : PageInfo) (time : TimeInfo) (rows : List Row)
      → length (asked like columns opt.cursor opt.key time rows) + 100 < 2 ^ 63
      → first_pages (page_query like columns opt time rows).total_pages opt time rows
        ≡ asked like columns opt.cursor opt.key time rows
  unfolding page_query
  first_pages-all opt time rows h =
      let size = size_of opt.page_size in
      let found = asked like columns opt.cursor opt.key time rows in
      let pages = (length found + size - 1) / size in
      let (least, most) = bounds_of_size opt.page_size in
      let under : pages * size ≤ length found + size - 1 =
        div-mul-le_self (length found + size - 1) size in
      let over = div_up (length found) size least in
      first_pages-take pages opt time rows (omega (arith, under, most, h))
      ∙ take-all (pages * size) found over
