-- ===== src/Page.antt =====
-- common/page.go: pages of a query. A query is the rows of a table in the order that it asks for;
-- the SQL operator LIKE is a parameter. `int64` products wrap around.
pub mod All
mod Tests
use orbit_cloud.Base.{
  ℕ, zero, suc, ◌+◌, ◌-◌, ◌*◌, ◌/◌, ◌%◌, ◌^◌, ◌≡◌, Bool, true, false, ◌&&◌, ◌||◌, Option, none,
  some, List, [], ◌∷◌, leb, ltb, if◌then◌else◌, length, take, drop,
}
use orbit_cloud.Base.Int.{ℤ, pos, negsuc, above}

-- `PageInfo` and the `KeyList` of `Option`, whose filters and order are in the rows.
pub record PageInfo : Type 0 where
  pub cursor : ℤ
  pub page : ℤ
  pub page_size : ℤ
  pub key : List ℕ

-- `TimeInfo`; `none` is the zero time.
pub record TimeInfo : Type 0 where
  pub start_time : Option ℕ
  pub end_time : Option ℕ

-- `PaginatedResult`
pub record PaginatedResult (Row : Type 0) : Type 0 where
  pub list : List Row
  pub total : ℕ
  pub page : ℕ
  pub page_size : ℕ
  pub total_pages : ℕ
  pub has_more : Bool
  pub next_cursor : ℕ

abbrev pub page_of : ℤ → ℕ
page_of (negsuc k) = 1
page_of (pos k) = if ltb k 1 then 1 else k

abbrev pub size_of : ℤ → ℕ
size_of (negsuc k) = 10
size_of (pos k) = if leb k 0 then 10 else if ltb 100 k then 100 else k

-- `NewOption`
unfoldable pub new_option : ℤ → ℤ → PageInfo
new_option page page_size = record {
  cursor = pos 0;
  page = pos (page_of page);
  page_size = pos (size_of page_size);
  key = [];
}

-- (Page - 1) * PageSize as int64; OFFSET is left out where it is not above 0.
unfoldable pub offset_of : ℕ → ℕ → ℕ
offset_of page size =
    let wrapped = ((page - 1) * size) % 2 ^ 64 in if ltb wrapped (2 ^ 63) then wrapped else 0

-- The reading of the columns of a row that a page looks at.
pub record Columns (Row : Type 0) : Type 0 where
  pub id_of : Row → ℕ
  pub created_at : Row → ℕ
  pub key_list : List (Row → List ℕ)

module _ {Row : Type 0} (like : List ℕ → List ℕ → Bool) (columns : Columns Row) where
  unfoldable pub matches : List ℕ → List (Row → List ℕ) → Row → Bool
  matches key [] row = false
  matches key (column ∷ rest) row = like (column row) key || matches key rest row

  -- The conditions of `PageQuery`.
  unfoldable pub is_after : ℤ → Row → Bool
  is_after (negsuc k) row = true
  is_after (pos k) row = leb k 0 || ltb k (columns.id_of row)

  unfoldable pub is_since : Option ℕ → Row → Bool
  is_since none row = true
  is_since (some start) row = leb start (columns.created_at row)

  unfoldable pub is_until : Option ℕ → Row → Bool
  is_until none row = true
  is_until (some last) row = leb (columns.created_at row) last

  unfoldable pub has_key : List ℕ → Row → Bool
  unfolding matches
  has_key key row =
      if ltb 0 (length key) && ltb 0 (length columns.key_list)
      then matches key columns.key_list row
      else true

  unfoldable pub is_asked : ℤ → List ℕ → TimeInfo → Row → Bool
  unfolding is_after is_since is_until has_key
  is_asked cursor key time row =
      is_after cursor row
      && is_since time.start_time row
      && is_until time.end_time row
      && has_key key row

  unfoldable pub asked : ℤ → List ℕ → TimeInfo → List Row → List Row
  unfolding is_asked
  asked cursor key time [] = []
  asked cursor key time (row ∷ rest) =
      let others = asked cursor key time rest in
      if is_asked cursor key time row then row ∷ others else others

  -- `extractLastID`
  unfoldable pub extract_last_id : List Row → ℕ
  extract_last_id [] = 0
  extract_last_id (row ∷ []) = columns.id_of row
  extract_last_id (row ∷ next ∷ rest) = extract_last_id (next ∷ rest)

  -- `PageQuery`, on the rows that its filters leave, in its order.
  unfoldable pub page_query : PageInfo → TimeInfo → List Row → PaginatedResult Row
  unfolding asked offset_of extract_last_id
  page_query opt time rows =
      let page = page_of opt.page in
      let size = size_of opt.page_size in
      let found = asked opt.cursor opt.key time rows in
      let total_pages = (length found + size - 1) / size in
      let start = if ltb 1 page then offset_of page size else 0 in
      let list = take size (drop start found) in
      record {
        list = list;
        total = length found;
        page = page;
        page_size = size;
        total_pages = total_pages;
        has_more = ltb page total_pages;
        next_cursor = extract_last_id list;
      }
