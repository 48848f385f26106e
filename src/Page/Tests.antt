-- ===== src/Page/Tests.antt =====
-- The pages of a query at a small table.
use orbit_cloud.Base.{ℕ, ◌≡◌, Bool, true, none, List, [], ◌∷◌, arith}
use orbit_cloud.Base.Int.{pos, negsuc}
use orbit_cloud.Page.{PageInfo, TimeInfo, Columns, asked, page_query}
use orbit_cloud.Page.All.{first_pages, first_pages-all}

-- Rows that are their ids.
abbrev ids : Columns ℕ
ids = record { id_of = λ id. id; created_at = λ id. id; key_list = [] }

abbrev any_text : List ℕ → List ℕ → Bool
any_text text pattern = true

abbrev two_a_page : PageInfo
two_a_page = record { cursor = pos 1; page = negsuc 0; page_size = pos 2; key = [] }

abbrev always : TimeInfo
always = record { start_time = none; end_time = none }

first_pages-all_example :
    first_pages any_text ids
      (page_query any_text ids two_a_page always (5 ∷ 4 ∷ 3 ∷ 1 ∷ [])).total_pages
      two_a_page
      always
      (5 ∷ 4 ∷ 3 ∷ 1 ∷ [])
    ≡ 5 ∷ 4 ∷ 3 ∷ []
unfolding asked
first_pages-all_example =
    first_pages-all any_text ids two_a_page always (5 ∷ 4 ∷ 3 ∷ 1 ∷ []) (omega arith)
