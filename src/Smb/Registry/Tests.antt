-- ===== src/Smb/Registry/Tests.antt =====
-- The theorems on the handle table at concrete tables.
use orbit_cloud.Base.{ℕ, ◌≡◌, refl, none, [], ◌∷◌, ltb→lt, arith}
use orbit_cloud.Smb.Registry.{HandleRegistry, get, delete, allocates, deletes, run}
use orbit_cloud.Smb.Registry.Fresh.{get-run_delete}

abbrev two_open : HandleRegistry ℕ
two_open = record { handles = (2, 70) ∷ (1, 60) ∷ []; next_id = 3 }

get-run_delete_example :
    get 1 (run (allocates 90 ∷ deletes 2 ∷ allocates 91 ∷ []) (delete 1 two_open)) ≡ none
get-run_delete_example =
    get-run_delete 1 (allocates 90 ∷ deletes 2 ∷ allocates 91 ∷ []) two_open (omega arith)
      (ltb→lt 6 18446744073709551616 refl)
