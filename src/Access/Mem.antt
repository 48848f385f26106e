-- ===== src/Access/Mem.antt =====
-- Membership by the Boolean test.
use orbit_cloud.Base.{ℕ, ◌≡◌, true, List, [], ◌∷◌, arith}
use orbit_cloud.Access.{mem}

pub mem_self : (x : ℕ) (xs : List ℕ) → mem x (x ∷ xs) ≡ true
unfolding mem
mem_self x xs = ground arith

pub mem_nil : (x : ℕ) → mem x [] ≡ true → ⊥
unfolding mem
mem_nil x m = cc

pub mem_later : (x y : ℕ) (xs : List ℕ) → mem x xs ≡ true → mem x (y ∷ xs) ≡ true
unfolding mem
mem_later x y xs m = ground arith
