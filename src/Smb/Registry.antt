-- ===== src/Smb/Registry.antt =====
-- smb_server/go/registry.go: the table of the open handles. `H` stands for what a handle holds;
-- the lock makes each call one step.
pub mod Fresh
mod Tests
use orbit_cloud.Base.{
  ℕ, suc, ◌+◌, ◌%◌, ◌^◌, ◌≡◌, Bool, true, false, Option, none, some, List, [], ◌∷◌, ◌==◌, map,
  if◌then◌else◌,
}

-- `HandleRegistry`; the map from ids as a list.
pub record HandleRegistry (H : Type 0) : Type 0 where
  pub handles : List (ℕ × H)
  pub next_id : ℕ

-- `NewHandleRegistry`
abbrev pub new_handle_registry : {H : Type 0} → HandleRegistry H
new_handle_registry = record { handles = []; next_id = 1 }

-- delete(m, id)
unfoldable pub without : {H : Type 0} → ℕ → List (ℕ × H) → List (ℕ × H)
without id [] = []
without id ((i, h) ∷ rest) = let kept = without id rest in if i == id then kept else (i, h) ∷ kept

-- m[id]
unfoldable pub find : {H : Type 0} → ℕ → List (ℕ × H) → Option H
find id [] = none
find id ((i, h) ∷ rest) = if i == id then some h else find id rest

-- `Alloc`: the registry and the id. The counter is a uint64.
unfoldable pub alloc : {H : Type 0} → H → HandleRegistry H → HandleRegistry H × ℕ
unfolding without
alloc h r =
    let id = r.next_id in
    (record { handles = (id, h) ∷ without id r.handles; next_id = (id + 1) % 2 ^ 64 }, id)

-- `Get`
unfoldable pub get : {H : Type 0} → ℕ → HandleRegistry H → Option H
unfolding find
get id r = find id r.handles

-- `Delete`
unfoldable pub delete : {H : Type 0} → ℕ → HandleRegistry H → HandleRegistry H
unfolding without
delete id r = record r { handles = without id r.handles }

-- `All`, in some order
unfoldable pub all : {H : Type 0} → HandleRegistry H → List H
all r = map (λ p. p.1) r.handles

-- The calls that change the table.
pub data Call (H : Type 0) : Type 0 where
  allocates : H → Call H
  deletes : ℕ → Call H

unfoldable pub run : {H : Type 0} → List (Call H) → HandleRegistry H → HandleRegistry H
unfolding alloc delete
run [] r = r
run (allocates h ∷ calls) r = run calls (alloc h r).0
run (deletes id ∷ calls) r = run calls (delete id r)
