-- ===== src/Smb/Registry/Fresh.antt =====
-- An id is found while its handle is open, and never again.
use orbit_cloud.Base.{
  ℕ, ◌+◌, ◌^◌, ◌<◌, ◌≡◌, refl, ◌∙◌, inl, inr, true, false, none, some, List, [], ◌∷◌, ◌==◌,
  if◌then◌else◌, length, Bool-cases, arith,
}
use orbit_cloud.Smb.Registry.{
  HandleRegistry, without, find, alloc, get, delete, Call, allocates, deletes, run,
}

find-without :
    {H : Type 0} (id j : ℕ) (hs : List (ℕ × H))
    → find j (without id hs) ≡ (if j == id then none else find j hs)
unfolding find without
find-without id j [] = ground arith
find-without id j ((i, h) ∷ rest) = ground (arith, find-without id j rest)

-- The handle that was given an id is found under it, and every other id gives what it gave.
pub get-alloc :
    {H : Type 0} (h : H) (r : HandleRegistry H) (j : ℕ)
    → get j (alloc h r).0 ≡ (if j == (alloc h r).1 then some h else get j r)
unfolding get alloc find
get-alloc h r j = ground (arith, find-without r.next_id j r.handles)

pub get-delete :
    {H : Type 0} (id : ℕ) (r : HandleRegistry H) (j : ℕ)
    → get j (delete id r) ≡ (if j == id then none else get j r)
unfolding get delete
get-delete id r j = find-without id j r.handles

next_after :
    {H : Type 0} (h : H) (r : HandleRegistry H)
    → r.next_id + 1 < 2 ^ 64
    → (alloc h r).0.next_id ≡ r.next_id + 1
unfolding alloc
next_after h r l = omega arith

unequal :
    {H : Type 0} (id : ℕ) (h : H) (r : HandleRegistry H)
    → id < r.next_id
    → (id == (alloc h r).1) ≡ false
unfolding alloc
unequal id h r l = ground arith

none-alloc :
    {H : Type 0} (id : ℕ) (h : H) (r : HandleRegistry H)
    → get id r ≡ none
    → id < r.next_id
    → get id (alloc h r).0 ≡ none
none-alloc id h r g l =
    let other : (id == (alloc h r).1) ≡ false = unequal id h r l in get-alloc h r id ∙ rw other g

none-delete :
    {H : Type 0} (id j : ℕ) (r : HandleRegistry H) → get id r ≡ none → get id (delete j r) ≡ none
none-delete id j r g = elim (Bool-cases (id == j)) [
  | inl b ↦ get-delete j r id ∙ rw b refl
  | inr b ↦ get-delete j r id ∙ rw b g
]

next_id-delete : {H : Type 0} (j : ℕ) (r : HandleRegistry H) → (delete j r).next_id ≡ r.next_id
unfolding delete
next_id-delete j r = refl

stays_closed :
    {H : Type 0} (id : ℕ) (calls : List (Call H)) (r : HandleRegistry H)
    → get id r ≡ none
    → id < r.next_id
    → r.next_id + length calls < 2 ^ 64
    → get id (run calls r) ≡ none
unfolding run
stays_closed id [] r g l b = g
stays_closed id (allocates h ∷ calls) r g l b =
    let n = next_after h r (omega arith) in
    stays_closed id calls (alloc h r).0 (none-alloc id h r g l) (omega arith) (omega arith)
stays_closed id (deletes j ∷ calls) r g l b =
    let n = next_id-delete j r in
    stays_closed id calls (delete j r) (none-delete id j r g) (omega arith) (omega arith)

-- A handle that is closed is never found again under its id, whatever is opened and closed after
-- that, as long as the counter does not wrap.
pub get-run_delete :
    {H : Type 0} (id : ℕ) (calls : List (Call H)) (r : HandleRegistry H)
    → id < r.next_id
    → r.next_id + length calls < 2 ^ 64
    → get id (run calls (delete id r)) ≡ none
get-run_delete id calls r l b =
    let n = next_id-delete id r in
    let same : (id == id) ≡ true = ground arith in
    stays_closed id calls (delete id r) (get-delete id r id ∙ rw same refl) (omega arith)
      (omega arith)
