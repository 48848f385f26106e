-- ===== src/Drive/Books/Held.antt =====
-- What files hold, when a row is inserted, removed or changed.
use orbit_cloud.Base.{
  ℕ, ◌+◌, ◌<◌, ◌≤◌, ◌≡◌, refl, sym, ap, inl, inr, Bool, true, false, List, [], ◌∷◌, ◌==◌,
  Bool-cases, arith,
}
use orbit_cloud.Base.Errors.{ok}
use orbit_cloud.Drive.{FileRow, find_file}
use orbit_cloud.Drive.Storing.{remove_file}
use orbit_cloud.Drive.Move.{update_file}
use orbit_cloud.Drive.Books.{share, held, IsRow, Falling}

pub Falling-weaken : (k l : ℕ) (files : List FileRow) → k ≤ l → Falling k files → Falling l files
Falling-weaken k l [] h p = tt
Falling-weaken k l (f ∷ rest) h (below_k, p) = (omega arith, p)

-- No row has an id that is not below the bound.
pub remove_file_above :
    (bound id : ℕ) (files : List FileRow)
    → bound ≤ id
    → Falling bound files
    → remove_file id files ≡ files
unfolding remove_file
remove_file_above bound id [] h p = refl
remove_file_above bound id (f ∷ rest) h (lower, p) =
    let same = remove_file_above f.id id rest (omega arith) p in
    let other : (f.id == id) ≡ false = ground arith in rw (other, same) refl

pub Falling-remove_file :
    (bound id : ℕ) (files : List FileRow)
    → Falling bound files
    → Falling bound (remove_file id files)
unfolding remove_file
Falling-remove_file bound id [] p = tt
Falling-remove_file bound id (f ∷ rest) (lower, p) =
    let kept = Falling-remove_file f.id id rest p in
    elim (Bool-cases (f.id == id)) [
      | inl b ↦ rw b (Falling-weaken f.id bound (remove_file id rest) (omega arith) kept)
      | inr b ↦ rw b (lower, kept)
    ]

pub IsRow-find_file :
    (test : FileRow → Bool) (files : List FileRow) (f : FileRow)
    → find_file test files ≡ ok f
    → IsRow f files × (test f ≡ true)
unfolding find_file
IsRow-find_file test [] f e = cc
IsRow-find_file test (g ∷ rest) f e = elim (Bool-cases (test g)) [
  | inl b ↦ let same : g ≡ f = ground (arith, e, b) in (inl same, rw (sym same) b)
  | inr b ↦
      let (row, passes) = IsRow-find_file test rest f (ground (arith, e, b)) in (inr row, passes)
]

IsRow-below :
    (bound : ℕ) (files : List FileRow) (f : FileRow)
    → Falling bound files
    → IsRow f files
    → f.id < bound
IsRow-below bound [] f p row = absurd row
IsRow-below bound (g ∷ rest) f (lower, p) (inl e) = rw (ap (λ h. h.id) (sym e)) lower
IsRow-below bound (g ∷ rest) f (lower, p) (inr row) =
    let below_g = IsRow-below g.id rest f p row in omega arith

-- A row holds its size, and the rest is what is held without it.
pub held-remove_file :
    (owner : FileRow → ℕ) (i bound : ℕ) (files : List FileRow) (f : FileRow)
    → Falling bound files
    → IsRow f files
    → held owner i files ≡ share owner i f + held owner i (remove_file f.id files)
unfolding held remove_file
held-remove_file owner i bound [] f p row = absurd row
held-remove_file owner i bound (g ∷ rest) f (lower, p) (inl e) =
    let same : (g.id == f.id) ≡ true = rw e (ground arith) in
    let untouched : remove_file f.id rest ≡ rest =
      remove_file_above g.id f.id rest (rw e (omega arith)) p in
    rw (same, untouched, e) refl
held-remove_file owner i bound (g ∷ rest) f (lower, p) (inr row) =
    let below_g = IsRow-below g.id rest f p row in
    let other : (g.id == f.id) ≡ false = ground arith in
    let later = held-remove_file owner i g.id rest f p row in rw (other, later) (omega arith)

-- A change of a row that keeps its bucket and user, its size and its id.
pub held-update_file :
    (owner : FileRow → ℕ) (i id : ℕ) (change : FileRow → FileRow) (files : List FileRow)
    → ((f : FileRow) → share owner i (change f) ≡ share owner i f)
    → held owner i (update_file id change files) ≡ held owner i files
unfolding held update_file
held-update_file owner i id change [] keeps = refl
held-update_file owner i id change (f ∷ rest) keeps =
    let same = held-update_file owner i id change rest keeps in
    elim (Bool-cases (f.id == id)) [
      | inl b ↦ rw (b, keeps f, same) refl
      | inr b ↦ rw (b, same) refl
    ]

pub Falling-update_file :
    (bound id : ℕ) (change : FileRow → FileRow) (files : List FileRow)
    → ((f : FileRow) → (change f).id ≡ f.id)
    → Falling bound files
    → Falling bound (update_file id change files)
unfolding update_file
Falling-update_file bound id change [] keeps p = tt
Falling-update_file bound id change (f ∷ rest) keeps (lower, p) =
    let later = Falling-update_file f.id id change rest keeps p in
    elim (Bool-cases (f.id == id)) [
      | inl b ↦ rw (b, keeps f) (lower, later)
      | inr b ↦ rw b (lower, later)
    ]
