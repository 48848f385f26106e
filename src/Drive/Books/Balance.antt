-- ===== src/Drive/Books/Balance.antt =====
-- The rows of the quotas stay balanced when space is booked and given back.
use orbit_cloud.Base.{
  ℕ, ◌+◌, ◌≡◌, refl, sym, ap, ◌⊎◌, inl, inr, true, false, Option, some, List, ◌∷◌, ◌==◌, Bool-cases,
  Option-cases, arith,
}
use orbit_cloud.Base.Int.{ℤ, pos, ◌+ℤ◌, leb_ℤ, parts-+ℤ, parts_eq}
use orbit_cloud.Quota.{Tables, at_id, clamped, negated, add_user_used_space, return_user_used_space}
use orbit_cloud.Quota.Booking.{clamped-back}
use orbit_cloud.Drive.{FileRow}
use orbit_cloud.Drive.Storing.{remove_file}
use orbit_cloud.Drive.Books.{share, held, IsRow, Falling, Balanced, user_of, used_by_user}
use orbit_cloud.Drive.Books.Held.{held-remove_file}

-- A row behind an update is the changed row of the id, or an unchanged one of another id.
pub at_id_cases :
    {Row : Type 0} (id i : ℕ) (change : Row → Row) (rows : ℕ → Option Row) (r : Row)
    → at_id id change rows i ≡ some r
    → ((i ≡ id) × ((r₀ : Row) × (rows i ≡ some r₀) × (r ≡ change r₀)))
      ⊎ (((i == id) ≡ false) × (rows i ≡ some r))
at_id_cases id i change rows r e = elim (Bool-cases (i == id)) [
  | inr b ↦ inr (b, ground (arith, e, b))
  | inl b ↦
      let same : i ≡ id = ground arith in
      elim (Option-cases (rows id)) [
        | inl n ↦ ground (arith, e, b, n)
        | inr (r₀, m) ↦ inl (same, (r₀, rw same m, ground (arith, e, b, m)))
      ]
]

pos-+ℤ : (k l : ℕ) → pos k +ℤ pos l ≡ pos (l + k)
pos-+ℤ k l = parts_eq (pos k +ℤ pos l) (pos (l + k)) (omega (arith, parts-+ℤ (pos k) (pos l)))

pub clamped_held : (k l : ℕ) → clamped (pos (l + k)) (negated (pos l)) ≡ pos k
clamped_held k l = rw (sym (pos-+ℤ k l)) (clamped-back (pos k) (pos l) (omega arith))

module _ {Row : Type 0} (owner : FileRow → ℕ) (used : Row → ℤ) where
  -- A file's size is booked for its owner.
  pub booked-Balanced :
      (change : Row → Row) (rows : ℕ → Option Row) (files : List FileRow) (f : FileRow)
      → ((r : Row) → used (change r) ≡ used r +ℤ pos f.file_size)
      → Balanced owner used rows files
      → Balanced owner used (at_id (owner f) change rows) (f ∷ files)
  unfolding held
  booked-Balanced change rows files f adds p i r e =
      elim (at_id_cases (owner f) i change rows r e) [
        | inl (same, (r₀, m, changed)) ↦
            let mine : (owner f == i) ≡ true = ground arith in
            rw (changed, adds r₀, p i r₀ m, mine) (pos-+ℤ (held owner i files) f.file_size)
        | inr (b, m) ↦
            let nothing : share owner i f ≡ 0 = ground arith in
            rw (p i r m) (ap pos (omega (arith, nothing)))
      ]

  -- A file's size is given back for its owner.
  pub returned-Balanced :
      (change : Row → Row) (rows : ℕ → Option Row) (bound : ℕ) (files : List FileRow) (f : FileRow)
      → ((r : Row) → used (change r) ≡ clamped (used r) (negated (pos f.file_size)))
      → Falling bound files
      → IsRow f files
      → Balanced owner used rows files
      → Balanced owner used (at_id (owner f) change rows) (remove_file f.id files)
  returned-Balanced change rows bound files f takes falling row p i r e =
      let parts = held-remove_file owner i bound files f falling row in
      elim (at_id_cases (owner f) i change rows r e) [
        | inl (same, (r₀, m, changed)) ↦
            let mine : (owner f == i) ≡ true = ground arith in
            rw (changed, takes r₀, p i r₀ m, parts, mine)
              (clamped_held (held owner i (remove_file f.id files)) f.file_size)
        | inr (b, m) ↦
            let nothing : share owner i f ≡ 0 = ground arith in
            rw (p i r m, parts) (ap pos (omega (arith, nothing)))
      ]

  -- A file of no size changes nothing.
  pub empty-Balanced :
      (rows : ℕ → Option Row) (files : List FileRow) (f : FileRow)
      → f.file_size ≡ 0
      → Balanced owner used rows files
      → Balanced owner used rows (f ∷ files)
  unfolding held
  empty-Balanced rows files f none_held p i r e =
      let nothing : share owner i f ≡ 0 = ground arith in
      rw (p i r e) (ap pos (omega (arith, nothing)))

  pub emptied-Balanced :
      (rows : ℕ → Option Row) (bound : ℕ) (files : List FileRow) (f : FileRow)
      → f.file_size ≡ 0
      → Falling bound files
      → IsRow f files
      → Balanced owner used rows files
      → Balanced owner used rows (remove_file f.id files)
  emptied-Balanced rows bound files f none_held falling row p i r e =
      let parts = held-remove_file owner i bound files f falling row in
      let nothing : share owner i f ≡ 0 = ground arith in
      rw (p i r e, parts) (ap pos (omega (arith, nothing)))

-- The same through `addUserUsedSpace` and `returnUserUsedSpace`.
pub Balanced-add_user_used_space :
    (t : Tables) (files : List FileRow) (f : FileRow)
    → Balanced user_of used_by_user t.user files
    → Balanced user_of used_by_user
        (add_user_used_space f.uploaded_by (pos f.file_size) t).user
        (f ∷ files)
unfolding add_user_used_space
Balanced-add_user_used_space t files f p = elim (Bool-cases (leb_ℤ (pos f.file_size) (pos 0))) [
  | inl b ↦ rw b (empty-Balanced user_of used_by_user t.user files f (ground arith) p)
  | inr b ↦ rw b (
      booked-Balanced user_of used_by_user
        (λ u. record u { used_space = u.used_space +ℤ pos f.file_size }) t.user files f (λ u. refl)
        p)
]

pub Balanced-return_user_used_space :
    (t : Tables) (bound : ℕ) (files : List FileRow) (f : FileRow)
    → Falling bound files
    → IsRow f files
    → Balanced user_of used_by_user t.user files
    → Balanced user_of used_by_user
        (return_user_used_space f.uploaded_by (pos f.file_size) t).user
        (remove_file f.id files)
unfolding return_user_used_space
Balanced-return_user_used_space t bound files f falling row p =
    elim (Bool-cases (leb_ℤ (pos f.file_size) (pos 0))) [
      | inl b ↦
          rw b (
            emptied-Balanced user_of used_by_user t.user bound files f (ground arith) falling row p)
      | inr b ↦ rw b (
          returned-Balanced user_of used_by_user
            (λ u. record u { used_space = clamped u.used_space (negated (pos f.file_size)) }) t.user
            bound files f (λ u. refl) falling row p)
    ]
