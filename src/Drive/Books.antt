-- ===== src/Drive/Books.antt =====
-- The space that is booked for a bucket and for a user, against the sizes of their files, those in
-- the recycle bin with them.
pub mod Held
pub mod Balance
pub mod Kept
pub mod Folders
pub mod Requests
use orbit_cloud.Base.{ℕ, suc, ◌+◌, ◌<◌, ◌≡◌, ◌⊎◌, Option, some, List, [], ◌∷◌, ◌==◌, if◌then◌else◌}
use orbit_cloud.Base.Int.{ℤ, pos}
use orbit_cloud.Quota.{BucketRow, UserRow}
use orbit_cloud.Drive.{FileRow, Drive}

-- A file's size, for its own bucket or user.
abbrev pub share : (FileRow → ℕ) → ℕ → FileRow → ℕ
share owner i f = if owner f == i then f.file_size else 0

-- The sizes of the files whose bucket, or whose user, is the given one.
unfoldable pub held : (FileRow → ℕ) → ℕ → List FileRow → ℕ
held owner i [] = 0
held owner i (f ∷ rest) = share owner i f + held owner i rest

-- The ids are below a bound, and fall along the table: a row is inserted at its head.
abbrev pub Falling : ℕ → List FileRow → Type 0
Falling bound [] = Unit {0}
Falling bound (f ∷ rest) = (f.id < bound) × Falling f.id rest

abbrev pub IsRow : FileRow → List FileRow → Type 0
IsRow f [] = ⊥
IsRow f (g ∷ rest) = (g ≡ f) ⊎ IsRow f rest

-- Each row's space is what its files hold.
abbrev pub Balanced :
    {Row : Type 0} → (FileRow → ℕ) → (Row → ℤ) → (ℕ → Option Row) → List FileRow → Type 0
Balanced owner used rows files =
    (i : ℕ) (r : _) → rows i ≡ some r → used r ≡ pos (held owner i files)

abbrev pub bucket_of : FileRow → ℕ
bucket_of f = f.bucket_id

abbrev pub user_of : FileRow → ℕ
user_of f = f.uploaded_by

abbrev pub used_by_bucket : BucketRow → ℤ
used_by_bucket b = b.used_space

abbrev pub used_by_user : UserRow → ℤ
used_by_user u = u.used_space

abbrev pub Books : Drive → Type 0
Books d =
    Falling d.next_file_id d.files
    × Balanced bucket_of used_by_bucket d.bucket_space d.files
    × Balanced user_of used_by_user d.user_space d.files
