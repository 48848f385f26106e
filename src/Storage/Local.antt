-- ===== src/Storage/Local.antt =====
-- core/storage.go: `localStorage`. A directory tree as a map from bucket and key to bytes; the
-- errors of the file system (permissions, a full disk) are not modelled.
use Prim.Native.Char.{code}
use Prim.Native.String.{String}
use text.Mathlib.Text.{◌==◌ as str_eq, starts_with}
use text.Mathlib.TextEquality.{eq_iff}
use orbit_cloud.Base.{
  ℕ, ◌+◌, ◌-◌, ◌≡◌, ◌≤◌, ◌<◌, sym, ap, ◌∙◌, length, get_elem?, length-take, length-drop,
  get_elem?-take, get_elem?-drop, inl, inr, ◌⊎◌, ◌≢◌, Bool-cases, ◌==◌, Bool, true, false, ◌||◌,
  ◌&&◌, Option, none, some, List, take, drop, if◌then◌else◌, arith,
}
use orbit_cloud.Storage.{Fetched, found, missing, failed, whole_of, range_of, ObjectStorage}

abbrev pub Files : Type 0
Files = String → String → Option (List ℕ)

-- The first test of `resolve`. The keys and bucket names of the program hold digits, letters and
-- dashes, so the path that `resolve` cleans stays below the root.
unfoldable pub resolves : String → String → Bool
resolves bucket key =
    if str_eq bucket "" || (str_eq key "" || starts_with key "/") then false else true

unfoldable pub update : Files → String → String → Option (List ℕ) → Files
update fs bucket key object b k = if str_eq b bucket && str_eq k key then object else fs b k

unfoldable pub put : Files → String → String → List ℕ → Option Files
unfolding resolves
put fs bucket key bytes =
    if resolves bucket key then some (update fs bucket key (some bytes)) else none

unfoldable pub get : Files → String → String → Fetched
unfolding resolves
get fs bucket key =
    if resolves bucket key
    then elim (fs bucket key) [ none ↦ missing | some bytes ↦ found bytes ]
    else failed

unfoldable pub get_range : Files → String → String → ℕ → ℕ → Fetched
unfolding resolves
get_range fs bucket key start end =
    if resolves bucket key
    then elim (fs bucket key) [
      | none ↦ missing
      | some bytes ↦ found (take (end + 1 - start) (drop start bytes))
    ]
    else failed

-- Deleting an object that is not there is no error.
unfoldable pub delete : Files → String → String → Option Files
unfolding resolves
delete fs bucket key = if resolves bucket key then some (update fs bucket key none) else none

-- strings.ContainsAny(bucket, "/\\")
has_separator : String → Bool
has_separator String.[] = false
has_separator (String.◌∷◌ c rest) = code c == b'/' || (code c == 0x5c || has_separator rest)

-- A bucket that is not there is no error.
unfoldable pub delete_bucket : Files → String → Option Files
unfolding has_separator
delete_bucket fs bucket =
    if str_eq bucket "" || has_separator bucket
    then none
    else some (λ b k. if str_eq b bucket then none else fs b k)

pub get_reads :
    (fs : Files) (bucket key : String)
    → (get fs bucket key ≡ failed) ⊎ (get fs bucket key ≡ whole_of (fs bucket key))
unfolding get
get_reads fs bucket key = ground arith

pub get_range_reads :
    (fs : Files) (bucket key : String) (start end : ℕ)
    → (get_range fs bucket key start end ≡ failed)
      ⊎ (get_range fs bucket key start end ≡ range_of (fs bucket key) start end)
unfolding get_range
get_range_reads fs bucket key start end = ground arith

update_self :
    (fs : Files) (bucket key : String) (object : Option (List ℕ))
    → update fs bucket key object bucket key ≡ object
unfolding update
update_self fs bucket key object = ground (arith, eq_iff bucket bucket, eq_iff key key)

update_other :
    (fs : Files) (bucket key : String) (object : Option (List ℕ)) (b k : String)
    → (b ≢ bucket) ⊎ (k ≢ key)
    → update fs bucket key object b k ≡ fs b k
unfolding update
update_other fs bucket key object b k h = ground (arith, eq_iff b bucket, eq_iff k key)

put_fails :
    (fs fs' : Files) (bucket key : String) (bytes : List ℕ)
    → resolves bucket key ≡ false
    → put fs bucket key bytes ≡ some fs'
    → ⊥
unfolding put
put_fails fs fs' bucket key bytes r e = ground arith

-- After `Put` the object is there, and every other object is as before.
pub object-put :
    (fs fs' : Files) (bucket key : String) (bytes : List ℕ)
    → put fs bucket key bytes ≡ some fs'
    → (fs' bucket key ≡ some bytes) × ((b k : String) → (b ≢ bucket) ⊎ (k ≢ key) → fs' b k ≡ fs b k)
unfolding put
object-put fs fs' bucket key bytes e = elim (Bool-cases (resolves bucket key)) [
  | inl r ↦
      let same : update fs bucket key (some bytes) ≡ fs' = ground arith in
      (
        ap (λ (g : Files). g bucket key) (sym same) ∙ update_self fs bucket key (some bytes),
        λ b k h.
            ap (λ (g : Files). g b k) (sym same) ∙ update_other fs bucket key (some bytes) b k h,
      )
  | inr r ↦ absurd (put_fails fs fs' bucket key bytes r e)
]

-- After `Delete` the object is missing, and every other object is as before; so too where it was
-- not there.
pub object-delete :
    (fs fs' : Files) (bucket key : String)
    → delete fs bucket key ≡ some fs'
    → (fs' bucket key ≡ none) × ((b k : String) → (b ≢ bucket) ⊎ (k ≢ key) → fs' b k ≡ fs b k)
unfolding delete
object-delete fs fs' bucket key e = elim (Bool-cases (resolves bucket key)) [
  | inl r ↦
      let same : update fs bucket key none ≡ fs' = ground arith in
      (
        ap (λ (g : Files). g bucket key) (sym same) ∙ update_self fs bucket key none,
        λ b k h. ap (λ (g : Files). g b k) (sym same) ∙ update_other fs bucket key none b k h,
      )
  | inr r ↦ absurd (ground arith)
]

-- The range [start, end] of a stored object that is long enough: as many bytes as asked for, and
-- each the object's.
pub get_range-put :
    (fs fs' : Files) (bucket key : String) (bytes : List ℕ) (start end : ℕ)
    → put fs bucket key bytes ≡ some fs'
    → start ≤ end
    → end < length bytes
    → (out : List ℕ) × (get_range fs' bucket key start end ≡ found out)
      × (length out ≡ end - start + 1)
      × ((i : ℕ) → i ≤ end - start → get_elem? out i ≡ get_elem? bytes (start + i))
unfolding get_range
get_range-put fs fs' bucket key bytes start end e h k =
    let n = end + 1 - start in
    let stored = (object-put fs fs' bucket key bytes e).0 in
    (
      take n (drop start bytes),
      elim (Bool-cases (resolves bucket key)) [
        | inl r ↦ rw (r, stored)
        | inr r ↦ absurd (put_fails fs fs' bucket key bytes r e)
      ],
      omega (arith, length-take n (drop start bytes), length-drop start bytes),
      λ i l. ground (arith, get_elem?-take n (drop start bytes) i, get_elem?-drop start bytes i),
    )

-- The local driver meets the interface.
unfoldable pub local_storage : ObjectStorage Files
local_storage = record {
  object = λ fs. fs;
  get = get;
  get_range = get_range;
  put = put;
  delete = delete;
  delete_bucket = delete_bucket;
  get_reads = get_reads;
  get_range_reads = get_range_reads;
  put_stores = λ fs fs' bucket key bytes e. (object-put fs fs' bucket key bytes e).0;
  delete_removes = λ fs fs' bucket key e. (object-delete fs fs' bucket key e).0;
}
