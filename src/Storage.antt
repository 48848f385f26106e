-- ===== src/Storage.antt =====
-- core/storage.go: the object storage as its callers see it, and the local driver.
pub mod Local
use Prim.Native.String.{String}
use orbit_cloud.Base.{ℕ, ◌+◌, ◌-◌, ◌≡◌, ◌⊎◌, Option, none, some, List, take, drop}

-- What `GetRange`, and the reading of its stream, give: bytes, `ErrObjectNotFound`, or another
-- error.
pub data Fetched : Type 0 where
  found : List ℕ → Fetched
  missing : Fetched
  failed : Fetched

-- All of an object.
abbrev pub whole_of : Option (List ℕ) → Fetched
whole_of none = missing
whole_of (some bytes) = found bytes

-- The bytes of [start, end] in an object; a stream that ends early gives what is there.
abbrev pub range_of : Option (List ℕ) → ℕ → ℕ → Fetched
range_of none start end = missing
range_of (some bytes) start end = found (take (end + 1 - start) (drop start bytes))

-- `ObjectStorage`, with `S` for the state of the storage; `none` of `put` is an error.
-- `object` is the view by which the laws are stated.
pub record ObjectStorage (S : Type 0) : Type 0 where
  pub object : S → String → String → Option (List ℕ)
  pub get : S → String → String → Fetched
  pub get_range : S → String → String → ℕ → ℕ → Fetched
  pub put : S → String → String → List ℕ → Option S
  pub delete : S → String → String → Option S
  pub delete_bucket : S → String → Option S
  pub get_reads :
      (s : S) (bucket key : String)
      → (get s bucket key ≡ failed) ⊎ (get s bucket key ≡ whole_of (object s bucket key))
  pub get_range_reads :
      (s : S) (bucket key : String) (start end : ℕ)
      → (get_range s bucket key start end ≡ failed)
        ⊎ (get_range s bucket key start end ≡ range_of (object s bucket key) start end)
  pub put_stores :
      (s t : S) (bucket key : String) (bytes : List ℕ)
      → put s bucket key bytes ≡ some t
      → object t bucket key ≡ some bytes
  pub delete_removes :
      (s t : S) (bucket key : String) → delete s bucket key ≡ some t → object t bucket key ≡ none
