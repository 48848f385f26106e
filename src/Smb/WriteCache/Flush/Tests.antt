-- ===== src/Smb/WriteCache/Flush/Tests.antt =====
-- The theorems on the flush at concrete snapshots and storages.
use orbit_cloud.Base.{ℕ, ◌≡◌, refl, inl, inr, true, false, none, some, List, [], ◌∷◌, arith}
use orbit_cloud.Base.Errors.{ok}
use orbit_cloud.Storage.Local.{Files, local_storage, update, put, get_range}
use orbit_cloud.Smb.WriteCache.{WriteBackCache, segment}
use orbit_cloud.Smb.WriteCache.Flush.{WriteSpec, flush_to_storage}
use orbit_cloud.Smb.WriteCache.Flush.Assemble.{IsFlushed}
use orbit_cloud.Smb.WriteCache.Flush.Upload.{flush_uploads, flush_succeeds}

-- An object of five bytes.
abbrev stored : Files
stored b k = some (1 ∷ 2 ∷ 3 ∷ 4 ∷ 5 ∷ [])

-- One segment behind the old object's first three bytes.
abbrev snapshot : WriteSpec
snapshot = record {
  size = 8;
  truncate_at = none;
  segments = segment 3 (9 ∷ 9 ∷ 9 ∷ 9 ∷ 9 ∷ []) ∷ [];
  dirty = true;
}

abbrev cached : WriteBackCache
cached = record { ranges = snapshot.segments; max_size = 4194304; dirty = true }

abbrev emptied : WriteBackCache
emptied = record cached { ranges = []; dirty = false }

abbrev flushed_bytes : List ℕ
flushed_bytes = 1 ∷ 2 ∷ 3 ∷ 9 ∷ 9 ∷ 9 ∷ 9 ∷ 9 ∷ []

flush_uploads_example :
    (out : List ℕ) × (update stored "1" "7" (some flushed_bytes) "1" "7" ≡ some out)
    × IsFlushed (stored "1" "7") 8 8 0 snapshot.segments out
    × (emptied.ranges ≡ [])
    × (emptied.dirty ≡ false)
unfolding flush_to_storage update put get_range local_storage
flush_uploads_example =
    flush_uploads local_storage "1" "7" snapshot stored cached refl (omega arith, refl, tt)
      (inl (omega arith)) (inr (inr (omega arith)), inl (omega arith)) refl

flush_succeeds_example : (flush_to_storage local_storage "1" "7" snapshot stored cached).0 ≡ ok tt
unfolding put get_range local_storage
flush_succeeds_example =
    flush_succeeds local_storage "1" "7" snapshot stored cached (λ a b e. ground arith)
      (λ bytes. (update stored "1" "7" (some bytes), refl))
