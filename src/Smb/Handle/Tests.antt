-- ===== src/Smb/Handle/Tests.antt =====
-- The theorems on a handle at a small file.
use orbit_cloud.Base.{
  ℕ, ◌≡◌, refl, inl, inr, true, false, none, some, List, [], ◌∷◌, length, ◌≢◌, arith,
}
use orbit_cloud.Base.Errors.{ok, err, quota_exceeded}
use orbit_cloud.Base.Int.{pos, ◌+ℤ◌}
use orbit_cloud.BucketCoder.{bucket_encoder}
use orbit_cloud.Storage.Local.{Files, local_storage, update, put, get_range, delete}
use orbit_cloud.Quota.{check_bucket_quota, check_user_quota, Tables, BucketRow, UserRow}
use orbit_cloud.Smb.WriteCache.{
  apply_write, insert_by_off, goes_before, absorb, WriteBackCache, segment,
}
use orbit_cloud.Smb.WriteCache.Flush.{object_limit}
use orbit_cloud.Smb.WriteCache.Flush.Assemble.{IsFlushed}
use orbit_cloud.Smb.Handle.{
  RemoteHandle, flush_spec, check_write_quota, sync_file_meta, flush, write, cache_write,
  read_inner,
}
use orbit_cloud.Smb.Handle.WriteRead.{read_inner-cache_write}
use orbit_cloud.Smb.Handle.Flushing.{flush_stores}
use orbit_cloud.Smb.Handle.EarlyFlush.{flush-write_full}
use orbit_cloud.Smb.Handle.Closing.{close, close_leaves_no_ghost}

abbrev old_object : Files
old_object b k = some (1 ∷ 2 ∷ 3 ∷ [])

abbrev cache : WriteBackCache
cache = record { ranges = segment 2 (8 ∷ 9 ∷ []) ∷ []; max_size = 4; dirty = true }

abbrev handle : RemoteHandle
handle = record {
  readonly = false;
  is_dir = false;
  bucket_id = 1;
  file_id = 7;
  object_key = "7";
  size = 4;
  truncate_at = none;
  write_cache = some cache;
  user_id = 5;
}

abbrev bucket_row : BucketRow
bucket_row = record { quota = pos 10; used_space = pos 9 }

abbrev user_row : UserRow
user_row = record { quota = none; used_space = pos 3 }

abbrev tables : Tables
tables = record {
  bucket = λ i. some bucket_row;
  user = λ i. some user_row;
  file_size = λ i. some (pos 3);
}

abbrev full_tables : Tables
full_tables = record tables { bucket = λ i. some (record bucket_row { quota = pos 9 }) }

read_inner-cache_write_example :
    read_inner local_storage old_object (cache_write false handle 3 (5 ∷ 6 ∷ [])).0 3 2
    ≡ ok (5 ∷ 6 ∷ [])
read_inner-cache_write_example =
    read_inner-cache_write local_storage old_object handle false 3 (5 ∷ 6 ∷ []) refl
      (omega arith, refl, tt) (inr (inr (omega arith)), tt)

abbrev after : RemoteHandle
after = record handle { write_cache = some (record cache { ranges = []; dirty = false }) }

flush_stores_example :
    (out : List ℕ) × (local_storage.object
        (update old_object (bucket_encoder 1) "7" (some (1 ∷ 2 ∷ 8 ∷ 9 ∷ [])))
        (bucket_encoder 1)
        "7"
      ≡ some out)
    × IsFlushed
        (local_storage.object old_object (bucket_encoder 1) "7")
        (object_limit (flush_spec handle))
        4
        0
        cache.ranges
        out
    × ((sync_file_meta tables after).file_size 7 ≡ some (pos 4))
    × (after.truncate_at ≡ none)
unfolding flush flush_spec local_storage update put get_range check_write_quota ◌+ℤ◌
    check_bucket_quota check_user_quota bucket_encoder
flush_stores_example =
    flush_stores local_storage tables old_object handle cache {old = pos 3} refl refl refl
      (omega arith, refl, tt) (inl (omega arith)) (inr (inr (omega arith)), inl (omega arith)) refl
      refl

abbrev roomy : Tables
roomy = record tables { bucket = λ i. some (record bucket_row { quota = pos 20 }) }

abbrev after_write : RemoteHandle
after_write = record after { size = 6 }

abbrev after_write_files : Files
after_write_files = update old_object (bucket_encoder 1) "7" (some (1 ∷ 2 ∷ 8 ∷ 5 ∷ 6 ∷ 7 ∷ []))

flush-write_full_example :
    (out : List ℕ) × (local_storage.object after_write_files (bucket_encoder 1) "7" ≡ some out)
    × (flush local_storage roomy after_write_files after_write
        ≡ (ok tt, after_write, after_write_files, roomy))
    × (roomy.file_size 7 ≢ some (pos (length out)))
unfolding write flush_spec local_storage update put get_range check_write_quota ◌+ℤ◌
    check_bucket_quota check_user_quota apply_write insert_by_off goes_before absorb bucket_encoder
flush-write_full_example =
    flush-write_full local_storage false roomy old_object handle 3 (5 ∷ 6 ∷ 7 ∷ []) {n = 3} refl
      (omega arith, refl, tt) (inl (omega arith)) (inr (inr (omega arith)), inl (omega arith))
      (λ e. cc) refl

-- The tables behind the close of the handle.
abbrev settled_tables : Tables
settled_tables = sync_file_meta tables handle

-- A file that was created and never stored, in a bucket that is full.
abbrev ghost_tables : Tables
ghost_tables = record full_tables { file_size = λ i. some (pos 0) }

close_leaves_no_ghost_example :
    ((close local_storage ghost_tables old_object handle).0 ≡ err quota_exceeded)
    × ((close local_storage ghost_tables old_object handle).2.file_size 7 ≡ none)
    × (local_storage.object
          (close local_storage ghost_tables old_object handle).1
          (bucket_encoder 1)
          "7"
        ≡ none)
unfolding flush_spec local_storage check_write_quota ◌+ℤ◌ check_bucket_quota delete bucket_encoder
close_leaves_no_ghost_example =
    close_leaves_no_ghost local_storage ghost_tables old_object handle cache {e = quota_exceeded}
      {s1 = update old_object (bucket_encoder 1) "7" none} refl refl refl refl refl refl
