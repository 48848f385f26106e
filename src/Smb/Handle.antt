-- ===== src/Smb/Handle.antt =====
-- smb_server/go/file_io.go, with the remote handle of smb_server/go/file_ops.go and `Close` of
-- smb_server/go/file_dir.go: the reads, writes, flushes and truncations of one open handle. The
-- handle's mutex makes each call one step; log lines and the time of the last activity are left
-- out.
pub mod Reading
pub mod WriteRead
pub mod Flushing
pub mod EarlyFlush
pub mod Closing
mod Tests
use Prim.Native.String.{String}
use orbit_cloud.Base.{
  ℕ, ◌+◌, ◌-◌, ◌*◌, ◌%◌, ◌^◌, ◌≡◌, Bool, true, false, not, ◌&&◌, ◌||◌, Option, none, some, List, [],
  ◌∷◌, ◌++◌, ltb, leb, ◌==◌, if◌then◌else◌, length, take,
}
use orbit_cloud.Base.Errors.{Result, ok, err, internal, forbidden, ◌>>=◌}
use orbit_cloud.Base.Int.{ℤ, pos, negsuc, ◌+ℤ◌, leb_ℤ}
use orbit_cloud.BucketCoder.{bucket_encoder}
use orbit_cloud.Storage.{Fetched, found, missing, failed, ObjectStorage}
use orbit_cloud.Quota.{
  Tables, BucketRow, UserRow, first, check_bucket_quota, check_user_quota, at_id, clamped, negated,
}
use orbit_cloud.Smb.WriteCache.{
  WriteRange, WriteBackCache, new_write_back_cache, apply_write, slice, min64, max64,
}
use orbit_cloud.Smb.WriteCache.Flush.{WriteSpec, flush_to_storage}

-- `remoteHandle`; the mode of its share is read here only to see whether it is "readonly". A
-- `truncateAt` of -1 is `none`, a `writeCache` of nil too.
pub record RemoteHandle : Type 0 where
  pub readonly : Bool
  pub is_dir : Bool
  pub bucket_id : ℕ
  pub file_id : ℕ
  pub object_key : String
  pub size : ℕ
  pub truncate_at : Option ℕ
  pub write_cache : Option WriteBackCache
  pub user_id : ℕ

abbrev pub segments_of : Option WriteBackCache → List WriteRange
segments_of none = []
segments_of (some c) = c.ranges

abbrev pub dirty_of : Option WriteBackCache → Bool
dirty_of none = false
dirty_of (some c) = c.dirty

abbrev pub is_set : Option ℕ → Bool
is_set none = false
is_set (some n) = true

-- `flushSpec`
unfoldable pub flush_spec : RemoteHandle → WriteSpec
flush_spec h = record {
  size = h.size;
  truncate_at = h.truncate_at;
  segments = segments_of h.write_cache;
  dirty = is_set h.truncate_at || dirty_of h.write_cache;
}

abbrev pub cache_or_new : Option WriteBackCache → WriteBackCache
cache_or_new none = new_write_back_cache
cache_or_new (some c) = c

-- h.size - old.FileSize
abbrev pub growth : RemoteHandle → ℤ → ℤ
growth h old = pos h.size +ℤ negated old

-- `checkWriteQuota`
unfoldable pub check_write_quota : Tables → RemoteHandle → Result (Unit {0})
check_write_quota t h = first (t.file_size h.file_id) >>= λ old.
    if leb_ℤ (growth h old) (pos 0)
    then ok tt
    else check_bucket_quota t h.bucket_id (growth h old) >>= λ bucket_admits.
        check_user_quota t h.user_id

-- The two updates of `syncFileMeta` where the size has changed.
unfoldable pub book_growth : Tables → RemoteHandle → ℤ → Tables
book_growth t h delta = if leb_ℤ delta (pos 0) && leb_ℤ (pos 0) delta then t else record t {
  bucket = at_id h.bucket_id (λ b. record b { used_space = b.used_space +ℤ delta }) t.bucket;
  user = at_id h.user_id (λ u. record u { used_space = clamped u.used_space delta }) t.user;
}

-- `syncFileMeta`; where the file has no row, no row is updated. No update fails here.
unfoldable pub sync_file_meta : Tables → RemoteHandle → Tables
unfolding book_growth
sync_file_meta t h = elim (t.file_size h.file_id) [
  | none ↦ t
  | some old ↦ record (book_growth t h (growth h old)) {
    file_size = at_id h.file_id (λ size. pos h.size) t.file_size;
  }
]

-- `readFromObject` of `readInner`. That a range lies behind the end of the object (a 416) is the
-- answer `found []`.
unfoldable pub read_from_object : (ℕ → ℕ → Fetched) → ℕ → ℕ → Result (List ℕ)
read_from_object fetch from to =
    let read = fetch from (to - 1) in
    if leb to from then ok [] else elim read [
      | missing ↦ ok []
      | failed ↦ err internal
      | found bytes ↦ ok (take (to - from) bytes)
    ]

-- The gap before a segment, and the cursor behind it.
unfoldable pub read_hole : (ℕ → ℕ → Fetched) → ℕ → ℕ → WriteRange → Result (List ℕ)
unfolding read_from_object
read_hole fetch end cursor s =
    if ltb cursor s.off then read_from_object fetch cursor (min64 s.off end) else ok []

abbrev pub past_hole : ℕ → ℕ → WriteRange → ℕ
past_hole end cursor s = if ltb cursor s.off then min64 s.off end else cursor

-- The part of the segment in the range, and the cursor behind it.
abbrev pub cached_part : ℕ → ℕ → WriteRange → List ℕ
cached_part end cursor s =
    let from = max64 cursor s.off in
    let to = min64 s.end end in
    if ltb from to then slice (from - s.off) (to - s.off) s.bytes else []

abbrev pub past_cached : ℕ → ℕ → WriteRange → ℕ
past_cached end cursor s =
    let to = min64 s.end end in if ltb (max64 cursor s.off) to then to else cursor

-- What is left behind the last segment.
unfoldable pub read_tail : (ℕ → ℕ → Fetched) → ℕ → ℕ → Result (List ℕ)
unfolding read_from_object
read_tail fetch cursor end = if ltb cursor end then read_from_object fetch cursor end else ok []

-- The loop of `readInner` over the segments, and its end.
unfoldable pub read_segments : (ℕ → ℕ → Fetched) → ℕ → ℕ → List WriteRange → Result (List ℕ)
unfolding read_hole read_tail
read_segments fetch cursor end [] = read_tail fetch cursor end
read_segments fetch cursor end (s ∷ rest) =
    let at = past_hole end cursor s in
    let skipped = read_segments fetch cursor end rest in
    let go_on = (do
      gap ← read_hole fetch end cursor s
      later ← read_segments fetch (past_cached end at s) end rest
      ok (gap ++ (cached_part end at s ++ later))) in
    if leb s.end cursor
    then skipped
    else if leb end s.off
    then read_tail fetch cursor end
    else go_on

-- The handle in `Write` once the bytes are in the cache, and the size of the cache.
unfoldable pub cache_write : Bool → RemoteHandle → ℕ → List ℕ → RemoteHandle × WriteBackCache × ℕ
cache_write tie h offset bytes =
    let (c, total) = apply_write tie offset bytes (cache_or_new h.write_cache) in
    let reached = offset + length bytes in
    (
      record h { write_cache = some c; size = if ltb h.size reached then reached else h.size },
      c,
      total,
    )

abbrev pub least : Option ℕ → ℕ → ℕ
least none len = len
least (some t) len = if ltb len t then len else t

-- `Truncate`; the old bytes are good only below the least length it was given.
unfoldable pub truncate : RemoteHandle → ℕ → Result (Unit {0}) × RemoteHandle
truncate h len =
    let at = least h.truncate_at len in
    if h.is_dir then (err internal, h) else (
      ok tt,
      record h {
        size = len;
        truncate_at = some at;
        write_cache = some (cache_or_new h.write_cache);
      },
    )

-- The size that `Stat` gives for a file.
unfoldable pub stat_size : Tables → RemoteHandle → Result ℤ
stat_size t h = first (t.file_size h.file_id) >>= λ size. elim h.write_cache [
  | none ↦ ok size
  | some c ↦ ok (if leb_ℤ (pos h.size) size then size else pos h.size)
]

-- Behind a `FlushToStorage`: on success the truncation is in the object.
abbrev pub flushed_handle :
    {S : Type 0}
    → RemoteHandle
    → Result (Unit {0}) × S × WriteBackCache
    → Result (Unit {0}) × RemoteHandle × S
flushed_handle h (err e, s, c) = (err e, record h { write_cache = some c }, s)
flushed_handle h (ok done, s, c) = (ok tt, record h { write_cache = some c; truncate_at = none }, s)

-- What `Write` returns: uint32(len(data)).
abbrev pub written :
    {S : Type 0} → List ℕ → Result (Unit {0}) × RemoteHandle × S → Result ℕ × RemoteHandle × S
written bytes (err e, h, s) = (err e, h, s)
written bytes (ok done, h, s) = (ok (length bytes % 2 ^ 32), h, s)

-- The metadata is brought in step where the flush succeeds.
abbrev pub synced :
    {S : Type 0}
    → Tables
    → Result (Unit {0}) × RemoteHandle × S
    → Result (Unit {0}) × RemoteHandle × S × Tables
synced t (err e, h, s) = (err e, h, s, t)
synced t (ok done, h, s) = (ok tt, h, s, sync_file_meta t h)

module _ {S : Type 0} (st : ObjectStorage S) where
  abbrev pub fetch_of : S → RemoteHandle → ℕ → ℕ → Fetched
  fetch_of s h from to = st.get_range s (bucket_encoder h.bucket_id) h.object_key from to

  -- `readInner`
  unfoldable pub read_inner : S → RemoteHandle → ℕ → ℕ → Result (List ℕ)
  unfolding read_segments
  read_inner s h offset len =
      let end = min64 (offset + len) h.size in
      if h.is_dir
      then err internal
      else if leb h.size offset
      then ok []
      else read_segments (fetch_of s h) offset end (segments_of h.write_cache) >>= λ out.
          ok (take len out)

  -- The checked flush that `Write`, `Flush` and `Close` share: the quota first.
  unfoldable pub quota_then_flush :
      Tables → S → RemoteHandle → WriteBackCache → Result (Unit {0}) × RemoteHandle × S
  unfolding flush_to_storage
  quota_then_flush t s h c = elim (check_write_quota t h) [
    | err e ↦ (err e, h, s)
    | ok admitted ↦
        flushed_handle h
          (flush_to_storage st (bucket_encoder h.bucket_id) h.object_key (flush_spec h) s c)
  ]

  -- `Write`, with what it finds by the handle's id.
  unfoldable pub write : Bool → Tables → S → RemoteHandle → ℕ → List ℕ → Result ℕ × RemoteHandle × S
  unfolding cache_write quota_then_flush
  write tie t s h offset bytes =
      let (h1, c, total) = cache_write tie h offset bytes in
      if h.is_dir
      then (err internal, h, s)
      else if h.readonly
      then (err forbidden, h, s)
      else if leb c.max_size total
      then written bytes (quota_then_flush t s h1 c)
      else (ok (length bytes % 2 ^ 32), h1, s)

  -- `Flush`, behind its test for a cache.
  unfoldable pub flush_cached :
      Tables
      → S
      → RemoteHandle
      → Option WriteBackCache
      → Result (Unit {0}) × RemoteHandle × S × Tables
  unfolding quota_then_flush
  flush_cached t s h none = (ok tt, h, s, t)
  flush_cached t s h (some c) =
      if h.is_dir || not (flush_spec h).dirty
      then (ok tt, h, s, t)
      else synced t (quota_then_flush t s h c)

  -- `Flush`
  unfoldable pub flush : Tables → S → RemoteHandle → Result (Unit {0}) × RemoteHandle × S × Tables
  unfolding flush_cached
  flush t s h = flush_cached t s h h.write_cache
