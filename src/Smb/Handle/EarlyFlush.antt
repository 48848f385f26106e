-- ===== src/Smb/Handle/EarlyFlush.antt =====
-- `Write` flushes a full cache at once, and does not book the size that it stores.
use mathlib.Core.Path.{subst}
use orbit_cloud.Base.{
  ℕ, ◌-◌, ◌%◌, ◌^◌, ◌≡◌, ◌≢◌, refl, sym, ◌∙◌, ap, inl, inr, Bool, true, false, not, ◌||◌, Option,
  none, some, List, leb, if◌then◌else◌, length, arith,
}
use orbit_cloud.Base.Errors.{Error, Result, Result-cases, ok, err, internal, forbidden}
use orbit_cloud.BucketCoder.{bucket_encoder}
use orbit_cloud.Storage.{ObjectStorage}
use orbit_cloud.Base.Int.{pos}
use orbit_cloud.Quota.{Tables}
use orbit_cloud.Smb.WriteCache.{WriteBackCache, apply_write}
use orbit_cloud.Smb.WriteCache.Segments.{Apart}
use orbit_cloud.Smb.WriteCache.Flush.{object_limit, flush_to_storage}
use orbit_cloud.Smb.WriteCache.Flush.Fill.{Reaches}
use orbit_cloud.Smb.WriteCache.Flush.Assemble.{GapsBegin}
use orbit_cloud.Smb.WriteCache.Flush.Upload.{flush_uploads}
use orbit_cloud.Smb.Handle.{
  RemoteHandle, flush_spec, cache_write, check_write_quota, quota_then_flush, written, write, flush,
  is_set,
}
use orbit_cloud.Smb.Handle.Flushing.{quota_refuses, quota_admits, flushed_handle-ok, flush_idle}

written-ok :
    {S : Type 0} (bytes : List ℕ) (r : Result (Unit {0}) × RemoteHandle × S) {n : ℕ}
    {h' : RemoteHandle} {s' : S}
    → written bytes r ≡ (ok n, h', s')
    → r ≡ (ok tt, h', s')
written-ok bytes (err x, h1, s1) q = absurd (ground arith)
written-ok bytes (ok done, h1, s1) q = ap (λ z. (ok tt, z.1, z.2)) q

dirty-cache_write :
    (tie : Bool) (h : RemoteHandle) (offset : ℕ) (bytes : List ℕ)
    → (flush_spec (cache_write tie h offset bytes).0).dirty ≡ true
unfolding cache_write flush_spec apply_write
dirty-cache_write tie h offset bytes = by_truncation h.truncate_at
  where
    by_truncation : (o : Option ℕ) → (is_set o || true) ≡ true
    by_truncation none = refl
    by_truncation (some n) = refl

not_refused :
    {S : Type 0} (d r full : Bool) (e e' : Error) (h : RemoteHandle) (s : S)
    (w : Result ℕ × RemoteHandle × S) {h' : RemoteHandle} {s' : S} {n : ℕ}
    {z : Result ℕ × RemoteHandle × S}
    → (if d then (err e, h, s) else if r then (err e', h, s) else if full then z else w)
      ≡ (ok n, h', s')
    → full ≡ true
    → z ≡ (ok n, h', s')
not_refused true r full e e' h s w q f = absurd (ground arith)
not_refused false true full e e' h s w q f = absurd (ground arith)
not_refused false false true e e' h s w q f = q
not_refused false false false e e' h s w q f = absurd (ground arith)

minus_none : (k : ℕ) → k - 0 ≡ k
minus_none k = omega arith

after_flush : RemoteHandle → WriteBackCache → RemoteHandle
after_flush h c = record h { write_cache = some c; truncate_at = none }

idle_after :
    (h : RemoteHandle) (c : WriteBackCache)
    → c.dirty ≡ false
    → (h.is_dir || not (flush_spec (after_flush h c)).dirty) ≡ true
unfolding flush_spec after_flush
idle_after h c clean = by_dir h.is_dir c.dirty clean
  where
    by_dir : (d e : Bool) → e ≡ false → (d || not e) ≡ true
    by_dir true e q = refl
    by_dir false e q = ap not q

module _ {S : Type 0} (st : ObjectStorage S) (tie : Bool) (t : Tables) (s : S) (h : RemoteHandle)
    (offset : ℕ) (bytes : List ℕ) where
  write_full :
      {n : ℕ} {h' : RemoteHandle} {s' : S}
      → leb (cache_write tie h offset bytes).1.max_size (cache_write tie h offset bytes).2 ≡ true
      → write st tie t s h offset bytes ≡ (ok n, h', s')
      → quota_then_flush st t s
          (cache_write tie h offset bytes).0
          (cache_write tie h offset bytes).1
        ≡ (ok tt, h', s')
  unfolding write
  write_full {n} {h'} {s'} full q =
      let (h1, c, total) = cache_write tie h offset bytes in
      written-ok bytes (quota_then_flush st t s h1 c) (
        not_refused h.is_dir h.readonly (leb c.max_size total) internal forbidden h s
          (ok (length bytes % 2 ^ 32), h1, s) q full)

  -- Once a write that fills the cache has stored the object, a flush of the handle does nothing and
  -- leaves the tables: where the file's row had another size than the handle has behind the write,
  -- it still has another size than the object. The segments of the cache lie apart, the old object
  -- holds what lies below the truncation point, and every gap begins there or below it.
  pub flush-write_full :
      {n : ℕ} {h' : RemoteHandle} {s' : S}
      → leb (cache_write tie h offset bytes).1.max_size (cache_write tie h offset bytes).2 ≡ true
      → Apart (flush_spec (cache_write tie h offset bytes).0).segments
      → Reaches
          (st.object s (bucket_encoder h.bucket_id) h.object_key)
          (object_limit (flush_spec (cache_write tie h offset bytes).0))
          (flush_spec (cache_write tie h offset bytes).0).size
      → GapsBegin
          (object_limit (flush_spec (cache_write tie h offset bytes).0))
          (flush_spec (cache_write tie h offset bytes).0).size
          0
          (flush_spec (cache_write tie h offset bytes).0).segments
      → t.file_size h.file_id ≢ some (pos (cache_write tie h offset bytes).0.size)
      → write st tie t s h offset bytes ≡ (ok n, h', s')
      → (out : List ℕ) × (st.object s' (bucket_encoder h.bucket_id) h.object_key ≡ some out)
        × (flush st t s' h' ≡ (ok tt, h', s', t))
        × (t.file_size h.file_id ≢ some (pos (length out)))
  unfolding after_flush cache_write flush_spec
  flush-write_full {n} {h'} {s'} full a reaches g differs q =
      let (h1, c, total) = cache_write tie h offset bytes in
      let r = write_full full q in
      elim (Result-cases (check_write_quota t h1)) [
        | inr (x, p) ↦ let both = sym (quota_refuses st t s h1 c p) ∙ r in absurd (ground arith)
        | inl (done, p) ↦
            let ran =
              flush_to_storage st (bucket_encoder h1.bucket_id) h1.object_key (flush_spec h1) s c in
            let (c', e', k') =
              flushed_handle-ok st t s h1 c ran (sym (quota_admits st t s h1 c p) ∙ r) in
            let (out, stored, is, empty, clean) =
              flush_uploads st (bucket_encoder h1.bucket_id) h1.object_key (flush_spec h1) s c
                (dirty-cache_write tie h offset bytes) a reaches g e' in
            let long : length out ≡ h1.size = is.0 ∙ minus_none h1.size in
            (
              out,
              stored,
              subst (λ x. flush st t s' x ≡ (ok tt, x, s', t)) k'
                  (flush_idle st t s' (after_flush h1 c') c' refl (idle_after h1 c' clean)),
              λ same. differs (same ∙ ap (λ l. some (pos l)) long),
            )
      ]
