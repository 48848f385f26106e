-- ===== src/Smb/Handle/Flushing.antt =====
-- The flush of a handle: the quota is asked first, an error keeps the bytes, a success stores the
-- object and books its size.
use mathlib.Core.Path.{subst}
use orbit_cloud.Base.{
  ◌&&◌, ℕ, ◌≡◌, refl, sym, ◌∙◌, ap, ◌⊎◌, inl, inr, true, false, not, ◌||◌, none, some, List, ◌==◌,
  Bool-cases, arith,
}
use orbit_cloud.Base.Errors.{Error, Result, Result-cases, ok, err, ◌>>=◌, bind-ok}
use orbit_cloud.Base.Int.{ℤ, pos, above, below, ◌+ℤ◌, leb_ℤ, ◌≤ℤ◌, parts-+ℤ, parts_eq}
use orbit_cloud.BucketCoder.{bucket_encoder}
use orbit_cloud.Storage.{ObjectStorage}
use orbit_cloud.Quota.{Tables, BucketRow, check_bucket_quota, check_user_quota}
use orbit_cloud.Quota.Booking.{check_bucket_quota_keeps}
use orbit_cloud.Smb.WriteCache.{WriteBackCache}
use orbit_cloud.Smb.WriteCache.Segments.{Apart}
use orbit_cloud.Smb.WriteCache.Flush.{object_limit, flush_to_storage}
use orbit_cloud.Smb.WriteCache.Flush.Fill.{Reaches}
use orbit_cloud.Smb.WriteCache.Flush.Assemble.{GapsBegin, IsFlushed}
use orbit_cloud.Smb.WriteCache.Flush.Upload.{flush_uploads, flush_fails}
use orbit_cloud.Smb.Handle.{
  RemoteHandle, flush_spec, growth, check_write_quota, sync_file_meta, book_growth, flushed_handle,
  quota_then_flush, synced, flush, flush_cached,
}

quota_asked :
    (t : Tables) (h : RemoteHandle) (old : ℤ)
    → t.file_size h.file_id ≡ some old
    → leb_ℤ (growth h old) (pos 0) ≡ false
    → check_write_quota t h ≡ (
        check_bucket_quota t h.bucket_id (growth h old) >>= λ bucket_admits.
        check_user_quota t h.user_id)
unfolding check_write_quota
quota_asked t h old f grows = rw (check_write_quota, f, grows) refl

-- The bucket's row once the growth is booked.
booked_row :
    (t : Tables) (h : RemoteHandle) (delta : ℤ) (b : BucketRow)
    → t.bucket h.bucket_id ≡ some b
    → (b' : BucketRow) × ((book_growth t h delta).bucket h.bucket_id ≡ some b')
      × ((b'.quota ≡ b.quota) × (b'.used_space ≡ b.used_space +ℤ delta))
unfolding book_growth
booked_row t h delta b r = elim (Bool-cases (leb_ℤ delta (pos 0) && leb_ℤ (pos 0) delta)) [
  | inl still ↦ (
    b,
    rw (book_growth, still) r,
    (
      refl,
      parts_eq b.used_space (b.used_space +ℤ delta) (
          let sum = parts-+ℤ b.used_space delta in
          let level : above delta ≡ below delta = ground arith in omega arith),
    ),
  )
  | inr moved ↦
      let same : (h.bucket_id == h.bucket_id) ≡ true = ground arith in
      (
        record b { used_space = b.used_space +ℤ delta },
        rw (book_growth, moved, same, r) refl,
        (refl, refl),
      )
]

bucket-sync :
    (t : Tables) (h : RemoteHandle) (old : ℤ)
    → t.file_size h.file_id ≡ some old
    → (sync_file_meta t h).bucket h.bucket_id ≡ (book_growth t h (growth h old)).bucket h.bucket_id
unfolding sync_file_meta
bucket-sync t h old f = rw (sync_file_meta, f) refl

-- Where the quota check admits a file's growth, the bucket is within its quota once the growth
-- is booked, if it has one.
pub sync_file_meta_within_quota :
    (t : Tables) (h : RemoteHandle) (old : ℤ) (b : BucketRow)
    → t.file_size h.file_id ≡ some old
    → t.bucket h.bucket_id ≡ some b
    → check_write_quota t h ≡ ok tt
    → (b' : BucketRow) × ((sync_file_meta t h).bucket h.bucket_id ≡ some b')
      × (b'.used_space ≡ b.used_space +ℤ growth h old)
      × ((growth h old ≤ℤ pos 0) ⊎ ((b.quota ≤ℤ pos 0) ⊎ (b'.used_space ≤ℤ b.quota)))
unfolding sync_file_meta check_write_quota
sync_file_meta_within_quota t h old b f r e =
    let (b', row, used) = booked_row t h (growth h old) b r in
    let (limit, total) = used in
    (
      b',
      bucket-sync t h old f ∙ row,
      total,
      elim (Bool-cases (leb_ℤ (growth h old) (pos 0))) [
        | inl shrinks ↦ inl (ground arith)
        | inr grows ↦
            let admitted : check_bucket_quota t h.bucket_id (growth h old) ≡ ok tt =
              (bind-ok (check_bucket_quota t h.bucket_id (growth h old)) _
                (sym (quota_asked t h old f grows) ∙ e)).1 in
            elim (check_bucket_quota_keeps t h.bucket_id (growth h old) b r admitted) [
              | inl none_added ↦ inl none_added
              | inr (inl unlimited) ↦ inr (inl unlimited)
              | inr (inr within) ↦ inr (inr (subst (λ u. u ≤ℤ b.quota) (sym total) within))
            ]
      ],
    )

pub file_size-sync :
    (t : Tables) (h : RemoteHandle) (old : ℤ)
    → t.file_size h.file_id ≡ some old
    → (sync_file_meta t h).file_size h.file_id ≡ some (pos h.size)
unfolding sync_file_meta
file_size-sync t h old f =
    let same : (h.file_id == h.file_id) ≡ true = ground arith in
    rw (sync_file_meta, f, same, f) refl

module _ {S : Type 0} (st : ObjectStorage S) (t : Tables) (s : S) (h : RemoteHandle)
    (c : WriteBackCache) where
  pub quota_refuses :
      {e : Error} → check_write_quota t h ≡ err e → quota_then_flush st t s h c ≡ (err e, h, s)
  unfolding quota_then_flush
  quota_refuses p = rw (quota_then_flush, p) refl

  pub quota_admits :
      check_write_quota t h ≡ ok tt
      → quota_then_flush st t s h c
        ≡ flushed_handle h
            (flush_to_storage st (bucket_encoder h.bucket_id) h.object_key (flush_spec h) s c)
  unfolding quota_then_flush
  quota_admits p = rw (quota_then_flush, p) refl

  flushed_handle-err :
      (r : Result (Unit {0}) × S × WriteBackCache) {e : Error} {h' : RemoteHandle} {s' : S}
      → flushed_handle h r ≡ (err e, h', s')
      → (c' : WriteBackCache) × (r ≡ (err e, s', c')) × (record h { write_cache = some c' } ≡ h')
  flushed_handle-err (err x, s1, c1) q = (c1, ground arith, ap (λ z. z.1) q)
  flushed_handle-err (ok done, s1, c1) q = absurd (ground arith)

  pub flushed_handle-ok :
      (r : Result (Unit {0}) × S × WriteBackCache) {h' : RemoteHandle} {s' : S}
      → flushed_handle h r ≡ (ok tt, h', s')
      → (c' : WriteBackCache) × (r ≡ (ok tt, s', c'))
        × (record h { write_cache = some c'; truncate_at = none } ≡ h')
  flushed_handle-ok (err x, s1, c1) q = absurd (ground arith)
  flushed_handle-ok (ok done, s1, c1) q = (c1, ground arith, ap (λ z. z.1) q)

  quota_then_flush-err :
      {e : Error} {h' : RemoteHandle} {s' : S}
      → h.write_cache ≡ some c
      → quota_then_flush st t s h c ≡ (err e, h', s')
      → (s' ≡ s) × (h' ≡ h)
  quota_then_flush-err {e} {h'} {s'} w q = elim (Result-cases (check_write_quota t h)) [
    | inr (x, p) ↦ let both = sym q ∙ quota_refuses p in (ap (λ z. z.2) both, ap (λ z. z.1) both)
    | inl (done, p) ↦
        let r = flush_to_storage st (bucket_encoder h.bucket_id) h.object_key (flush_spec h) s c in
        let (c', e', k) = flushed_handle-err r (sym (quota_admits p) ∙ q) in
        let (same, kept) =
          flush_fails st (bucket_encoder h.bucket_id) h.object_key (flush_spec h) s c e' in
        (
          same,
          sym k
              ∙ ap (λ x. record h { write_cache = some x }) kept
              ∙ ap (λ x. record h { write_cache = x }) (sym w),
        )
  ]

  pub flush_idle :
      h.write_cache ≡ some c
      → (h.is_dir || not (flush_spec h).dirty) ≡ true
      → flush st t s h ≡ (ok tt, h, s, t)
  unfolding flush flush_cached
  flush_idle w b = ap (flush_cached st t s h) w ∙ rw b refl

  flush_asked :
      h.write_cache ≡ some c
      → (h.is_dir || not (flush_spec h).dirty) ≡ false
      → flush st t s h ≡ synced t (quota_then_flush st t s h c)
  unfolding flush flush_cached
  flush_asked w b = ap (flush_cached st t s h) w ∙ rw b refl

  synced-err :
      (r : Result (Unit {0}) × RemoteHandle × S) {e : Error} {h' : RemoteHandle} {s' : S}
      {t' : Tables}
      → synced t r ≡ (err e, h', s', t')
      → (r ≡ (err e, h', s')) × (t' ≡ t)
  synced-err (err x, h1, s1) q = (ap (λ z. (z.0, z.1, z.2)) q, sym (ap (λ z. z.3) q))
  synced-err (ok done, h1, s1) q = absurd (ground arith)

  synced-ok :
      (r : Result (Unit {0}) × RemoteHandle × S) {h' : RemoteHandle} {s' : S} {t' : Tables}
      → synced t r ≡ (ok tt, h', s', t')
      → (r ≡ (ok tt, h', s')) × (t' ≡ sync_file_meta t h')
  synced-ok (err x, h1, s1) q = absurd (ground arith)
  synced-ok (ok done, h1, s1) q =
      (ap (λ z. (z.0, z.1, z.2)) q, sym (ap (λ z. z.3) q) ∙ ap (λ z. sync_file_meta t z.1) q)

  -- A flush that fails, be it for the quota, for a read or for the upload, leaves the storage,
  -- the tables and the handle with its cached bytes as they were.
  pub flush_keeps :
      {e : Error} {h' : RemoteHandle} {s' : S} {t' : Tables}
      → h.write_cache ≡ some c
      → flush st t s h ≡ (err e, h', s', t')
      → (s' ≡ s) × (h' ≡ h) × (t' ≡ t)
  flush_keeps {e} {h'} {s'} {t'} w q = elim (Bool-cases (h.is_dir || not (flush_spec h).dirty)) [
    | inl b ↦ let both = sym (flush_idle w b) ∙ q in absurd (ground arith)
    | inr b ↦
        let (r, k) = synced-err (quota_then_flush st t s h c) (sym (flush_asked w b) ∙ q) in
        let (same, kept) = quota_then_flush-err w r in (same, kept, k)
  ]

  -- A flush that succeeds on a dirty handle of a file stores an object of the handle's size: at
  -- each position the byte of the cache, else that of the old object below the truncation point,
  -- else 0. The file's row has that size, and the truncation is done with. The segments of the
  -- cache lie apart, the old object holds what lies below the truncation point, and every gap
  -- begins there or below it.
  pub flush_stores :
      {h' : RemoteHandle} {s' : S} {t' : Tables} {old : ℤ}
      → h.write_cache ≡ some c
      → h.is_dir ≡ false
      → (flush_spec h).dirty ≡ true
      → Apart (flush_spec h).segments
      → Reaches
          (st.object s (bucket_encoder h.bucket_id) h.object_key)
          (object_limit (flush_spec h))
          (flush_spec h).size
      → GapsBegin (object_limit (flush_spec h)) (flush_spec h).size 0 (flush_spec h).segments
      → t.file_size h.file_id ≡ some old
      → flush st t s h ≡ (ok tt, h', s', t')
      → (out : List ℕ) × (st.object s' (bucket_encoder h.bucket_id) h.object_key ≡ some out)
        × IsFlushed
            (st.object s (bucket_encoder h.bucket_id) h.object_key)
            (object_limit (flush_spec h))
            (flush_spec h).size
            0
            (flush_spec h).segments
            out
        × (t'.file_size h.file_id ≡ some (pos h.size))
        × (h'.truncate_at ≡ none)
  flush_stores {h'} {s'} {t'} {old} w d dirty a r g f q =
      let b : (h.is_dir || not (flush_spec h).dirty) ≡ false =
        ap (λ x. x || not (flush_spec h).dirty) d ∙ ap not dirty in
      let (r1, k) = synced-ok (quota_then_flush st t s h c) (sym (flush_asked w b) ∙ q) in
      elim (Result-cases (check_write_quota t h)) [
        | inr (x, p) ↦ let both = sym (quota_refuses p) ∙ r1 in absurd (ground arith)
        | inl (done, p) ↦
            let ran =
              flush_to_storage st (bucket_encoder h.bucket_id) h.object_key (flush_spec h) s c in
            let (c', e', k') = flushed_handle-ok ran (sym (quota_admits p) ∙ r1) in
            let (out, stored, is, empty, clean) =
              flush_uploads st (bucket_encoder h.bucket_id) h.object_key (flush_spec h) s c dirty a
                r g e' in
            (
              out,
              stored,
              is,
              ap (λ x. x.file_size h.file_id) (k ∙ ap (sync_file_meta t) (sym k'))
                  ∙ file_size-sync t (record h { write_cache = some c'; truncate_at = none }) old f,
              sym (ap (λ x. x.truncate_at) k'),
            )
      ]
