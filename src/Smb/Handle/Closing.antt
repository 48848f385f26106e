-- ===== src/Smb/Handle/Closing.antt =====
-- `Close` of smb_server/go/file_dir.go for a handle that is already out of the table: its last
-- flush, and what is cleaned up where the quota refuses it. The deletion on close, an `Unlink`, is
-- not modelled.
use orbit_cloud.Base.{
  ℕ, ◌≡◌, refl, sym, ◌∙◌, ap, inl, inr, Bool, true, false, ◌&&◌, Option, none, some, if◌then◌else◌,
  Bool-cases, ◌==◌, arith,
}
use orbit_cloud.Base.Errors.{Error, Result, Result-cases, ok, err}
use orbit_cloud.Base.Int.{ℤ, pos, leb_ℤ}
use orbit_cloud.BucketCoder.{bucket_encoder}
use orbit_cloud.Storage.{ObjectStorage}
use orbit_cloud.Quota.{Tables}
use orbit_cloud.Smb.WriteCache.{WriteBackCache}
use orbit_cloud.Smb.WriteCache.Flush.{flush_to_storage}
use orbit_cloud.Smb.Handle.{RemoteHandle, flush_spec, check_write_quota, sync_file_meta}
use orbit_cloud.Smb.Handle.Flushing.{file_size-sync}

-- FileSize == 0
abbrev is_empty : Option ℤ → Bool
is_empty none = false
is_empty (some size) = leb_ℤ size (pos 0) && leb_ℤ (pos 0) size

-- The rows but for that of the file.
abbrev without_file : ℕ → Tables → Tables
without_file id t = record t { file_size = λ i. if i == id then none else t.file_size i }

-- The metadata is brought in step where the flush succeeds.
abbrev settled :
    {S : Type 0}
    → Tables
    → RemoteHandle
    → Result (Unit {0}) × S × WriteBackCache
    → Result (Unit {0}) × S × Tables
settled t h (err e, s, c) = (err e, s, t)
settled t h (ok done, s, c) = (ok tt, s, sync_file_meta t h)

module _ {S : Type 0} (st : ObjectStorage S) where
  -- The deletion of an object, where an error is logged and no more.
  abbrev delete_logged : S → RemoteHandle → S
  delete_logged s h = elim (st.delete s (bucket_encoder h.bucket_id) h.object_key) [
    | none ↦ s
    | some s' ↦ s'
  ]

  -- A file that was never stored leaves neither row nor object where the quota refuses it.
  unfoldable pub clean_ghost : Tables → S → RemoteHandle → S × Tables
  clean_ghost t s h =
      if is_empty (t.file_size h.file_id)
      then (delete_logged s h, without_file h.file_id t)
      else (s, t)

  -- The last flush, by the answer of the quota.
  unfoldable pub close_by_quota :
      Tables
      → S
      → RemoteHandle
      → WriteBackCache
      → Result (Unit {0})
      → Result (Unit {0}) × S × Tables
  unfolding clean_ghost
  close_by_quota t s h c (err e) = let (s', t') = clean_ghost t s h in (err e, s', t')
  close_by_quota t s h c (ok admitted) =
      settled t h (flush_to_storage st (bucket_encoder h.bucket_id) h.object_key (flush_spec h) s c)

  -- `Close` for a handle with a cache.
  unfoldable pub close_cached :
      Tables → S → RemoteHandle → WriteBackCache → Result (Unit {0}) × S × Tables
  unfolding close_by_quota
  close_cached t s h c =
      if (flush_spec h).dirty
      then close_by_quota t s h c (check_write_quota t h)
      else (ok tt, s, sync_file_meta t h)

  unfoldable pub close_by_cache :
      Tables → S → RemoteHandle → Option WriteBackCache → Result (Unit {0}) × S × Tables
  unfolding close_cached
  close_by_cache t s h none = (ok tt, s, t)
  close_by_cache t s h (some c) = if h.is_dir then (ok tt, s, t) else close_cached t s h c

  -- `Close`, where the file is not to be deleted with it.
  unfoldable pub close : Tables → S → RemoteHandle → Result (Unit {0}) × S × Tables
  unfolding close_by_cache
  close t s h = close_by_cache t s h h.write_cache

module _ {S : Type 0} (st : ObjectStorage S) (t : Tables) (s : S) (h : RemoteHandle)
    (c : WriteBackCache) where
  settled-ok :
      (r : Result (Unit {0}) × S × WriteBackCache) {s' : S} {t' : Tables}
      → settled t h r ≡ (ok tt, s', t')
      → t' ≡ sync_file_meta t h
  settled-ok (err e, s1, c1) q = absurd (ground arith)
  settled-ok (ok done, s1, c1) q = sym (ap (λ z. z.2) q)

  close_clean :
      (flush_spec h).dirty ≡ false → close_cached st t s h c ≡ (ok tt, s, sync_file_meta t h)
  unfolding close_cached
  close_clean d = rw (close_cached, d) refl

  dirty_close :
      (flush_spec h).dirty ≡ true
      → close_cached st t s h c ≡ close_by_quota st t s h c (check_write_quota t h)
  unfolding close_cached
  dirty_close d =
      ap
        (λ b.
          if b
          then close_by_quota st t s h c (check_write_quota t h)
          else (ok tt, s, sync_file_meta t h))
        d

  close_refused :
      {e : Error}
      → (flush_spec h).dirty ≡ true
      → check_write_quota t h ≡ err e
      → close_cached st t s h c ≡ (err e, (clean_ghost st t s h).0, (clean_ghost st t s h).1)
  unfolding close_by_quota
  close_refused d p = dirty_close d ∙ ap (close_by_quota st t s h c) p

  close_stored :
      (flush_spec h).dirty ≡ true
      → check_write_quota t h ≡ ok tt
      → close_cached st t s h c
        ≡ settled t h
            (flush_to_storage st (bucket_encoder h.bucket_id) h.object_key (flush_spec h) s c)
  unfolding close_by_quota
  close_stored d p = dirty_close d ∙ ap (close_by_quota st t s h c) p

  close_cached-ok :
      {s' : S} {t' : Tables} → close_cached st t s h c ≡ (ok tt, s', t') → t' ≡ sync_file_meta t h
  close_cached-ok {s'} {t'} q = elim (Bool-cases (flush_spec h).dirty) [
    | inr clean ↦ sym (ap (λ z. z.2) (sym (close_clean clean) ∙ q))
    | inl dirty ↦ elim (Result-cases (check_write_quota t h)) [
      | inr (e, p) ↦ let both = sym (close_refused dirty p) ∙ q in absurd (ground arith)
      | inl (done, p) ↦
          settled-ok
            (flush_to_storage st (bucket_encoder h.bucket_id) h.object_key (flush_spec h) s c)
            (sym (close_stored dirty p) ∙ q)
    ]
  ]

  -- A close that succeeds on a file with a cache leaves the size of the handle in the row of the
  -- file, also where an earlier flush has left it out.
  pub close_settles :
      {s' : S} {t' : Tables} {old : ℤ}
      → h.write_cache ≡ some c
      → h.is_dir ≡ false
      → t.file_size h.file_id ≡ some old
      → close st t s h ≡ (ok tt, s', t')
      → t'.file_size h.file_id ≡ some (pos h.size)
  unfolding close close_by_cache
  close_settles {s'} {t'} {old} w d f q =
      let by_dir : close_by_cache st t s h (some c) ≡ close_cached st t s h c =
        ap (λ b. if b then (ok tt, s, t) else close_cached st t s h c) d in
      let q' = sym by_dir ∙ (sym (ap (close_by_cache st t s h) w) ∙ q) in
      ap (λ x. x.file_size h.file_id) (close_cached-ok q') ∙ file_size-sync t h old f

  ghost_cleaned :
      {s1 : S}
      → t.file_size h.file_id ≡ some (pos 0)
      → st.delete s (bucket_encoder h.bucket_id) h.object_key ≡ some s1
      → clean_ghost st t s h ≡ (s1, without_file h.file_id t)
  unfolding clean_ghost
  ghost_cleaned f x =
      ap (λ b. if b then (delete_logged st s h, without_file h.file_id t) else (s, t))
        (ap is_empty f)
      ∙ ap (λ o. ((elim o [ none ↦ s | some s' ↦ s' ]), without_file h.file_id t)) x

  -- Where the quota refuses the last flush of a file that was never stored, its row is gone, and
  -- so is its object where the storage deletes it.
  pub close_leaves_no_ghost :
      {e : Error} {s1 : S}
      → h.write_cache ≡ some c
      → h.is_dir ≡ false
      → (flush_spec h).dirty ≡ true
      → check_write_quota t h ≡ err e
      → t.file_size h.file_id ≡ some (pos 0)
      → st.delete s (bucket_encoder h.bucket_id) h.object_key ≡ some s1
      → ((close st t s h).0 ≡ err e)
        × ((close st t s h).2.file_size h.file_id ≡ none)
        × (st.object (close st t s h).1 (bucket_encoder h.bucket_id) h.object_key ≡ none)
  unfolding close close_by_cache
  close_leaves_no_ghost {e} {s1} w d dirty p f x =
      let by_dir : close_by_cache st t s h (some c) ≡ close_cached st t s h c =
        ap (λ b. if b then (ok tt, s, t) else close_cached st t s h c) d in
      let cleaned = ghost_cleaned f x in
      let all = ap (close_by_cache st t s h) w ∙ (by_dir ∙ close_refused dirty p) in
      let same : (h.file_id == h.file_id) ≡ true = ground arith in
      (
        ap (λ z. z.0) all,
        ap (λ z. z.2.file_size h.file_id) all
            ∙ (ap (λ g. g.1.file_size h.file_id) cleaned
                ∙ ap (λ b. if b then none else t.file_size h.file_id) same),
        ap (λ z. st.object z.1 (bucket_encoder h.bucket_id) h.object_key) all
            ∙ (ap (λ g. st.object g.0 (bucket_encoder h.bucket_id) h.object_key) cleaned
                ∙ st.delete_removes s s1 (bucket_encoder h.bucket_id) h.object_key x),
      )
