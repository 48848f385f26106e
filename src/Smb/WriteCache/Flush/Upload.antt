-- ===== src/Smb/WriteCache/Flush/Upload.antt =====
-- `FlushToStorage` as a whole: what it uploads, what it keeps on an error, and that it succeeds
-- where the storage does.
use Prim.Native.String.{String}
use orbit_cloud.Base.{
  ℕ, ◌-◌, ◌≡◌, ◌≢◌, refl, inl, inr, Bool, true, false, Option, none, some, List, [], ◌∷◌,
  Bool-cases, arith,
}
use orbit_cloud.Base.Errors.{Error, Result, ok, err}
use orbit_cloud.Storage.{Fetched, failed, ObjectStorage}
use orbit_cloud.Smb.WriteCache.{WriteRange, WriteBackCache, min64}
use orbit_cloud.Smb.WriteCache.Segments.{Apart}
use orbit_cloud.Smb.WriteCache.Flush.{
  WriteSpec, copied, copy_from_object, fill_tail, fill_gap, past_gap, past_segment, assemble,
  object_limit, after_put, upload, flush_to_storage,
}
use orbit_cloud.Smb.WriteCache.Flush.Fill.{Reaches}
use orbit_cloud.Smb.WriteCache.Flush.Assemble.{GapsBegin, IsFlushed, assemble-IsFlushed}

abbrev is_ok : Result (List ℕ) → Bool
is_ok (ok out) = true
is_ok (err e) = false

is_ok-eq_ok : (r : Result (List ℕ)) → is_ok r ≡ true → (out : List ℕ) × (r ≡ ok out)
is_ok-eq_ok (ok out) h = (out, refl)
is_ok-eq_ok (err e) h = cc

is_ok-copied :
    (from to rd_to : ℕ) (fetched : Fetched)
    → fetched ≢ failed
    → is_ok (copied from to rd_to fetched) ≡ true
unfolding copied
is_ok-copied from to rd_to fetched h = ground arith

-- What holds of a storage that does not fail to read.
module _ (fetch : ℕ → ℕ → Fetched) (never : (a b : ℕ) → fetch a b ≢ failed) where
  is_ok-copy : (from to limit : ℕ) → is_ok (copy_from_object fetch from to limit) ≡ true
  unfolding copy_from_object
  is_ok-copy from to limit =
      let rd_to = min64 to limit in
      ground (arith, is_ok-copied from to rd_to (fetch from (rd_to - 1)) (never from (rd_to - 1)))

  is_ok-tail : (total limit cursor : ℕ) → is_ok (fill_tail fetch total limit cursor) ≡ true
  unfolding fill_tail
  is_ok-tail total limit cursor = ground (arith, is_ok-copy cursor total limit)

  is_ok-gap :
      (total limit cursor : ℕ) (s : WriteRange) → is_ok (fill_gap fetch total limit cursor s) ≡ true
  unfolding fill_gap
  is_ok-gap total limit cursor s = ground (arith, is_ok-copy cursor (min64 s.off total) limit)

  is_ok-assemble :
      (total limit cursor : ℕ) (rs : List WriteRange)
      → is_ok (assemble fetch total limit cursor rs) ≡ true
  unfolding assemble
  is_ok-assemble total limit cursor [] = is_ok-tail total limit cursor
  is_ok-assemble total limit cursor (s ∷ rs) =
      let at = past_gap total cursor s in
      ground (
        arith,
        is_ok-tail total limit cursor,
        is_ok-gap total limit cursor s,
        is_ok-assemble total limit (past_segment total at s) rs,
      )

module _ {S : Type 0} (st : ObjectStorage S) (bucket key : String) (s : S)
    (c : WriteBackCache) where
  after_put-ok :
      (o : Option S) {s' : S} {c' : WriteBackCache}
      → after_put st s c o ≡ (ok tt, s', c')
      → (o ≡ some s') × (c'.ranges ≡ []) × (c'.dirty ≡ false)
  unfolding after_put
  after_put-ok none e = ground arith
  after_put-ok (some t) e = ground arith

  upload-ok :
      (content : Result (List ℕ)) {s' : S} {c' : WriteBackCache}
      → upload st bucket key s c content ≡ (ok tt, s', c')
      → (out : List ℕ) × (content ≡ ok out)
        × (st.put s bucket key out ≡ some s')
        × (c'.ranges ≡ [])
        × (c'.dirty ≡ false)
  unfolding upload
  upload-ok (err x) e = ground arith
  upload-ok (ok out) e =
      let (p, q, r) = after_put-ok (st.put s bucket key out) e in (out, refl, p, q, r)

  after_put-err :
      (o : Option S) {x : Error} {s' : S} {c' : WriteBackCache}
      → after_put st s c o ≡ (err x, s', c')
      → (s' ≡ s) × (c' ≡ c)
  unfolding after_put
  after_put-err none e = ground arith
  after_put-err (some t) e = ground arith

  upload-err :
      (content : Result (List ℕ)) {x : Error} {s' : S} {c' : WriteBackCache}
      → upload st bucket key s c content ≡ (err x, s', c')
      → (s' ≡ s) × (c' ≡ c)
  unfolding upload
  upload-err (err x) e = ground arith
  upload-err (ok out) e = after_put-err (st.put s bucket key out) e

module _ {S : Type 0} (st : ObjectStorage S) (bucket key : String) (spec : WriteSpec) (s : S)
    (c : WriteBackCache) where
  -- After a flush that succeeds on a dirty snapshot the table is empty and clean; the stored
  -- object has the length of the snapshot, and at each position the byte of the snapshot's
  -- segments, else that of the old object below the truncation point, else 0. The segments lie
  -- apart, the old object holds what lies below the truncation point, and every gap begins there
  -- or below it.
  pub flush_uploads :
      {s' : S} {c' : WriteBackCache}
      → spec.dirty ≡ true
      → Apart spec.segments
      → Reaches (st.object s bucket key) (object_limit spec) spec.size
      → GapsBegin (object_limit spec) spec.size 0 spec.segments
      → flush_to_storage st bucket key spec s c ≡ (ok tt, s', c')
      → (out : List ℕ) × (st.object s' bucket key ≡ some out)
        × IsFlushed (st.object s bucket key) (object_limit spec) spec.size 0 spec.segments out
        × (c'.ranges ≡ [])
        × (c'.dirty ≡ false)
  unfolding flush_to_storage
  flush_uploads {s'} {c'} d a r g e =
      let fetch = λ (from to : ℕ). st.get_range s bucket key from to in
      let content = assemble fetch spec.size (object_limit spec) 0 spec.segments in
      let e' : upload st bucket key s c content ≡ (ok tt, s', c') = ground arith in
      let (out, built, put, empty, clean) = upload-ok st bucket key s c content e' in
      (
        out,
        st.put_stores s s' bucket key out put,
        assemble-IsFlushed (st.object s bucket key) fetch (object_limit spec) spec.size 0
            spec.segments out (λ a b. st.get_range_reads s bucket key a b) r g (omega arith) a
            built,
        empty,
        clean,
      )

  pub flush_cleans :
      {s' : S} {c' : WriteBackCache}
      → spec.dirty ≡ true
      → flush_to_storage st bucket key spec s c ≡ (ok tt, s', c')
      → c'.dirty ≡ false
  unfolding flush_to_storage
  flush_cleans {s'} {c'} d e =
      let fetch = λ (from to : ℕ). st.get_range s bucket key from to in
      let content = assemble fetch spec.size (object_limit spec) 0 spec.segments in
      let e' : upload st bucket key s c content ≡ (ok tt, s', c') = ground arith in
      let (out, built, put, empty, clean) = upload-ok st bucket key s c content e' in clean

  -- A flush that fails leaves the storage and the table as they were.
  pub flush_fails :
      {x : Error} {s' : S} {c' : WriteBackCache}
      → flush_to_storage st bucket key spec s c ≡ (err x, s', c')
      → (s' ≡ s) × (c' ≡ c)
  unfolding flush_to_storage
  flush_fails {x} {s'} {c'} e =
      let fetch = λ (from to : ℕ). st.get_range s bucket key from to in
      let content = assemble fetch spec.size (object_limit spec) 0 spec.segments in
      elim (Bool-cases spec.dirty) [
        | inl d ↦
            let e' : upload st bucket key s c content ≡ (err x, s', c') = ground arith in
            upload-err st bucket key s c content e'
        | inr d ↦ ground arith
      ]

  -- A flush succeeds where no read of the old object fails and every upload succeeds.
  pub flush_succeeds :
      ((a b : ℕ) → st.get_range s bucket key a b ≢ failed)
      → ((bytes : List ℕ) → (t : S) × (st.put s bucket key bytes ≡ some t))
      → (flush_to_storage st bucket key spec s c).0 ≡ ok tt
  unfolding flush_to_storage upload after_put
  flush_succeeds never put =
      let fetch = λ (from to : ℕ). st.get_range s bucket key from to in
      let content = assemble fetch spec.size (object_limit spec) 0 spec.segments in
      let (out, e) =
        is_ok-eq_ok content
          (is_ok-assemble fetch never spec.size (object_limit spec) 0 spec.segments) in
      let (t, stored) = put out in ground (arith, e, stored)
