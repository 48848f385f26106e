-- ===== src/Smb/WriteCache/Flush.antt =====
-- smb_server/go/write_cache.go: `FlushToStorage`, which puts the object together from the old
-- object and the table, and uploads it.
pub mod Fill
pub mod Assemble
pub mod Upload
mod Tests
use Prim.Native.String.{String}
use orbit_cloud.Base.{
  ℕ, ◌+◌, ◌-◌, ◌≡◌, Bool, true, false, not, Option, none, some, List, [], ◌∷◌, ◌++◌, ltb, leb,
  if◌then◌else◌, length, take, replicate,
}
use orbit_cloud.Base.Errors.{Error, Result, ok, err, internal, ◌>>=◌}
use orbit_cloud.Storage.{Fetched, found, missing, failed, ObjectStorage}
use orbit_cloud.Smb.WriteCache.{WriteRange, WriteBackCache, min64, slice}

-- `writeSpec`; `truncateAt` -1 is `none`.
pub record WriteSpec : Type 0 where
  pub size : ℕ
  pub truncate_at : Option ℕ
  pub segments : List WriteRange
  pub dirty : Bool

abbrev pub zeros : ℕ → List ℕ
zeros n = replicate n 0

-- What `copyFromObject` appends to `buf` once the range [from, rdTo) is read: `io.CopyN` gives
-- at most rdTo-from bytes, and the function returns where the object ends early.
unfoldable pub copied : ℕ → ℕ → ℕ → Fetched → Result (List ℕ)
copied from to rd_to missing = ok (zeros (to - from))
copied from to rd_to failed = err internal
copied from to rd_to (found bytes) =
    let got = take (rd_to - from) bytes in
    if ltb (length got) (rd_to - from)
    then ok (got ++ zeros (rd_to - from - length got))
    else if ltb rd_to to
    then ok (got ++ zeros (to - rd_to))
    else ok got

-- `copyFromObject`, where `fetch` is `GetRange` of the object with both ends included.
unfoldable pub copy_from_object : (ℕ → ℕ → Fetched) → ℕ → ℕ → ℕ → Result (List ℕ)
unfolding copied
copy_from_object fetch from to limit =
    let rd_to = min64 to limit in
    if leb to from
    then ok []
    else if ltb from rd_to
    then copied from to rd_to (fetch from (rd_to - 1))
    else if ltb rd_to to
    then ok (zeros (to - rd_to))
    else ok []

-- The end of `FlushToStorage`'s assembly, behind the last segment used.
unfoldable pub fill_tail : (ℕ → ℕ → Fetched) → ℕ → ℕ → ℕ → Result (List ℕ)
unfolding copy_from_object
fill_tail fetch total limit cursor =
    if ltb cursor total then copy_from_object fetch cursor total limit else ok []

-- The gap before a segment.
unfoldable pub fill_gap : (ℕ → ℕ → Fetched) → ℕ → ℕ → ℕ → WriteRange → Result (List ℕ)
unfolding copy_from_object
fill_gap fetch total limit cursor s =
    if ltb cursor s.off then copy_from_object fetch cursor (min64 s.off total) limit else ok []

abbrev pub past_gap : ℕ → ℕ → WriteRange → ℕ
past_gap total cursor s = if ltb cursor s.off then min64 s.off total else cursor

-- The segment's own bytes, and the cursor behind them.
abbrev pub segment_part : ℕ → ℕ → WriteRange → List ℕ
segment_part total cursor s =
    let to = min64 s.end total in
    if ltb cursor to then slice (cursor - s.off) (to - s.off) s.bytes else []

abbrev pub past_segment : ℕ → ℕ → WriteRange → ℕ
past_segment total cursor s = let to = min64 s.end total in if ltb cursor to then to else cursor

-- The loop of `FlushToStorage` over the segments, and its end.
unfoldable pub assemble : (ℕ → ℕ → Fetched) → ℕ → ℕ → ℕ → List WriteRange → Result (List ℕ)
unfolding fill_tail fill_gap
assemble fetch total limit cursor [] = fill_tail fetch total limit cursor
assemble fetch total limit cursor (s ∷ rest) =
    let at = past_gap total cursor s in
    let go_on = (do
      gap ← fill_gap fetch total limit cursor s
      later ← assemble fetch total limit (past_segment total at s) rest
      ok (gap ++ (segment_part total at s ++ later))) in
    if leb total s.off then fill_tail fetch total limit cursor else go_on

abbrev pub object_limit : WriteSpec → ℕ
object_limit spec = elim spec.truncate_at [
  | none ↦ spec.size
  | some t ↦ if ltb t spec.size then t else spec.size
]

-- `FlushToStorage`: its error, the storage and the cache after it.
module _ {S : Type 0} (st : ObjectStorage S) where
  -- Behind the call of `Put`.
  unfoldable pub after_put : S → WriteBackCache → Option S → Result (Unit {0}) × S × WriteBackCache
  after_put s c none = (err internal, s, c)
  after_put s c (some s') = (ok tt, s', record c { ranges = []; dirty = false })

  unfoldable pub upload :
      String
      → String
      → S
      → WriteBackCache
      → Result (List ℕ)
      → Result (Unit {0}) × S × WriteBackCache
  unfolding after_put
  upload bucket key s c (err e) = (err e, s, c)
  upload bucket key s c (ok bytes) = after_put s c (st.put s bucket key bytes)

  unfoldable pub flush_to_storage :
      String → String → WriteSpec → S → WriteBackCache → Result (Unit {0}) × S × WriteBackCache
  unfolding assemble upload
  flush_to_storage bucket key spec s c =
      let fetch = λ (from to : ℕ). st.get_range s bucket key from to in
      if not spec.dirty
      then (ok tt, s, c)
      else upload bucket key s c (assemble fetch spec.size (object_limit spec) 0 spec.segments)
