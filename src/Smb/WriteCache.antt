-- ===== src/Smb/WriteCache.antt =====
-- smb_server/go/write_cache.go: the table of written segments, its merging, its reads.
-- A method that mutates the cache returns the new cache; the mutex makes each call one step.
-- Offsets are the non-negative `int64` values, bytes are numbers.
pub mod Segments
mod Order
pub mod Merge
pub mod Overlay
mod MergedBytes
pub mod LastWrite
pub mod Outcome
mod ReadSteps
pub mod Read
pub mod Flush
mod Tests
use orbit_cloud.Base.{
  ℕ, ◌+◌, ◌-◌, ◌*◌, ◌≤◌, ◌≡◌, Bool, true, false, Option, none, some, List, [], ◌∷◌, ◌++◌, ltb, leb,
  ◌==◌, ◌||◌, ◌&&◌, if◌then◌else◌, length, take, drop,
}

-- `writeRange`, the half-open segment [off, end).
pub record WriteRange : Type 0 where
  pub off : ℕ
  pub end : ℕ
  pub bytes : List ℕ

-- `WriteBackCache`
pub record WriteBackCache : Type 0 where
  pub ranges : List WriteRange
  pub max_size : ℕ
  pub dirty : Bool

abbrev pub new_write_back_cache : WriteBackCache
new_write_back_cache = record { ranges = []; max_size = 4194304; dirty = false }

-- Does `sort.Slice` put `s` before `r`? It is not stable, so `tie` says what it does with two
-- segments of one offset. A table has at most one such pair: it holds offsets that differ, and
-- one new segment.
unfoldable pub goes_before : Bool → WriteRange → WriteRange → Bool
goes_before tie s r = ltb s.off r.off || (tie && s.off == r.off)

unfoldable pub insert_by_off : Bool → WriteRange → List WriteRange → List WriteRange
insert_by_off tie s [] = s ∷ []
insert_by_off tie s (r ∷ rs) =
    let rest = insert_by_off tie s rs in if goes_before tie s r then s ∷ r ∷ rs else r ∷ rest

sort_from : Bool → List WriteRange → List WriteRange → List WriteRange
sort_from tie done [] = done
sort_from tie done (s ∷ rest) = sort_from tie (insert_by_off tie s done) rest

unfoldable pub sort_by_off : Bool → List WriteRange → List WriteRange
unfolding sort_from
sort_by_off tie rs = sort_from tie [] rs

-- The body of the loop of `mergeLocked` where `s` touches the last merged segment.
unfoldable pub absorb : WriteRange → WriteRange → WriteRange
absorb last s =
    let keep_len = s.off - last.off in
    let kept = if ltb (length last.bytes) keep_len then length last.bytes else keep_len in
    if leb s.end last.end
    then last
    else record { off = last.off; end = s.end; bytes = take kept last.bytes ++ s.bytes }

-- The loop of `mergeLocked`, with the last merged segment at hand.
unfoldable pub merge_from : WriteRange → List WriteRange → List WriteRange
merge_from last [] = last ∷ []
merge_from last (s ∷ rest) =
    let joined = merge_from (absorb last s) rest in
    let apart = merge_from s rest in if leb s.off last.end then joined else last ∷ apart

unfoldable pub merge_sorted : List WriteRange → List WriteRange
unfolding merge_from
merge_sorted [] = []
merge_sorted (s ∷ rest) = merge_from s rest

-- `mergeLocked`
unfoldable pub merge_locked : Bool → WriteBackCache → WriteBackCache
unfolding merge_sorted sort_by_off
merge_locked tie c =
    if ltb (length c.ranges) 2
    then c
    else record c { ranges = merge_sorted (sort_by_off tie c.ranges) }

-- `sizeLocked`
unfoldable pub size_locked : List WriteRange → ℕ
size_locked [] = 0
size_locked (s ∷ rest) = length s.bytes + size_locked rest

abbrev pub segment : ℕ → List ℕ → WriteRange
segment off bytes = record { off = off; end = off + length bytes; bytes = bytes }

-- `ApplyWrite`: the new cache, and its size.
unfoldable pub apply_write : Bool → ℕ → List ℕ → WriteBackCache → WriteBackCache × ℕ
unfolding merge_locked size_locked
apply_write tie off bytes c =
    let c' = merge_locked tie (record c { ranges = c.ranges ++ segment off bytes ∷ [] }) in
    let c'' = record c' { dirty = true } in (c'', size_locked c''.ranges)

-- s.data[from-s.off : to-s.off]
abbrev pub slice : ℕ → ℕ → List ℕ → List ℕ
slice from to bytes = take (to - from) (drop from bytes)

abbrev pub max64 : ℕ → ℕ → ℕ
max64 a b = if ltb b a then a else b

abbrev pub min64 : ℕ → ℕ → ℕ
min64 a b = if ltb a b then a else b

-- The loop of `ReadRange`: what is appended to `out` from the segments left.
unfoldable pub read_from : ℕ → ℕ → List WriteRange → List ℕ
read_from cursor end [] = []
read_from cursor end (s ∷ rest) =
    let from = max64 cursor s.off in
    let to = min64 s.end end in
    let skipped = read_from cursor end rest in
    let taken = slice (from - s.off) (to - s.off) s.bytes ++ read_from to end rest in
    if leb s.end cursor
    then skipped
    else if leb end s.off
    then []
    else if ltb from to
    then taken
    else skipped

-- `ReadRange`
unfoldable pub read_range : ℕ → ℕ → WriteBackCache → Option (List ℕ)
unfolding read_from
read_range offset len c =
    let out = read_from offset (offset + len) c.ranges in
    if length out == len then some out else none
