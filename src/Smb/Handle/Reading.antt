-- ===== src/Smb/Handle/Reading.antt =====
-- What a read of a handle gives.
use orbit_cloud.Base.{
  ℕ, ◌+◌, ◌-◌, ◌≤◌, ◌≡◌, refl, sym, ◌∙◌, ap, inl, inr, true, false, List, [], ◌∷◌, ◌++◌, ltb, leb,
  length, take, drop, length-append, length-take, Bool-cases, arith,
}
use orbit_cloud.Base.Errors.{ok, ◌>>=◌, bind-ok, ok-injective}
use orbit_cloud.Storage.{Fetched, found, missing, failed, ObjectStorage}
use orbit_cloud.Smb.WriteCache.{WriteRange, min64, max64}
use orbit_cloud.Smb.Handle.{
  RemoteHandle, segments_of, read_from_object, read_hole, past_hole, cached_part, past_cached,
  read_tail, read_segments, fetch_of, read_inner,
}

length-read_from_object :
    (fetch : ℕ → ℕ → Fetched) (from to : ℕ) {out : List ℕ}
    → read_from_object fetch from to ≡ ok out
    → length out ≤ to - from
unfolding read_from_object
length-read_from_object fetch from to {out} e = by_answer (fetch from (to - 1)) refl
  where
    by_answer : (r : Fetched) → fetch from (to - 1) ≡ r → length out ≤ to - from
    by_answer missing q = ground arith
    by_answer failed q = ground arith
    by_answer (found bytes) q = ground (arith, length-take (to - from) bytes)

length-read_hole :
    (fetch : ℕ → ℕ → Fetched) (end cursor : ℕ) (s : WriteRange) {out : List ℕ}
    → cursor ≤ end
    → read_hole fetch end cursor s ≡ ok out
    → (length out ≤ past_hole end cursor s - cursor)
      × (cursor ≤ past_hole end cursor s)
      × (past_hole end cursor s ≤ end)
unfolding read_hole
length-read_hole fetch end cursor s {out} h e = elim (Bool-cases (ltb cursor s.off)) [
  | inl b ↦
      let e' : read_from_object fetch cursor (min64 s.off end) ≡ ok out = ground arith in
      let l = length-read_from_object fetch cursor (min64 s.off end) e' in ground arith
  | inr b ↦ let q : [] ≡ out = ground arith in ground arith
]

length-cached_part :
    (end cursor : ℕ) (s : WriteRange)
    → cursor ≤ end
    → (length (cached_part end cursor s) ≤ past_cached end cursor s - cursor)
      × (cursor ≤ past_cached end cursor s)
      × (past_cached end cursor s ≤ end)
length-cached_part end cursor s h =
    let from = max64 cursor s.off in
    let to = min64 s.end end in
    let l = length-take (to - s.off - (from - s.off)) (drop (from - s.off) s.bytes) in ground arith

length-read_tail :
    (fetch : ℕ → ℕ → Fetched) (cursor end : ℕ) {out : List ℕ}
    → read_tail fetch cursor end ≡ ok out
    → length out ≤ end - cursor
unfolding read_tail
length-read_tail fetch cursor end {out} e = elim (Bool-cases (ltb cursor end)) [
  | inl b ↦ length-read_from_object fetch cursor end (ground arith)
  | inr b ↦ ground arith
]

-- The three ways through one round of the loop.
pub segment_passed :
    (fetch : ℕ → ℕ → Fetched) (cursor end : ℕ) (s : WriteRange) (rest : List WriteRange)
    → leb s.end cursor ≡ true
    → read_segments fetch cursor end (s ∷ rest) ≡ read_segments fetch cursor end rest
unfolding read_segments
segment_passed fetch cursor end s rest b = rw b refl

pub segment_beyond :
    (fetch : ℕ → ℕ → Fetched) (cursor end : ℕ) (s : WriteRange) (rest : List WriteRange)
    → leb s.end cursor ≡ false
    → leb end s.off ≡ true
    → read_segments fetch cursor end (s ∷ rest) ≡ read_tail fetch cursor end
unfolding read_segments
segment_beyond fetch cursor end s rest b c = rw (b, c) refl

pub segment_read :
    (fetch : ℕ → ℕ → Fetched) (cursor end : ℕ) (s : WriteRange) (rest : List WriteRange)
    → leb s.end cursor ≡ false
    → leb end s.off ≡ false
    → read_segments fetch cursor end (s ∷ rest) ≡ (
        read_hole fetch end cursor s >>= λ gap.
        read_segments fetch (past_cached end (past_hole end cursor s) s) end rest >>= λ later.
        ok (gap ++ (cached_part end (past_hole end cursor s) s ++ later)))
unfolding read_segments
segment_read fetch cursor end s rest b c = rw (b, c) refl

length-read_segments :
    (fetch : ℕ → ℕ → Fetched) (cursor end : ℕ) (rs : List WriteRange) {out : List ℕ}
    → cursor ≤ end
    → read_segments fetch cursor end rs ≡ ok out
    → length out ≤ end - cursor
unfolding read_segments
length-read_segments fetch cursor end [] h e = length-read_tail fetch cursor end e
length-read_segments fetch cursor end (s ∷ rest) {out} h e = elim (Bool-cases (leb s.end cursor)) [
  | inl b ↦
      length-read_segments fetch cursor end rest h
        (sym (segment_passed fetch cursor end s rest b) ∙ e)
  | inr b ↦ elim (Bool-cases (leb end s.off)) [
    | inl c ↦
        length-read_tail fetch cursor end (sym (segment_beyond fetch cursor end s rest b c) ∙ e)
    | inr c ↦
        let at = past_hole end cursor s in
        let next = past_cached end at s in
        let (gap, g, e1) =
          bind-ok (read_hole fetch end cursor s) _
            (sym (segment_read fetch cursor end s rest b c) ∙ e) in
        let (later, l, e2) = bind-ok (read_segments fetch next end rest) _ e1 in
        let (hole, k, m) = length-read_hole fetch end cursor s h g in
        let (part, k', m') = length-cached_part end at s m in
        let tail = length-read_segments fetch next end rest m' l in
        let p = cached_part end at s in
        let total : length out ≡ length gap + (length p + length later) =
          sym (ap length (ok-injective e2))
          ∙ (length-append gap (p ++ later) ∙ ap (λ n. length gap + n) (length-append p later)) in
        omega arith
  ]
]

module _ {S : Type 0} (st : ObjectStorage S) (s : S) (h : RemoteHandle) where
  -- A read gives at most as many bytes as asked for, and none behind the size of the handle, be
  -- it cut by a truncation or grown by a write.
  pub read_inner_bounded :
      (offset len : ℕ) {out : List ℕ}
      → read_inner st s h offset len ≡ ok out
      → (length out ≤ len) × (length out ≤ h.size - offset)
  unfolding read_inner
  read_inner_bounded offset len {out} e =
      let end = min64 (offset + len) h.size in
      elim (Bool-cases h.is_dir) [
        | inl d ↦ absurd (ground arith)
        | inr d ↦ elim (Bool-cases (leb h.size offset)) [
          | inl b ↦ let q : [] ≡ out = ground arith in ground arith
          | inr b ↦
              let e1 : (read_segments (fetch_of st s h) offset end (segments_of h.write_cache)
                    >>= λ bytes. ok (take len bytes))
                  ≡ ok out =
                ground arith in
              let (bytes, r, e2) =
                bind-ok (read_segments (fetch_of st s h) offset end (segments_of h.write_cache)) _
                  e1 in
              let l =
                length-read_segments (fetch_of st s h) offset end (segments_of h.write_cache)
                  (ground arith) r in
              let cut = length-take len bytes in
              let same = ap length (ok-injective e2) in (ground arith, ground arith)
        ]
      ]
