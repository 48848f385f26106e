-- ===== src/Smb/WriteCache/Flush/Assemble.antt =====
-- What `FlushToStorage` uploads, byte by byte.
use mathlib.Core.Path.{subst}
use orbit_cloud.Base.{
  ℕ, suc, ◌+◌, ◌-◌, ◌≤◌, ◌<◌, ◌≡◌, sym, ap, ◌∙◌, ◌⊎◌, inl, inr, true, false, Option, none, some,
  List, [], ◌∷◌, ◌++◌, ltb, leb, length, get_elem?, take, drop, length-append, get_elem?-append,
  Bool-cases, le→leb, lt→leb, lt→ltb, le→ltb, leb→le, leb→lt, arith,
}
use native.Mathlib.Decide.{dec_lt}
use orbit_cloud.Base.Errors.{ok, ◌>>=◌, bind-ok}
use orbit_cloud.Storage.{Fetched}
use orbit_cloud.Smb.WriteCache.{WriteRange, min64, slice}
use orbit_cloud.Smb.WriteCache.Segments.{ApartFrom, covers, byte_in, byte_at}
use orbit_cloud.Smb.WriteCache.Merge.{IsSized, ApartFrom-le}
use orbit_cloud.Smb.WriteCache.Overlay.{byte_at_below, byte_in_covered}
use orbit_cloud.Smb.WriteCache.ReadSteps.{length-slice, slice-byte}
use orbit_cloud.Smb.WriteCache.Flush.{
  copy_from_object, fill_tail, fill_gap, past_gap, segment_part, past_segment, assemble,
}
use orbit_cloud.Smb.WriteCache.Flush.Fill.{old_byte, Reaches, Reads, Fills, copy_from_object-Fills}

-- The byte that the new object is to have at `p`: the table's, or the old object's below the
-- limit, or 0.
abbrev pub or_old : Option ℕ → ℕ → Option ℕ
or_old none old = some old
or_old (some b) old = some b

abbrev pub flushed_byte : Option (List ℕ) → ℕ → List WriteRange → ℕ → Option ℕ
flushed_byte object limit rs p = or_old (byte_at rs p) (old_byte object limit p)

-- Every gap below `total` begins at the limit or below it.
abbrev pub GapsBegin : ℕ → ℕ → ℕ → List WriteRange → Type 0
GapsBegin limit total cursor [] = (total ≤ cursor) ⊎ (cursor ≤ limit)
GapsBegin limit total cursor (s ∷ rs) =
    ((s.off ≤ cursor) ⊎ ((total ≤ cursor) ⊎ (cursor ≤ limit))) × GapsBegin limit total s.end rs

abbrev pub IsFlushed : Option (List ℕ) → ℕ → ℕ → ℕ → List WriteRange → List ℕ → Type 0
IsFlushed object limit total cursor rs out =
    (length out ≡ total - cursor)
    × ((i : ℕ) → i < total - cursor → get_elem? out i ≡ flushed_byte object limit rs (cursor + i))

Reaches-le :
    (object : Option (List ℕ)) (limit to total : ℕ)
    → to ≤ total
    → Reaches object limit total
    → Reaches object limit to
Reaches-le none limit to total h r = tt
Reaches-le (some bytes) limit to total h r = ground arith

fill_tail-IsFlushed :
    (object : Option (List ℕ)) (fetch : ℕ → ℕ → Fetched) (limit total cursor : ℕ)
    (rs : List WriteRange) (out : List ℕ)
    → Reads object fetch
    → Reaches object limit total
    → (total ≤ cursor) ⊎ (cursor ≤ limit)
    → ApartFrom total rs
    → fill_tail fetch total limit cursor ≡ ok out
    → IsFlushed object limit total cursor rs out
unfolding fill_tail
fill_tail-IsFlushed object fetch limit total cursor rs out reads reaches begins a e =
    elim (Bool-cases (ltb cursor total)) [
      | inl more ↦
          let (l, same) =
            copy_from_object-Fills object fetch out limit cursor total reads reaches begins
              (ground arith) in
          (
            l,
            λ i h.
                same i h
                ∙ ap (λ o. or_old o (old_byte object limit (cursor + i)))
                    (sym (byte_at_below total rs (cursor + i) a (omega arith))),
          )
      | inr done ↦
          let q : [] ≡ out = ground arith in
          let k : total ≤ cursor = ground arith in
          subst (IsFlushed object limit total cursor rs) q
            (omega arith, λ i h. absurd (omega arith))
    ]

fill_gap-Fills :
    (object : Option (List ℕ)) (fetch : ℕ → ℕ → Fetched) (limit total cursor : ℕ) (s : WriteRange)
    (out : List ℕ)
    → Reads object fetch
    → Reaches object limit total
    → (s.off ≤ cursor) ⊎ ((total ≤ cursor) ⊎ (cursor ≤ limit))
    → s.off < total
    → fill_gap fetch total limit cursor s ≡ ok out
    → Fills object limit cursor s.off out
unfolding fill_gap
fill_gap-Fills object fetch limit total cursor s out reads reaches begins h e =
    elim (Bool-cases (ltb cursor s.off)) [
      | inl more ↦
          let m : min64 s.off total ≡ s.off = ground arith in
          copy_from_object-Fills object fetch out limit cursor s.off reads
            (Reaches-le object limit s.off total (omega arith) reaches) (ground arith)
            (ap (λ n. copy_from_object fetch cursor n limit) (sym m) ∙ ground arith)
      | inr done ↦
          let q : [] ≡ out = ground arith in
          let k : s.off ≤ cursor = ground arith in
          subst (Fills object limit cursor s.off) q (omega arith, λ i h. absurd (omega arith))
    ]

gap_byte :
    (object : Option (List ℕ)) (limit p : ℕ) (s : WriteRange) (rs : List WriteRange)
    → p < s.off
    → IsSized s
    → ApartFrom (suc s.end) rs
    → some (old_byte object limit p) ≡ flushed_byte object limit (s ∷ rs) p
gap_byte object limit p s rs h z a =
    ap (λ o. or_old o (old_byte object limit p))
      (sym (byte_at_below s.off (s ∷ rs) p (omega arith, z, a) h))

own_byte :
    (object : Option (List ℕ)) (limit p : ℕ) (s : WriteRange) (rs : List WriteRange)
    → s.off ≤ p
    → p < s.end
    → IsSized s
    → byte_in s p ≡ flushed_byte object limit (s ∷ rs) p
unfolding byte_at
own_byte object limit p s rs h k z =
    let c : covers s p ≡ true = ground arith in
    let (b, e) = byte_in_covered s p z c in ground (arith, e)

later_byte :
    (object : Option (List ℕ)) (limit p : ℕ) (s : WriteRange) (rs : List WriteRange)
    → s.end ≤ p
    → flushed_byte object limit rs p ≡ flushed_byte object limit (s ∷ rs) p
unfolding byte_at
later_byte object limit p s rs h = let c : covers s p ≡ false = ground arith in rw c

-- A gap, a segment, and what follows, put together.
joined_byte :
    (object : Option (List ℕ)) (limit total cursor : ℕ) (s : WriteRange) (rs : List WriteRange)
    (gap later : List ℕ)
    → cursor ≤ s.off
    → s.off < total
    → IsSized s
    → ApartFrom (suc s.end) rs
    → Fills object limit cursor s.off gap
    → IsFlushed object limit total (min64 s.end total) rs later
    → IsFlushed object limit total cursor
        (s ∷ rs)
        (gap ++ (slice (s.off - s.off) (min64 s.end total - s.off) s.bytes ++ later))
joined_byte object limit total cursor s rs gap later h k z a (lg, g) (ll, l) =
    let to = min64 s.end total in
    let part = slice (s.off - s.off) (to - s.off) s.bytes in
    let lp : length part ≡ to - s.off = length-slice s s.off to z (omega arith) (ground arith) in
    let reach : s.off ≤ to = ground arith in
    let within : to ≤ total = ground arith in
    let inner : to ≤ s.end = ground arith in
    let whole : (to ≡ s.end) ⊎ (to ≡ total) = ground arith in
    (
      omega (arith, length-append gap (part ++ later), length-append part later),
      λ i j. get_elem?-append gap (part ++ later) i ∙ elim (dec_lt i (length gap)) [
        | yes b ↦
            rw (lt→ltb i (length gap) b)
              (g i (omega arith) ∙ gap_byte object limit (cursor + i) s rs (omega arith) z a)
        | no b ↦ rw (le→ltb i (length gap) (omega arith)) (
            get_elem?-append part later (i - length gap)
            ∙ elim (dec_lt (i - length gap) (length part)) [
              | yes c ↦ rw (lt→ltb (i - length gap) (length part) c) (
                  slice-byte s s.off to (i - length gap) (omega arith) (omega arith)
                  ∙ ap (byte_in s) (omega arith)
                  ∙ own_byte object limit (cursor + i) s rs (omega arith) (omega arith) z)
              | no c ↦ rw (le→ltb (i - length gap) (length part) (omega arith)) (
                  l (i - length gap - length part) (omega arith)
                  ∙ ap (flushed_byte object limit rs) (omega arith)
                  ∙ later_byte object limit (cursor + i) s rs (omega arith))
            ])
      ],
    )

GapsBegin-min :
    (limit total end : ℕ) (rs : List WriteRange)
    → GapsBegin limit total end rs
    → GapsBegin limit total (min64 end total) rs
GapsBegin-min limit total end [] g = ground arith
GapsBegin-min limit total end (s ∷ rs) g = (ground arith, g.1)

stopped :
    (fetch : ℕ → ℕ → Fetched) (limit total cursor : ℕ) (s : WriteRange) (rs : List WriteRange)
    → total ≤ s.off
    → fill_tail fetch total limit cursor ≡ assemble fetch total limit cursor (s ∷ rs)
unfolding assemble
stopped fetch limit total cursor s rs k = rw (le→leb total s.off k)

part_eq :
    (total : ℕ) (s : WriteRange)
    → s.off ≤ s.end
    → s.off < total
    → segment_part total s.off s ≡ slice (s.off - s.off) (min64 s.end total - s.off) s.bytes
part_eq total s h k = elim (Bool-cases (ltb s.off (min64 s.end total))) [
  | inl some_bytes ↦ rw some_bytes
  | inr no_bytes ↦
      let n : 0 ≡ min64 s.end total - s.off - (s.off - s.off) = ground arith in
      rw no_bytes (ap (λ k. take k (drop (s.off - s.off) s.bytes)) n)
]

-- One round of the loop, with the cursors worked out.
round :
    (fetch : ℕ → ℕ → Fetched) (limit total cursor : ℕ) (s : WriteRange) (rs : List WriteRange)
    → cursor ≤ s.off
    → s.off < total
    → s.off ≤ s.end
    → assemble fetch total limit cursor (s ∷ rs) ≡ (do
      gap ← fill_gap fetch total limit cursor s
      later ← assemble fetch total limit (min64 s.end total) rs
      ok (gap ++ (slice (s.off - s.off) (min64 s.end total - s.off) s.bytes ++ later)))
unfolding assemble
round fetch limit total cursor s rs h k z =
    let at : past_gap total cursor s ≡ s.off = ground arith in
    let past : past_segment total s.off s ≡ min64 s.end total = ground arith in
    let part : segment_part total s.off s
        ≡ slice (s.off - s.off) (min64 s.end total - s.off) s.bytes =
      part_eq total s z k in
    rw (lt→leb total s.off k) (
      ap
        (λ n. do
          gap ← fill_gap fetch total limit cursor s
          later ← assemble fetch total limit (past_segment total n s) rs
          ok (gap ++ (segment_part total n s ++ later)))
        at
      ∙ ap
          (λ n. do
            gap ← fill_gap fetch total limit cursor s
            later ← assemble fetch total limit n rs
            ok (gap ++ (segment_part total s.off s ++ later)))
          past
      ∙ ap
          (λ t. do
            gap ← fill_gap fetch total limit cursor s
            later ← assemble fetch total limit (min64 s.end total) rs
            ok (gap ++ (t ++ later)))
          part)

-- What is assembled is, byte by byte, what the new object is to have.
pub assemble-IsFlushed :
    (object : Option (List ℕ)) (fetch : ℕ → ℕ → Fetched) (limit total cursor : ℕ)
    (rs : List WriteRange) (out : List ℕ)
    → Reads object fetch
    → Reaches object limit total
    → GapsBegin limit total cursor rs
    → cursor ≤ total
    → ApartFrom cursor rs
    → assemble fetch total limit cursor rs ≡ ok out
    → IsFlushed object limit total cursor rs out
assemble-IsFlushed object fetch limit total cursor [] out reads reaches g h a e =
    fill_tail-IsFlushed object fetch limit total cursor [] out reads reaches g tt
      (unfold assemble in e)
assemble-IsFlushed object fetch limit total cursor (s ∷ rs) out reads reaches g h a e =
    elim (Bool-cases (leb total s.off)) [
      | inl stop ↦
          let k : total ≤ s.off = leb→le total s.off stop in
          fill_tail-IsFlushed object fetch limit total cursor (s ∷ rs) out reads reaches
            (ground arith) (k, a.1, a.2) (stopped fetch limit total cursor s rs k ∙ e)
      | inr go_on ↦
          let k : s.off < total = leb→lt total s.off go_on in
          let to = min64 s.end total in
          let (gap, eg, e') =
            bind-ok (fill_gap fetch total limit cursor s) _
              (sym (round fetch limit total cursor s rs a.0 k (omega arith)) ∙ e) in
          let (later, el, e'') = bind-ok (assemble fetch total limit to rs) _ e' in
          let q : gap ++ (slice (s.off - s.off) (to - s.off) s.bytes ++ later) ≡ out =
            ground arith in
          subst (IsFlushed object limit total cursor (s ∷ rs)) q (
            joined_byte object limit total cursor s rs gap later a.0 k a.1 a.2
              (fill_gap-Fills object fetch limit total cursor s gap reads reaches g.0 k eg)
              (assemble-IsFlushed object fetch limit total to rs later reads reaches
                (GapsBegin-min limit total s.end rs g.1) (ground arith)
                (ApartFrom-le to (suc s.end) rs (ground arith) a.2) el))
    ]
