-- ===== src/Smb/WriteCache/Flush/Fill.antt =====
-- `copyFromObject`: the gap is filled with the old object's bytes up to the limit, and zeros.
use orbit_cloud.Base.{
  ℕ, zero, ◌+◌, ◌-◌, ◌≤◌, ◌<◌, ◌≡◌, refl, sym, ap, ◌∙◌, ◌⊎◌, inl, inr, Option, none, some, List, [],
  ◌++◌, ltb, leb, if◌then◌else◌, length, get_elem?, take, drop, length-append, length-take,
  length-drop, length-replicate, get_elem?-append, get_elem?-take, get_elem?-drop,
  get_elem?-replicate, get_elem?_in_range, get_elem?_past_end, Bool-cases, lt→ltb, le→ltb, ltb→lt,
  leb→le, arith,
}
use native.Mathlib.Decide.{dec_lt}
use mathlib.Core.List.{append-nil}
use mathlib.Core.Path.{subst}
use orbit_cloud.Base.Errors.{ok}
use orbit_cloud.Storage.{Fetched, failed, range_of}
use orbit_cloud.Smb.WriteCache.{min64}
use orbit_cloud.Smb.WriteCache.Flush.{zeros, copied, copy_from_object}

-- The byte of the old object, 0 where it has none.
abbrev pub byte_or_zero : Option (List ℕ) → ℕ → ℕ
byte_or_zero none p = 0
byte_or_zero (some bytes) p = elim (get_elem? bytes p) [ none ↦ 0 | some b ↦ b ]

-- What a gap is to hold at `p`: the old object's byte below `limit`, and 0 from there on.
abbrev pub old_byte : Option (List ℕ) → ℕ → ℕ → ℕ
old_byte object limit p = if ltb p limit then byte_or_zero object p else 0

-- The object holds what lies below the limit, or the limit cuts nothing of [.., to) off.
abbrev pub Reaches : Option (List ℕ) → ℕ → ℕ → Type 0
Reaches none limit to = Unit
Reaches (some bytes) limit to = (to ≤ limit) ⊎ (limit ≤ length bytes)

-- `fetch` reads `object`, where it does not fail.
abbrev pub Reads : Option (List ℕ) → (ℕ → ℕ → Fetched) → Type 0
Reads object fetch =
    (start end : ℕ) → (fetch start end ≡ failed) ⊎ (fetch start end ≡ range_of object start end)

-- `out` is what a gap [from, to) is to hold.
abbrev pub Fills : Option (List ℕ) → ℕ → ℕ → ℕ → List ℕ → Type 0
Fills object limit from to out =
    (length out ≡ to - from)
    × ((i : ℕ) → i < to - from → get_elem? out i ≡ some (old_byte object limit (from + i)))

Fills-zeros :
    (object : Option (List ℕ)) (limit from to : ℕ)
    → ((p : ℕ) → from ≤ p → old_byte object limit p ≡ 0)
    → Fills object limit from to (zeros (to - from))
Fills-zeros object limit from to z = (
  length-replicate (to - from) 0,
  λ i h.
      get_elem?-replicate (to - from) 0 i
      ∙ rw (lt→ltb i (to - from) h) (ap some (sym (z (from + i) (omega arith)))),
)

byte_or_zero_past : (bytes : List ℕ) (p : ℕ) → length bytes ≤ p → byte_or_zero (some bytes) p ≡ 0
byte_or_zero_past bytes p h = ground (arith, get_elem?_past_end bytes p h)

-- A byte that is there is the byte that the gap is to hold.
old_byte_there :
    (bytes : List ℕ) (limit p : ℕ) {b : ℕ}
    → p < limit
    → get_elem? bytes p ≡ some b
    → some b ≡ some (old_byte (some bytes) limit p)
old_byte_there bytes limit p h e = ground arith

-- What was read of an object, and zeros behind it.
Fills-padded :
    (bytes got : List ℕ) (limit from to k : ℕ)
    → length got + k ≡ to - from
    → length got + from ≤ limit
    → (k ≡ 0) ⊎ ((limit ≤ from + length got) ⊎ (length bytes ≤ from + length got))
    → ((i : ℕ) → i < length got → get_elem? got i ≡ get_elem? bytes (from + i))
    → Fills (some bytes) limit from to (got ++ zeros k)
Fills-padded bytes got limit from to k l below past same = (
  omega (arith, length-append got (zeros k), length-replicate k zero),
  λ i h. get_elem?-append got (zeros k) i ∙ elim (dec_lt i (length got)) [
    | yes a ↦
        let (b, e) = get_elem?_in_range got i a in
        rw (lt→ltb i (length got) a)
          (e ∙ old_byte_there bytes limit (from + i) (omega arith) (sym (same i a) ∙ e))
    | no a ↦ rw (le→ltb i (length got) (omega arith)) (
        get_elem?-replicate k 0 (i - length got)
        ∙ rw (lt→ltb (i - length got) k (omega arith)) (ap some (sym (past_end i h (omega arith)))))
  ],
)
  where
    past_end : (i : ℕ) → i < to - from → length got ≤ i → old_byte (some bytes) limit (from + i) ≡ 0
    past_end i j h = ground (arith, byte_or_zero_past bytes (from + i))

-- The bytes that `io.CopyN` moves.
abbrev moved : List ℕ → ℕ → ℕ → List ℕ
moved bytes from rd_to = take (rd_to - from) (take (rd_to - 1 + 1 - from) (drop from bytes))

length-moved :
    (bytes : List ℕ) (from rd_to : ℕ)
    → from < rd_to
    → (length (moved bytes from rd_to) ≤ rd_to - from)
      × ((length (moved bytes from rd_to) ≡ rd_to - from)
          ⊎ (length (moved bytes from rd_to) ≡ length bytes - from))
length-moved bytes from rd_to h =
    let t = length-take (rd_to - from) (take (rd_to - 1 + 1 - from) (drop from bytes)) in
    let u = length-take (rd_to - 1 + 1 - from) (drop from bytes) in
    let d = length-drop from bytes in
    (
      omega arith,
      elim (dec_lt (length bytes - from) (rd_to - from)) [
        | yes a ↦ inr (omega arith)
        | no a ↦ inl (omega arith)
      ],
    )

moved-byte :
    (bytes : List ℕ) (from rd_to i : ℕ)
    → from < rd_to
    → i < rd_to - from
    → get_elem? (moved bytes from rd_to) i ≡ get_elem? bytes (from + i)
moved-byte bytes from rd_to i h k = ground (
  arith,
  get_elem?-take (rd_to - from) (take (rd_to - 1 + 1 - from) (drop from bytes)) i,
  get_elem?-take (rd_to - 1 + 1 - from) (drop from bytes) i,
  get_elem?-drop from bytes i,
)

copied-Fills :
    (bytes out : List ℕ) (limit from to : ℕ)
    → from < min64 to limit
    → Reaches (some bytes) limit to
    → copied from to (min64 to limit) (range_of (some bytes) from (min64 to limit - 1)) ≡ ok out
    → Fills (some bytes) limit from to out
unfolding copied
copied-Fills bytes out limit from to h r e =
    let rd_to = min64 to limit in
    let got = moved bytes from rd_to in
    let (fits, n) = length-moved bytes from rd_to h in
    let same = λ (i : ℕ) (k : i < length got). moved-byte bytes from rd_to i h (omega arith) in
    let below : length got + from ≤ limit = ground arith in
    elim (Bool-cases (ltb (length got) (rd_to - from))) [
      | inl short ↦
          let whole : rd_to ≡ to = ground arith in
          let q : got ++ zeros (rd_to - from - length got) ≡ out = ground arith in
          subst (Fills (some bytes) limit from to) q (
            Fills-padded bytes got limit from to (rd_to - from - length got) (ground arith) below
              (inr (inr (ground arith))) same)
      | inr full ↦ elim (Bool-cases (ltb rd_to to)) [
        | inl cut ↦
            let q : got ++ zeros (to - rd_to) ≡ out = ground arith in
            subst (Fills (some bytes) limit from to) q (
              Fills-padded bytes got limit from to (to - rd_to) (ground arith) below
                (inr (inl (ground arith))) same)
        | inr all ↦
            let q : got ≡ out = ground arith in
            subst (Fills (some bytes) limit from to) (append-nil got ∙ q)
              (Fills-padded bytes got limit from to 0 (ground arith) below (inl refl) same)
      ]
    ]

fetched-Fills :
    (object : Option (List ℕ)) (fetched : Fetched) (out : List ℕ) (limit from to : ℕ)
    → (fetched ≡ failed) ⊎ (fetched ≡ range_of object from (min64 to limit - 1))
    → Reaches object limit to
    → from < min64 to limit
    → copied from to (min64 to limit) fetched ≡ ok out
    → Fills object limit from to out
fetched-Fills object fetched out limit from to (inl f) r h e =
    absurd (unfold copied in ground arith)
fetched-Fills none fetched out limit from to (inr f) r h e =
    let q : zeros (to - from) ≡ out = unfold copied in ground arith in
    subst (Fills none limit from to) q (Fills-zeros none limit from to (λ p k. ground arith))
fetched-Fills (some bytes) fetched out limit from to (inr f) r h e =
    copied-Fills bytes out limit from to h r (ap (copied from to (min64 to limit)) (sym f) ∙ e)

-- A gap that begins at the limit or below it is filled as it is to be.
pub copy_from_object-Fills :
    (object : Option (List ℕ)) (fetch : ℕ → ℕ → Fetched) (out : List ℕ) (limit from to : ℕ)
    → Reads object fetch
    → Reaches object limit to
    → (to ≤ from) ⊎ (from ≤ limit)
    → copy_from_object fetch from to limit ≡ ok out
    → Fills object limit from to out
unfolding copy_from_object
copy_from_object-Fills object fetch out limit from to reads reaches h e =
    elim (Bool-cases (leb to from)) [
      | inl nothing ↦
          let q : [] ≡ out = ground arith in
          let k : to ≤ from = leb→le to from nothing in
          subst (Fills object limit from to) q (omega arith, λ i k. absurd (ground arith))
      | inr gap ↦ elim (Bool-cases (ltb from (min64 to limit))) [
        | inl some_old ↦
            fetched-Fills object (fetch from (min64 to limit - 1)) out limit from to
              (reads from (min64 to limit - 1)) reaches (ltb→lt from (min64 to limit) some_old)
              (ground arith)
        | inr all_new ↦
            let at_limit : limit ≡ from = ground arith in
            let q : zeros (to - from) ≡ out = ground arith in
            subst (Fills object limit from to) q
              (Fills-zeros object limit from to (λ p k. ground arith))
      ]
    ]
