-- ===== src/BucketCoder.antt =====
-- utils/bucket_coder.go: the name of a bucket in the object storage, from its id. The digits are
-- in base 36, the lowest first; the loop runs on fuel, and the id itself is enough.
use Prim.Native.Char.{Char, code}
use Prim.Native.String.{String}
use orbit_cloud.Base.{
  ℕ, zero, suc, ◌+◌, ◌-◌, ◌*◌, ◌/◌, ◌%◌, ◌≤◌, ◌<◌, ◌≡◌, refl, sym, ap, ◌∙◌, Bool, true, ◌&&◌, ◌==◌,
  ltb, if◌then◌else◌, Bool-cases, inl, inr, arith,
}

abbrev pub custom_charset : String
custom_charset = "0123456789abcdefghijklmnopqrstuvwxyz"

abbrev pub bucket_prefix : String
bucket_prefix = "orbitcloud-"

-- Charset[i]; the index is below 36 where it is used.
unfoldable pub char_at : String → ℕ → Char
char_at String.[] i = "0"
char_at (String.◌∷◌ c rest) zero = c
char_at (String.◌∷◌ c rest) (suc i) = char_at rest i

unfoldable pub digits : ℕ → ℕ → String
unfolding char_at
digits zero num = String.[]
digits (suc fuel) num =
    let rest = digits fuel (num / 36) in
    if num == 0 then String.[] else String.◌∷◌ (char_at custom_charset (num % 36)) rest

unfoldable pub append : String → String → String
append String.[] t = t
append (String.◌∷◌ c s) t = String.◌∷◌ c (append s t)

-- `BucketEncoder`
unfoldable pub bucket_encoder : ℕ → String
unfolding digits append
bucket_encoder bucket_id =
    if bucket_id == 0
    then append bucket_prefix (String.◌∷◌ (char_at custom_charset 0) String.[])
    else append bucket_prefix (digits bucket_id bucket_id)

-- The number that digits stand for.
digit : Char → ℕ
digit c = if ltb (code c) 58 then code c - 48 else code c - 87

value : String → ℕ
unfolding digit
value String.[] = 0
value (String.◌∷◌ c rest) = digit c + 36 * value rest

all_below : ℕ → Bool
unfolding digit char_at
all_below zero = true
all_below (suc n) = (digit (char_at custom_charset n) == n) && all_below n

all_below-at : (n i : ℕ) → all_below n ≡ true → i < n → digit (char_at custom_charset i) ≡ i
unfolding all_below
all_below-at zero i h l = absurd (ground arith)
all_below-at (suc n) i h l = elim (Bool-cases (i == n)) [
  | inl b ↦
      let q : i ≡ n = ground arith in
      let here : digit (char_at custom_charset n) ≡ n = ground arith in
      ap (λ j. digit (char_at custom_charset j)) q ∙ (here ∙ sym q)
  | inr b ↦ all_below-at n i (ground arith) (ground arith)
]

digit-char_at : (i : ℕ) → i < 36 → digit (char_at custom_charset i) ≡ i
unfolding all_below
digit-char_at i l = all_below-at 36 i refl l

value-digits : (fuel num : ℕ) → num ≤ fuel → value (digits fuel num) ≡ num
unfolding digits value
value-digits zero num h = omega arith
value-digits (suc fuel) num h = elim (Bool-cases (num == 0)) [
  | inl b ↦ rw b (ground arith)
  | inr b ↦
      let positive : 1 ≤ num = ground arith in
      let d = digit-char_at (num % 36) (omega arith) in
      let later = value-digits fuel (num / 36) (omega arith) in rw (b, d, later) (omega arith)
]

append-cancels : (s t u : String) → append s t ≡ append s u → t ≡ u
unfolding append
append-cancels String.[] t u e = e
append-cancels (String.◌∷◌ c s) t u e = append-cancels s t u (ground arith)

-- The name behind the prefix.
suffix : ℕ → String
suffix a = if a == 0 then String.◌∷◌ (char_at custom_charset 0) String.[] else digits a a

encoder-suffix : (a : ℕ) → bucket_encoder a ≡ append bucket_prefix (suffix a)
unfolding bucket_encoder suffix
encoder-suffix a = elim (Bool-cases (a == 0)) [
  | inl b ↦ rw (bucket_encoder, b) refl
  | inr b ↦ rw (bucket_encoder, b) refl
]

zero_digit : value (String.◌∷◌ (char_at custom_charset 0) String.[]) ≡ 0
unfolding value char_at
zero_digit = refl

value-suffix : (a : ℕ) → value (suffix a) ≡ a
unfolding suffix
value-suffix a = elim (Bool-cases (a == 0)) [
  | inl b ↦ let z : a ≡ 0 = ground arith in rw (suffix, b) (zero_digit ∙ sym z)
  | inr b ↦ rw (suffix, b) (value-digits a a (omega arith))
]

-- Two buckets have one name only if they have one id.
pub bucket_encoder-injective : (a b : ℕ) → bucket_encoder a ≡ bucket_encoder b → a ≡ b
bucket_encoder-injective a b e =
    let same =
      append-cancels bucket_prefix (suffix a) (suffix b)
        (sym (encoder-suffix a) ∙ (e ∙ encoder-suffix b)) in
    sym (value-suffix a) ∙ (ap value same ∙ value-suffix b)
