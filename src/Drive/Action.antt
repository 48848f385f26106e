-- ===== src/Drive/Action.antt =====
-- Steps on the tables and the object storage: a step may fail, and what it has changed before that
-- stays, as in the code, which has a transaction only where one is modelled.
use orbit_cloud.Base.{Bool, true, false, ◌≡◌, inl, inr, refl}
use orbit_cloud.Base.Errors.{Error, Result, ok, err, Result-cases}
use orbit_cloud.Drive.{Drive}

pub record World (S : Type 0) : Type 0 where
  pub storage : S
  pub drive : Drive

abbrev pub Action : Type 0 → Type 0 → Type 0
Action S A = World S → Result A × World S

abbrev pub behind : {S A B : Type 0} → Result A × World S → (A → Action S B) → Result B × World S
behind (err e, w) next = (err e, w)
behind (ok a, w) next = next a w

infixl 10 ◌>>=◌
unfoldable pub ◌>>=◌ : {S A B : Type 0} → Action S A → (A → Action S B) → Action S B
◌>>=◌ m next w = behind (m w) next

infixl 10 ◌>>◌
abbrev pub ◌>>◌ : {S A B : Type 0} → Action S A → Action S B → Action S B
m >> next = m >>= λ done. next

unfoldable pub pure : {S A : Type 0} → A → Action S A
pure a w = (ok a, w)

-- A result that needs no table, and a question to the tables.
unfoldable pub lift : {S A : Type 0} → Result A → Action S A
lift r w = (r, w)

unfoldable pub asks : {S A : Type 0} → (Drive → Result A) → Action S A
asks question w = (question w.drive, w)

-- A step that changes the tables only.
unfoldable pub on_drive : {S A : Type 0} → (Drive → Result A × Drive) → Action S A
on_drive step w = let (r, d) = step w.drive in (r, record w { drive = d })

-- What comes next is told how the step went, and what the step has changed stays.
unfoldable pub attempt : {S A B : Type 0} → Action S A → (Result A → Action S B) → Action S B
attempt m next w = let (r, left) = m w in next r left

-- if bad { return err }
unfoldable pub refuse_if : {S : Type 0} → Bool → Error → Action S (Unit {0})
refuse_if true e w = (err e, w)
refuse_if false e w = (ok tt, w)

behind-ok :
    {S A B : Type 0} (r : Result A × World S) (next : A → Action S B) {b : B} {after : World S}
    → behind r next ≡ (ok b, after)
    → (a : A) × (v : World S) × (r ≡ (ok a, v)) × (next a v ≡ (ok b, after))
behind-ok (err e, v) next h = cc
behind-ok (ok a, v) next h = (a, v, refl, h)

-- Where a step and what follows it succeed, the step did.
pub bind-ok :
    {S A B : Type 0} (m : Action S A) (next : A → Action S B) {b : B} {w after : World S}
    → (m >>= next) w ≡ (ok b, after)
    → (a : A) × (v : World S) × (m w ≡ (ok a, v)) × (next a v ≡ (ok b, after))
unfolding ◌>>=◌
bind-ok m next {w = w} e = behind-ok (m w) next e

-- What is kept by a step, whether it fails or not.
pub record Keeps {S A : Type 0} (P : Drive → Type 0) (m : Action S A) : Type 0 where
  pub kept : (w : World S) → P w.drive → P (m w).1.drive

module _ {S : Type 0} (P : Drive → Type 0) where
  Keeps-behind :
      {A B : Type 0} (r : Result A × World S) (next : A → Action S B)
      → P r.1.drive
      → ((a : A) → Keeps P (next a))
      → P (behind r next).1.drive
  Keeps-behind (err e, w) next p k = p
  Keeps-behind (ok a, w) next p k = (k a).kept w p

  pub Keeps-bind :
      {A B : Type 0} {m : Action S A} {next : A → Action S B}
      → Keeps P m
      → ((a : A) → Keeps P (next a))
      → Keeps P (m >>= next)
  unfolding ◌>>=◌
  Keeps-bind {m = m} {next = next} k l = record {
    kept = λ w p. Keeps-behind (m w) next (k.kept w p) l;
  }

  pub Keeps-attempt :
      {A B : Type 0} {m : Action S A} {next : Result A → Action S B}
      → Keeps P m
      → ((r : Result A) → Keeps P (next r))
      → Keeps P (attempt m next)
  unfolding attempt
  Keeps-attempt {m = m} k l = record { kept = λ w p. (l (m w).0).kept (m w).1 (k.kept w p) }

  pub Keeps-pure : {A : Type 0} (a : A) → Keeps {S = S} P (pure a)
  unfolding pure
  Keeps-pure a = record { kept = λ w p. p }

  pub Keeps-lift : {A : Type 0} (r : Result A) → Keeps {S = S} P (lift r)
  unfolding lift
  Keeps-lift r = record { kept = λ w p. p }

  pub Keeps-asks : {A : Type 0} (question : Drive → Result A) → Keeps {S = S} P (asks question)
  unfolding asks
  Keeps-asks question = record { kept = λ w p. p }

  pub Keeps-on_drive :
      {A : Type 0} (step : Drive → Result A × Drive)
      → ((d : Drive) → P d → P (step d).1)
      → Keeps {S = S} P (on_drive step)
  unfolding on_drive
  Keeps-on_drive step k = record { kept = λ w p. k w.drive p }

  pub Keeps-refuse_if : (b : Bool) (e : Error) → Keeps {S = S} P (refuse_if b e)
  unfolding refuse_if
  Keeps-refuse_if true e = record { kept = λ w p. p }
  Keeps-refuse_if false e = record { kept = λ w p. p }

  -- A question whose answer is used afterwards.
  pub Keeps-asks_bind :
      {A B : Type 0} (question : Drive → Result A) (next : A → Action S B)
      → ((a : A) (w : World S) → question w.drive ≡ ok a → P w.drive → P (next a w).1.drive)
      → Keeps P (asks question >>= next)
  unfolding asks ◌>>=◌
  Keeps-asks_bind question next k = record {
    kept = λ w p. elim (Result-cases (question w.drive)) [
      | inl (a, e) ↦ rw e (k a w e p)
      | inr (failure, e) ↦ rw e p
    ];
  }
