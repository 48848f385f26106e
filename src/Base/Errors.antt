-- ===== src/Base/Errors.antt =====
-- common/errors.go: the sentinel errors, and `HTTPStatus`. What a Go function returns beside an
-- error is a `Result`.
use Prim.Native.Nat.{ℕ}
use mathlib.Core.Path.{◌≡◌, refl}
use mathlib.Core.Logic.{◌⊎◌, inl, inr}

-- `internal` stands for every error that is no sentinel, such as a failed query.
pub data Error : Type 0 where
  invalid_input unauthorized forbidden not_found conflict : Error
  quota_exceeded range_not_satisfiable too_many_requests internal : Error

pub data Result {ℓ} (Value : Type ℓ) : Type ℓ where
  err : Error → Result Value
  ok : Value → Result Value

-- `if err != nil { return err }` behind a call.
infixl 10 ◌>>=◌
abbrev pub ◌>>=◌ {ℓ ℓ'} :
    {Value : Type ℓ} {Reply : Type ℓ'} → Result Value → (Value → Result Reply) → Result Reply
called >>= go_on = elim called [ err failure ↦ err failure | ok value ↦ go_on value ]

infixl 10 ◌>>◌
abbrev pub ◌>>◌ {ℓ ℓ'} :
    {Value : Type ℓ} {Reply : Type ℓ'} → Result Value → Result Reply → Result Reply
called >> next = called >>= (λ ignored. next)

abbrev pub http_status : Error → ℕ
http_status invalid_input = 400
http_status unauthorized = 401
http_status forbidden = 403
http_status not_found = 404
http_status conflict = 409
http_status quota_exceeded = 413
http_status range_not_satisfiable = 416
http_status too_many_requests = 503
http_status internal = 500

-- Where a call and what follows it succeed, the call did.
pub bind-ok {ℓ ℓ'} :
    {Value : Type ℓ} {Reply : Type ℓ'} (called : Result Value) (go_on : Value → Result Reply)
    {reply : Reply}
    → (called >>= go_on) ≡ ok reply
    → (value : Value) × (called ≡ ok value) × (go_on value ≡ ok reply)
bind-ok (err failure) go_on e = cc
bind-ok (ok value) go_on e = (value, refl, e)

-- To split on what a call returns and keep the equation.
pub Result-cases {ℓ} :
    {Value : Type ℓ} (called : Result Value)
    → ((value : Value) × (called ≡ ok value)) ⊎ ((failure : Error) × (called ≡ err failure))
Result-cases (err failure) = inr (failure, refl)
Result-cases (ok value) = inl (value, refl)

pub ok-injective {ℓ} : {Value : Type ℓ} {a b : Value} → ok a ≡ ok b → a ≡ b
ok-injective e = cc
