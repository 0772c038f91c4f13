-- ===== src/Prelude/Result.antt =====
-- Exceptions, and code that may raise one.
use mathlib.Core.Path.{◌≡◌, refl}
use mathlib.Core.Logic.{◌⊎◌, inl, inr}
use mathlib.Core.Bool.{Bool, true, false}
use mathlib.Core.Option.{Option, none, some}

-- The classes of exceptions that the handlers tell apart: Redis' ConnectionError and TimeoutError,
-- LLMRateLimitError, any other SAPIError, asyncio's CancelledError, which `except Exception` lets
-- pass, and every other exception.
pub data Exc : Type 0 where
  unreachable rate_limit sapi_error cancelled other : Exc

pub data Result {ℓ} (A : Type ℓ) : Type ℓ where
  ok : A → Result A
  raise : Exc → Result A

infixl 5 ◌>>=◌ ◌>>◌
abbrev pub ◌>>=◌ {ℓ κ} : {A : Type ℓ} {B : Type κ} → Result A → (A → Result B) → Result B
raise x >>= next = raise x
ok value >>= next = next value

-- the value of the first is not used
abbrev pub ◌>>◌ {ℓ} : {T : Type ℓ} → Result (Unit {0}) → Result T → Result T
first >> then_ = first >>= λ _. then_

-- `if not test: raise x`
abbrev pub require : Bool → Exc → Result (Unit {0})
require true x = ok tt
require false x = raise x

-- `assert value is not None`
abbrev pub assert_some {ℓ} : {A : Type ℓ} → Option A → Result A
assert_some none = raise other
assert_some (some a) = ok a

pub ok_injective {ℓ} : {A : Type ℓ} {a b : A} → ok a ≡ ok b → a ≡ b
ok_injective h = cc

-- Inversion of a successful bind.
pub bind-eq-ok {ℓ κ} :
    {A : Type ℓ} {B : Type κ} (first : Result A) (next : A → Result B) {out : B}
    → (first >>= next) ≡ ok out
    → (value : A) × (first ≡ ok value) × (next value ≡ ok out)
bind-eq-ok (raise x) next ends = cc
bind-eq-ok (ok value) next ends = (value, refl, ends)

pub assert_some-eq-ok {ℓ} : {A : Type ℓ} {o : Option A} {a : A} → assert_some o ≡ ok a → o ≡ some a
assert_some-eq-ok {o = none} h = cc
assert_some-eq-ok {o = some b} h = cc

pub require-eq-ok : (b : Bool) (x : Exc) {u : Unit {0}} → require b x ≡ ok u → b ≡ true
require-eq-ok true x h = refl
require-eq-ok false x h = cc

pub Result-cases {ℓ} :
    {A : Type ℓ} (r : Result A) → ((a : A) × (r ≡ ok a)) ⊎ ((x : Exc) × (r ≡ raise x))
Result-cases (ok a) = inl (a, refl)
Result-cases (raise x) = inr (x, refl)
