-- ===== src/Base/Results.antt =====
-- Exceptions as values: the class that the code throws, and its message.
use mathlib.Core.Path.{◌≡◌, refl}
use mathlib.Core.Logic.{◌⊎◌, inl, inr}
use mathlib.Core.Bool.{Bool, true, false}
use mathlib.Core.Option.{Option, none, some}
use duckdb_loki.Base.Text.{Bytes}

pub data Exception : Type 0 where
  invalid_argument out_of_range runtime_error : Bytes → Exception
  binder_exception io_exception catalog_exception : Bytes → Exception
  invalid_input_exception not_implemented_exception : Bytes → Exception

pub data Result {ℓ} (A : Type ℓ) : Type ℓ where
  ok : A → Result A
  throw : Exception → Result A

infixl 5 ◌>>=◌ ◌>>◌
abbrev pub ◌>>=◌ {ℓ κ} : {A : Type ℓ} {B : Type κ} → Result A → (A → Result B) → Result B
ok a >>= f = f a
throw e >>= f = throw e

abbrev pub ◌>>◌ {ℓ} : {B : Type ℓ} → Result (Unit {0}) → Result B → Result B
m >> k = m >>= λ _. k

-- `if (test) throw e;`
abbrev pub throw_if : Bool → Exception → Result (Unit {0})
throw_if true e = throw e
throw_if false e = ok tt

-- The value of an option, or an exception where there is none.
abbrev pub or_throw {ℓ} : {A : Type ℓ} → Option A → Exception → Result A
or_throw none e = throw e
or_throw (some a) e = ok a

-- What comes of a computation that may crash the process, and what follows where it does not.
abbrev pub Crashing {ℓ} : Type ℓ → Type ℓ
Crashing A = Option (Result A)

abbrev pub and_then {ℓ κ} : {A : Type ℓ} {B : Type κ} → Crashing A → (A → Crashing B) → Crashing B
and_then none f = none
and_then (some (throw e)) f = some (throw e)
and_then (some (ok a)) f = f a

-- What must have come before, where a chain succeeds.
pub bind_ok {ℓ κ} :
    {A : Type ℓ} {B : Type κ} (m : Result A) (f : A → Result B) (b : B)
    → (m >>= f) ≡ ok b
    → (a : A) × (m ≡ ok a) × (f a ≡ ok b)
bind_ok (ok a) f b h = (a, refl, h)
bind_ok (throw e) f b h = cc

pub throw_if_ok {ℓ} :
    {B : Type ℓ} (test : Bool) (e : Exception) (m : Result B) (b : B)
    → (throw_if test e >> m) ≡ ok b
    → (test ≡ false) × (m ≡ ok b)
throw_if_ok true e m b h = cc
throw_if_ok false e m b h = (refl, h)

pub and_then_ok {ℓ κ} :
    {A : Type ℓ} {B : Type κ} (m : Crashing A) (f : A → Crashing B) (b : B)
    → and_then m f ≡ some (ok b)
    → (a : A) × (m ≡ some (ok a)) × (f a ≡ some (ok b))
and_then_ok none f b h = cc
and_then_ok (some (throw e)) f b h = cc
and_then_ok (some (ok a)) f b h = (a, refl, h)

-- Where a chain throws, its first part does, or what follows it.
pub and_then_throw {ℓ κ} :
    {A : Type ℓ} {B : Type κ} (m : Crashing A) (f : A → Crashing B) (x : Exception)
    → and_then m f ≡ some (throw x)
    → (m ≡ some (throw x)) ⊎ ((a : A) × (m ≡ some (ok a)) × (f a ≡ some (throw x)))
and_then_throw none f x h = cc
and_then_throw (some (throw e)) f x h = inl cc
and_then_throw (some (ok a)) f x h = inr (a, refl, h)
