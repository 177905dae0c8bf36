-- ===== src/Base/Calls.antt =====
-- What a call of the program may end with besides a value.
use Prim.Native.Nat.{ℕ}
use mathlib.Core.List.{List}
use mathlib.Core.Path.{◌≡◌, refl}
use mathlib.Core.Logic.{◌⊎◌, inl, inr}
use mathlib.Core.Option.{Option, none, some}

-- `runtime_error`, `out_of_range` and the names with `bad` are the C++ exceptions; `terminates` is `std::terminate`, which
-- ends the program. `undefined` is no exception: the standard gives the call no meaning there (a null
-- pointer or an empty optional is dereferenced).
pub data Fault : Type 0 where
  runtime_error out_of_range bad_variant_access bad_any_cast bad_function_call : Fault
  undefined terminates : Fault

-- Text on `std::cout` or on `std::cerr`.
pub data Output : Type 0 where
  to_cout to_cerr : List ℕ → Output

pub data Result {ℓ} (A : Type ℓ) : Type ℓ where
  ok : A → Result A
  err : Fault → Result A

infixl 5 ◌>>=◌
abbrev pub ◌>>=◌ {ℓ κ} : {A : Type ℓ} {B : Type κ} → Result A → (A → Result B) → Result B
ok a >>= f = f a
err e >>= f = err e

-- The value of an optional, or the fault of a call that needs one.
abbrev pub or_fail {ℓ} : {A : Type ℓ} → Option A → Fault → Result A
or_fail none e = err e
or_fail (some a) e = ok a

pub Result-cases {ℓ} :
    {A : Type ℓ} (r : Result A) → ((a : A) × (r ≡ ok a)) ⊎ ((e : Fault) × (r ≡ err e))
Result-cases (ok a) = inl (a, refl)
Result-cases (err e) = inr (e, refl)
