-- ===== src/Base/Outcome.antt =====
-- How a run of kernel code ends: with a value, in `PANIC`, which never returns, or by an access
-- outside the object that it indexes, which C leaves undefined.
use mathlib.Core.Bool.{Bool, true, false}
use mathlib.Core.Option.{Option, none, some}

pub data Outcome {ℓ} (A : Type ℓ) : Type ℓ where
  ok : A → Outcome A
  panic : Outcome A
  fault : Outcome A
  out_of_fuel : Outcome A

infixl 5 ◌>>=◌ ◌>>◌
abbrev pub ◌>>=◌ {ℓ κ} : {S : Type ℓ} {R : Type κ} → Outcome S → (S → Outcome R) → Outcome R
panic >>= next = panic
fault >>= next = fault
out_of_fuel >>= next = out_of_fuel
ok result >>= next = next result

-- `ASSERT(b)`: PANIC unless `b` holds.
abbrev pub assert : Bool → Outcome (Unit {0})
assert true = ok tt
assert false = panic

-- A read of an array cell that may lie outside the array.
abbrev pub or_fault {ℓ} : {A : Type ℓ} → Option A → Outcome A
or_fault none = fault
or_fault (some a) = ok a

-- The next step, after one that has no result.
abbrev pub ◌>>◌ {ℓ} : {R : Type ℓ} → Outcome (Unit {0}) → Outcome R → Outcome R
ok done >> next = next
panic >> next = panic
fault >> next = fault
out_of_fuel >> next = out_of_fuel
