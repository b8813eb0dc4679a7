-- ===== src/Base/Faults.antt =====
-- The outcome of code that may stop the process: a value, or the fault that it meets.
use mathlib.Core.Path.{◌≡◌, refl}
use mathlib.Core.Bool.{Bool, true, false}

-- `assert_failed` is a `WAVM_ASSERT` (or an `OrFail` operation of a map) that does not hold;
-- `dangling` is an access through a null or a freed pointer, `out_of_bounds` one outside of a block
-- or of its writable pages; `thrown` is a C++ exception, `overflow` signed arithmetic that leaves the range of
-- its type, and `stuck` a loop that does not end.
pub data Fault : Type 0 where
  assert_failed dangling out_of_bounds thrown overflow stuck : Fault

pub data Outcome {ℓ} (A : Type ℓ) : Type ℓ where
  ok : A → Outcome A
  fault : Fault → Outcome A

infixl 5 ◌>>=◌ ◌>>◌
abbrev pub ◌>>=◌ {ℓ κ} : {A : Type ℓ} {B : Type κ} → Outcome A → (A → Outcome B) → Outcome B
ok a >>= f = f a
fault e >>= f = fault e

abbrev pub ◌>>◌ {ℓ} : {B : Type ℓ} → Outcome (Unit {0}) → Outcome B → Outcome B
m >> k = m >>= λ _. k

-- `WAVM_ASSERT(b)`
abbrev pub assert : Bool → Outcome (Unit {0})
assert true = ok tt
assert false = fault assert_failed

-- `if (!b) throw ...;`
abbrev pub throw_unless : Bool → Outcome (Unit {0})
throw_unless true = ok tt
throw_unless false = fault thrown

-- Signed arithmetic whose result is in range.
abbrev pub no_overflow : Bool → Outcome (Unit {0})
no_overflow true = ok tt
no_overflow false = fault overflow

-- An access that is within its bounds.
abbrev pub in_bounds : Bool → Outcome (Unit {0})
in_bounds true = ok tt
in_bounds false = fault out_of_bounds

-- What a chain that returns has gone through.
pub bind-ok {ℓ κ} :
    {A : Type ℓ} {B : Type κ} (m : Outcome A) (k : A → Outcome B) (b : B)
    → (m >>= k) ≡ ok b
    → (a : A) × (m ≡ ok a) × (k a ≡ ok b)
bind-ok (ok a) k b e = (a, refl, e)
bind-ok (fault x) k b e = cc
