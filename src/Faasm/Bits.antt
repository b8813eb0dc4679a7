-- ===== src/Faasm/Bits.antt =====
-- `&` and `|` on unsigned integers of a number of bits.
use tpfaas.Base.{
  ℕ, zero, suc, ◌+◌, ◌*◌, ◌/◌, ◌%◌, ◌≤◌, ◌≡◌, refl, Bool, not, arith, ◌==◌, ◌&&◌, ◌||◌,
  if◌then◌else◌, Bool-cases, inl, inr,
}

-- Whether a number is odd, as its last bit.
abbrev pub last_bit : ℕ → ℕ
last_bit n = n % 2

-- The bit with that position.
unfoldable pub bit : ℕ → ℕ → ℕ
bit zero n = last_bit n
bit (suc i) n = bit i (n / 2)

unfoldable pub bit_and : ℕ → ℕ → ℕ → ℕ
bit_and zero a b = 0
bit_and (suc w) a b =
    let rest = bit_and w (a / 2) (b / 2) in
    if last_bit a == 1 && last_bit b == 1 then 2 * rest + 1 else 2 * rest

unfoldable pub bit_or : ℕ → ℕ → ℕ → ℕ
bit_or zero a b = 0
bit_or (suc w) a b =
    let rest = bit_or w (a / 2) (b / 2) in
    if last_bit a == 1 || last_bit b == 1 then 2 * rest + 1 else 2 * rest

-- `if (a & b)`
unfoldable pub has_bits : ℕ → ℕ → Bool
unfolding bit_and
has_bits a b = not (bit_and 64 a b == 0)

bit_zero : (i : ℕ) → bit i 0 ≡ 0
unfolding bit
bit_zero zero = refl
bit_zero (suc i) = bit_zero i

half_odd : (x : ℕ) → (2 * x + 1) / 2 ≡ x
half_odd x = omega arith

half_even : (x : ℕ) → 2 * x / 2 ≡ x
half_even x = omega arith

-- A bit of `a & b` is one of `b`.
pub bit-bit_and : (w i a b : ℕ) → bit i (bit_and w a b) ≤ bit i b
unfolding bit bit_and
bit-bit_and zero i a b = rw (bit_zero i) (omega arith)
bit-bit_and (suc w) zero a b = ground arith
bit-bit_and (suc w) (suc i) a b =
    let ih = bit-bit_and w i (a / 2) (b / 2) in
    elim (Bool-cases (last_bit a == 1 && last_bit b == 1)) [
      | inl both ↦ rw (both, half_odd (bit_and w (a / 2) (b / 2))) ih
      | inr not_both ↦ rw (not_both, half_even (bit_and w (a / 2) (b / 2))) ih
    ]
