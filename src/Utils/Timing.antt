-- ===== src/Utils/Timing.antt =====
-- src/utils/timing.cpp: the conversions between a `timespec` and a count of nanoseconds. Times are
-- not negative.
use tpfaas.Base.{ℕ, ◌+◌, ◌*◌, ◌/◌, ◌%◌, ◌^◌, ◌<◌, ◌≡◌, arith}

pub record Timespec : Type 0 where
  pub tv_sec : ℕ
  pub tv_nsec : ℕ

-- `timespecToNanos`: both sums are kept in a `uint64_t`.
unfoldable pub timespec_to_nanos : Timespec → ℕ
timespec_to_nanos native_timespec =
    let nanos = (native_timespec.tv_sec * 1000000000) % 2 ^ 64 in
    (nanos + native_timespec.tv_nsec) % 2 ^ 64

-- `nanosToTimespec`
unfoldable pub nanos_to_timespec : ℕ → Timespec
nanos_to_timespec nanos = record { tv_sec = nanos / 1000000000; tv_nsec = nanos % 1000000000 }

-- Below 2^63 nanoseconds, where the product of `timespecToNanos` fits a `long`, the conversions are
-- inverse to each other: on every count, and on every `timespec` with less than a second of
-- nanoseconds.
pub nanos_round_trip :
    (nanos : ℕ) (ts : Timespec)
    → nanos < 2 ^ 63
    → ts.tv_nsec < 1000000000
    → ts.tv_sec * 1000000000 + ts.tv_nsec < 2 ^ 63
    → (timespec_to_nanos (nanos_to_timespec nanos) ≡ nanos)
      × (nanos_to_timespec (timespec_to_nanos ts) ≡ ts)
unfolding timespec_to_nanos nanos_to_timespec
nanos_round_trip nanos ts small part fits =
    let sum : timespec_to_nanos ts ≡ ts.tv_sec * 1000000000 + ts.tv_nsec = omega arith in
    let sec : timespec_to_nanos ts / 1000000000 ≡ ts.tv_sec = omega arith in
    let nsec : timespec_to_nanos ts % 1000000000 ≡ ts.tv_nsec = omega arith in
    (omega arith, λ i. record { tv_sec = sec i; tv_nsec = nsec i })
