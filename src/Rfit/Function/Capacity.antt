-- ===== src/Rfit/Function/Capacity.antt =====
-- The count of free places: when `scaleCap` and `tryScaleDownCap` return, and what they leave.
use tpfaas.Base.{
  ℕ, ◌-◌, ◌^◌, ◌≤◌, ◌<◌, ◌≡◌, inl, inr, Bool-cases, Bool, true, false, arith, ℤ, pos, negsuc, ◌+ℤ◌,
  ◌-ℤ◌, ◌≤ℤ◌, ltb_ℤ, ok, fault, assert_failed, overflow,
}
use tpfaas.Rfit.Function.{
  F, is_concurrency, scale_cap, is_iptr, try_scale_down_cap, to_iptr, negate,
}

-- Up to 2^63 a limit keeps its value as an `Iptr`, and `0 - limit` on `Uptr` becomes its negative.
pub to_iptr_small : (n : ℕ) → n < 2 ^ 63 → to_iptr n ≡ pos n
unfolding to_iptr
to_iptr_small n h = ground arith

pub to_iptr-negate : (c : ℕ) → 1 ≤ c → c ≤ 2 ^ 63 → to_iptr (negate c) ≡ negsuc (c - 1)
unfolding to_iptr
to_iptr-negate c h le = ground arith

-- `scaleCap` returns exactly for a concurrent function whose new count is an `Iptr` and not negative.
pub scale_cap_ok :
    (f : F) (z : ℤ)
    → is_concurrency f ≡ true
    → pos 0 ≤ℤ f.rest_cap +ℤ z
    → f.rest_cap +ℤ z ≤ℤ pos (2 ^ 63 - 1)
    → scale_cap f z ≡ ok (f.rest_cap +ℤ z, record f { rest_cap = f.rest_cap +ℤ z })
unfolding scale_cap is_iptr
scale_cap_ok f z c h le = ground arith

pub scale_cap_fault :
    (f : F) (z : ℤ)
    → ¬ (pos 0 ≤ℤ f.rest_cap +ℤ z)
    → negsuc (2 ^ 63 - 1) ≤ℤ f.rest_cap +ℤ z
    → scale_cap f z ≡ fault assert_failed
unfolding scale_cap is_iptr is_concurrency
scale_cap_fault f z h ge = ground arith

pub scale_cap_overflow :
    (f : F) (z : ℤ)
    → is_concurrency f ≡ true
    → ¬ (f.rest_cap +ℤ z ≤ℤ pos (2 ^ 63 - 1))
    → scale_cap f z ≡ fault overflow
unfolding scale_cap is_iptr
scale_cap_overflow f z c h = ground arith

pub scale_cap_inv :
    (f : F) (z : ℤ) (c : ℤ) (f1 : F)
    → scale_cap f z ≡ ok (c, f1)
    → (f1 ≡ record f { rest_cap = f.rest_cap +ℤ z })
      × (pos 0 ≤ℤ f.rest_cap +ℤ z)
      × (f.rest_cap +ℤ z ≤ℤ pos (2 ^ 63 - 1))
unfolding scale_cap is_iptr
scale_cap_inv f z c f1 e = ground arith

pub try_scale_down_cap-true :
    (f f1 : F) (n : ℕ)
    → try_scale_down_cap f (pos n) ≡ ok (true, f1)
    → (f1 ≡ record f { rest_cap = f.rest_cap -ℤ pos n }) × (pos n ≤ℤ f.rest_cap)
unfolding try_scale_down_cap
try_scale_down_cap-true f f1 n e = ground arith

pub try_scale_down_cap-false :
    (f f1 : F) (n : ℕ)
    → try_scale_down_cap f (pos n) ≡ ok (false, f1)
    → (f1 ≡ f) × ¬ (pos n ≤ℤ f.rest_cap)
unfolding try_scale_down_cap
try_scale_down_cap-false f f1 n e = ground arith

-- `tryScaleDownCap` returns for every concurrent function.
pub try_scale_down_cap_returns :
    (f : F) (n : ℕ)
    → is_concurrency f ≡ true
    → (b : Bool) × (f1 : F) × (try_scale_down_cap f (pos n) ≡ ok (b, f1))
unfolding try_scale_down_cap
try_scale_down_cap_returns f n c = elim (Bool-cases (ltb_ℤ f.rest_cap (pos n))) [
  | inl few ↦ (false, f, ground arith)
  | inr enough ↦ (true, record f { rest_cap = f.rest_cap -ℤ pos n }, ground arith)
]

pub try_scale_down_cap_ok :
    (f : F) (n : ℕ)
    → is_concurrency f ≡ true
    → pos n ≤ℤ f.rest_cap
    → try_scale_down_cap f (pos n) ≡ ok (true, record f { rest_cap = f.rest_cap -ℤ pos n })
unfolding try_scale_down_cap
try_scale_down_cap_ok f n c h = ground arith
