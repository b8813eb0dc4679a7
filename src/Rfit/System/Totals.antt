-- ===== src/Rfit/System/Totals.antt =====
-- Sums over the threads, and what a change of one thread does to them.
use tpfaas.Base.{ℕ, zero, suc, ◌+◌, ◌≤◌, ◌<◌, ◌≡◌, refl, arith, dec_lt}
use tpfaas.Rfit.World.{update}

module _ {ℓ} {A : Type ℓ} (w : A → ℕ) where
  unfoldable pub total : ℕ → (ℕ → A) → ℕ
  total zero g = 0
  total (suc n) g = total n g + w (g n)

  pub total-update_of_le :
      (n : ℕ) (g : ℕ → A) (k : ℕ) (a : A) → n ≤ k → total n (update g k a) ≡ total n g
  unfolding total
  total-update_of_le zero g k a h = refl
  total-update_of_le (suc n) g k a h = ground (arith, total-update_of_le n g k a)

  pub total-update :
      (n : ℕ) (g : ℕ → A) (k : ℕ) (a : A)
      → k < n
      → total n (update g k a) + w (g k) ≡ total n g + w a
  unfolding total
  total-update zero g k a h = absurd (omega arith)
  total-update (suc n) g k a h = elim (dec_lt k n) [
    | yes below ↦ ground (arith, total-update n g k a below)
    | no last ↦ ground (arith, total-update_of_le n g k a)
  ]

  pub total-append : (n : ℕ) (g : ℕ → A) (a : A) → total (suc n) (update g n a) ≡ total n g + w a
  unfolding total
  total-append n g a = ground (arith, total-update_of_le n g n a)

  -- Two different threads weigh no more than all.
  pub le-total : (n : ℕ) (g : ℕ → A) (k : ℕ) → k < n → w (g k) ≤ total n g
  unfolding total
  le-total zero g k h = absurd (omega arith)
  le-total (suc n) g k h = elim (dec_lt k n) [
    | yes below ↦ omega (arith, le-total n g k below)
    | no last ↦ ground arith
  ]

  pub two-le-total : (n : ℕ) (g : ℕ → A) (j k : ℕ) → j < k → k < n → w (g j) + w (g k) ≤ total n g
  unfolding total
  two-le-total zero g j k h lt = absurd (omega arith)
  two-le-total (suc n) g j k h lt = elim (dec_lt k n) [
    | yes below ↦ omega (arith, two-le-total n g j k h below)
    | no last ↦ ground (arith, le-total n g j)
  ]
