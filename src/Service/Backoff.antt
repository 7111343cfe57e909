-- ===== src/Service/Backoff.antt =====
-- host/service/src/service.rs: the bounds of the wait between two proactive turns.
use scufris.Base.{ℕ, zero, suc, ◌+◌, ◌-◌, ◌*◌, ◌^◌, ◌≤◌, ◌≡◌, ap, arith}
use scufris.Service.{lower, proactive_backoff, proactive_backoff_min, proactive_backoff_max}

lower-least : (a b : ℕ) → b ≤ a → lower a b ≡ b
lower-least a b h = ground arith

saturated : (n : ℕ) → 5 ≤ n → proactive_backoff n ≡ proactive_backoff_max
unfolding proactive_backoff
saturated n h =
    ap (λ exponent. lower (proactive_backoff_min * 2 ^ exponent) proactive_backoff_max)
      (lower-least (n - 1) 4 (omega arith))

both_saturated :
    (a b : ℕ)
    → a ≡ proactive_backoff_max
    → b ≡ proactive_backoff_max
    → (proactive_backoff_min ≤ a) × (a ≤ proactive_backoff_max) × (a ≤ b)
both_saturated a b e e' = (omega arith, omega arith, omega arith)

-- The wait is between two and thirty seconds, and it never shrinks with one more completed turn.
pub proactive_backoff-bounds :
    (completed : ℕ)
    → (proactive_backoff_min ≤ proactive_backoff completed)
      × (proactive_backoff completed ≤ proactive_backoff_max)
      × (proactive_backoff completed ≤ proactive_backoff (completed + 1))
unfolding proactive_backoff
proactive_backoff-bounds zero = (omega arith, omega arith, omega arith)
proactive_backoff-bounds (suc zero) = (omega arith, omega arith, omega arith)
proactive_backoff-bounds (suc (suc zero)) = (omega arith, omega arith, omega arith)
proactive_backoff-bounds (suc (suc (suc zero))) = (omega arith, omega arith, omega arith)
proactive_backoff-bounds (suc (suc (suc (suc zero)))) = (omega arith, omega arith, omega arith)
proactive_backoff-bounds (suc (suc (suc (suc (suc n))))) =
    both_saturated _ _ (saturated (suc (suc (suc (suc (suc n))))) (omega arith))
      (saturated (suc (suc (suc (suc (suc n)))) + 1) (omega arith))
