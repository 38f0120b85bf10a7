-- ===== src/Notification/Outbox/Backoff.antt =====
-- The delay before another attempt.
use mu_5x_fibonacci_trading.Base.{
  ℕ, zero, suc, ◌+◌, ◌-◌, ◌*◌, ◌^◌, ◌≤◌, ◌<◌, ◌≡◌, refl, min, arith, ◌⊎◌, inl, inr,
}
use mu_5x_fibonacci_trading.Notification.Outbox.{retry_delay}

abbrev delay_at : ℕ → ℕ
delay_at e = min 3600 (60 * 2 ^ e) * 1000

-- What holds of the seven exponents.
IsBackoff : ℕ → Type 0
IsBackoff e =
    (60000 ≤ delay_at e)
    × (delay_at e ≤ 3600000)
    × (delay_at e ≤ delay_at (suc e))
    × (delay_at (suc e) ≡ min 3600000 (2 * delay_at e))

backoff : (e : ℕ) → e ≤ 6 → IsBackoff e
unfolding IsBackoff
backoff zero h = (omega arith, omega arith, omega arith, refl)
backoff (suc zero) h = (omega arith, omega arith, omega arith, refl)
backoff (suc (suc zero)) h = (omega arith, omega arith, omega arith, refl)
backoff (suc (suc (suc zero))) h = (omega arith, omega arith, omega arith, refl)
backoff (suc (suc (suc (suc zero)))) h = (omega arith, omega arith, omega arith, refl)
backoff (suc (suc (suc (suc (suc zero))))) h = (omega arith, omega arith, omega arith, refl)
backoff (suc (suc (suc (suc (suc (suc zero)))))) h = (omega arith, omega arith, omega arith, refl)
backoff (suc (suc (suc (suc (suc (suc (suc e))))))) h = absurd (omega (arith, h))

next_exponent :
    (a : ℕ)
    → ((min (a + 1 - 1) 6 ≡ min (a - 1) 6) × (a ≡ 0 ⊎ 6 < a))
      ⊎ ((min (a + 1 - 1) 6 ≡ suc (min (a - 1) 6)) × (min (a - 1) 6 + 1 ≡ a))
next_exponent a = ground arith

grows : (a : ℕ) → retry_delay a ≤ retry_delay (a + 1)
unfolding retry_delay IsBackoff
grows a =
    let (_, _, up, _) = backoff (min (a - 1) 6) (omega arith) in
    elim (next_exponent a) [ inl (same, edge) ↦ rw same (omega arith) | inr (more, e) ↦ rw more up ]

two_attempts :
    (a : ℕ)
    → (min (a + 2 - 1) 6 ≡ suc (min (a + 1 - 1) 6))
      ⊎ ((min (a + 2 - 1) 6 ≡ 6) × (min (a + 1 - 1) 6 ≡ 6))
two_attempts a = ground arith

doubles : (a : ℕ) → retry_delay (a + 2) ≡ min 3600000 (2 * retry_delay (a + 1))
unfolding retry_delay IsBackoff
doubles a =
    let (_, _, _, twice) = backoff (min (a + 1 - 1) 6) (omega arith) in
    elim (two_attempts a) [ inl more ↦ rw more twice | inr (next, same) ↦ rw (next, same) ]

-- The delay is between one minute and one hour, never shrinks with the attempts, and from the first
-- attempt on each delay is twice the one before or the hour, whichever is less.
pub retry_delay_lem :
    (a : ℕ)
    → (60000 ≤ retry_delay a)
      × (retry_delay a ≤ 3600000)
      × (retry_delay a ≤ retry_delay (a + 1))
      × (retry_delay (a + 2) ≡ min 3600000 (2 * retry_delay (a + 1)))
unfolding retry_delay IsBackoff
retry_delay_lem a =
    let (low, high, _, _) = backoff (min (a - 1) 6) (omega arith) in (low, high, grows a, doubles a)
