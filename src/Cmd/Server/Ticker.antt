-- ===== src/Cmd/Server/Ticker.antt =====
-- The ticker that cmd/hologram-server/main.go starts to reload the cache.
use hologram.Prelude.{
  ℕ, ◌≡◌, ◌⊎◌, inl, inr, ◌-◌, ◌≤◌, ◌<◌, ◌*◌, ◌%◌, ◌==◌, leb, ◌||◌, Option, none, some,
  if◌then◌else◌, arith,
}

-- time.Duration(config.CacheTimeout) * time.Second, in 64 bits
unfoldable pub period : ℕ → ℕ
period timeout = timeout * 1000000000 % 18446744073709551616

-- `time.NewTicker` panics unless the duration is positive; `none` stands for that.
unfoldable pub new_ticker : ℕ → Option ℕ
new_ticker duration =
    if duration == 0 || leb 9223372036854775808 duration then none else some duration

ticker_of : (d : ℕ) → 1 ≤ d → d < 9223372036854775808 → new_ticker d ≡ some d
unfolding new_ticker
ticker_of d a b = ground arith

no_ticker : (d : ℕ) → (d ≡ 0) ⊎ (9223372036854775808 ≤ d) → new_ticker d ≡ none
unfolding new_ticker
no_ticker d (inl e) = ground arith
no_ticker d (inr h) = ground arith

-- The period of a positive timeout is exact up to 2^64 nanoseconds.
period_exact : (t : ℕ) → t ≤ 18446744073 → period t ≡ t * 1000000000
unfolding period
period_exact t h = omega arith

period_negative :
    (n : ℕ)
    → 1 ≤ n
    → n ≤ 9223372036
    → period (18446744073709551616 - n) ≡ 18446744073709551616 - n * 1000000000
unfolding period
period_negative n a b = omega arith

trichotomy : (t : ℕ) → (t ≡ 0) ⊎ (((1 ≤ t) × (t ≤ 9223372036)) ⊎ (9223372036 < t))
trichotomy t = ground arith

-- For a timeout of at most 18446744073 seconds, the ticker starts with just this period if the timeout
-- is from 1 to 9223372036, and otherwise, also for the 0 of a configuration that names none,
-- `NewTicker` panics.
pub new_ticker-period :
    (timeout : ℕ)
    → timeout ≤ 18446744073
    → ((1 ≤ timeout)
        × (timeout ≤ 9223372036)
        × (new_ticker (period timeout) ≡ some (timeout * 1000000000)))
      ⊎ (((timeout ≡ 0) ⊎ (9223372036 < timeout)) × (new_ticker (period timeout) ≡ none))
new_ticker-period timeout h = rw (period_exact timeout h) (elim (trichotomy timeout) [
  | inl z ↦ inr (inl z, no_ticker _ (inl (omega arith)))
  | inr (inl m) ↦ inl (m.0, m.1, ticker_of _ (omega arith) (omega arith))
  | inr (inr l) ↦ inr (inr l, no_ticker _ (inr (omega arith)))
])

-- It panics for a negative timeout too.
pub new_ticker_negative :
    (n : ℕ) → 1 ≤ n → n ≤ 9223372036 → new_ticker (period (18446744073709551616 - n)) ≡ none
new_ticker_negative n a b = rw (period_negative n a b) (no_ticker _ (inr (omega arith)))
