-- ===== src/Resilience/Retry.antt =====
-- src/agentic_local_app/resilience/retry_controller.py. The jitter is a factor in floating point on
-- the capped delay: it is a function of that delay here, present where a random source is injected
-- and the ratio is positive.
pub mod Backoff
use native.Mathlib.Nat.{pow-suc}
use agentic_local_app.Base.{
  ℕ, zero, suc, ◌+◌, ◌-◌, ◌*◌, ◌^◌, ◌≤◌, ◌<◌, min, ◌≡◌, refl, Bool, Option, none, some, List, [],
  ◌∷◌, map, arith, if◌then◌else◌, ltb, length, All, Result, ok, err, ◌>>=◌,
}

pub record RetryConfig : Type 0 where
  pub max_attempts : ℕ
  pub base_delay_ms : ℕ
  pub max_delay_ms : ℕ
  pub jitter : Option (ℕ → ℕ)

-- `ValueError`
pub data RetryError : Type 0 where
  attempt_below_one : RetryError

unfoldable pub can_retry : RetryConfig → ℕ → Bool
can_retry c attempt = ltb attempt c.max_attempts

abbrev apply_jitter : Option (ℕ → ℕ) → ℕ → ℕ
apply_jitter none base = base
apply_jitter (some f) base = f base

unfoldable pub delay_ms : RetryConfig → ℕ → Result RetryError ℕ
delay_ms c attempt =
    if ltb attempt 1
    then err attempt_below_one
    else ok (apply_jitter c.jitter (min (c.base_delay_ms * 2 ^ (attempt - 1)) c.max_delay_ms))

-- `range(first, first + count)`
abbrev pub range_from : ℕ → ℕ → List ℕ
range_from first zero = []
range_from first (suc count) = first ∷ range_from (suc first) count

-- `[self.delay_ms(attempt) for attempt in attempts]`
unfoldable pub delays : RetryConfig → List ℕ → Result RetryError (List ℕ)
delays c [] = ok []
delays c (attempt ∷ attempts) = do d ← delay_ms c attempt; ds ← delays c attempts; ok (d ∷ ds)

unfoldable pub schedule : RetryConfig → Result RetryError (List ℕ)
schedule c = delays c (range_from 1 (c.max_attempts - 1))
