-- ===== src/Resilience/Retry/Backoff.antt =====
-- The backoff schedule without jitter.
use native.Mathlib.Nat.{pow-suc, mul_left_comm}
use agentic_local_app.Base.{
  ℕ, zero, suc, ◌-◌, ◌*◌, ◌^◌, ◌≤◌, min, ◌≡◌, refl, none, List, [], ◌∷◌, arith, ltb, false, length,
  All, Result, ok, err, ◌>>=◌, Returns,
}
use agentic_local_app.Resilience.Retry.{
  RetryConfig, RetryError, range_from, delay_ms, delays, schedule,
}

-- The delay of attempt `k + 1` in closed form.
abbrev backoff : RetryConfig → ℕ → ℕ
backoff c k = min (c.base_delay_ms * 2 ^ k) c.max_delay_ms

delay_ms-backoff :
    (c : RetryConfig) (k : ℕ) → c.jitter ≡ none → delay_ms c (suc k) ≡ ok (backoff c k)
unfolding delay_ms
delay_ms-backoff c k j = rw (above_one k, j, suc_minus_one k)
  where
    above_one : (n : ℕ) → ltb (suc n) 1 ≡ false
    above_one n = ground arith

    suc_minus_one : (n : ℕ) → suc n - 1 ≡ n
    suc_minus_one n = omega arith

pow_double : (k : ℕ) → 2 ^ suc k ≡ 2 * 2 ^ k
pow_double k = omega (arith, pow-suc 2 k)

backoff-suc : (c : RetryConfig) (k : ℕ) → backoff c (suc k) ≡ min (2 * backoff c k) c.max_delay_ms
backoff-suc c k = rw (pow_double k) (omega (arith, mul_left_comm c.base_delay_ms 2 (2 ^ k)))

-- Each delay is twice the one before, up to the cap.
abbrev pub Doubles : RetryConfig → ℕ → List ℕ → Type 0
Doubles c d [] = Unit
Doubles c d (x ∷ xs) = (x ≡ min (2 * d) c.max_delay_ms) × Doubles c x xs

abbrev pub BacksOff : RetryConfig → List ℕ → Type 0
BacksOff c [] = Unit
BacksOff c (x ∷ xs) = (x ≡ min c.base_delay_ms c.max_delay_ms) × Doubles c x xs

-- What is stated of the delays that come after a delay `d`, or first.
abbrev After : RetryConfig → ℕ → ℕ → List ℕ → Type 0
After c n d ds = (length ds ≡ n) × Doubles c d ds × All (λ x. x ≤ c.max_delay_ms) ds

delays-After :
    (c : RetryConfig) (n k : ℕ)
    → c.jitter ≡ none
    → Returns (After c n (backoff c k)) (delays c (range_from (suc (suc k)) n))
unfolding delays
delays-After c zero k j = (refl, tt, tt)
delays-After c (suc n) k j =
    rw (delay_ms-backoff c (suc k) j) (prepend (delays c _) (delays-After c n (suc k) j))
  where
    prepend :
        (r : Result RetryError (List ℕ))
        → Returns (After c n (backoff c (suc k))) r
        → Returns (After c (suc n) (backoff c k)) (r >>= λ ds. ok (backoff c (suc k) ∷ ds))
    prepend (ok ds) h = (omega (arith, h.0), (backoff-suc c k, h.1), (omega arith, h.2))
    prepend (err e) h = h

-- Without jitter the schedule has one delay for each retry; the first is the base delay and each
-- further one is twice the one before, all capped at `max_delay_ms`, which none exceeds.
pub schedule-BacksOff :
    (c : RetryConfig)
    → c.jitter ≡ none
    → Returns
        (λ ds. (length ds ≡ c.max_attempts - 1) × BacksOff c ds × All (λ x. x ≤ c.max_delay_ms) ds)
        (schedule c)
unfolding schedule delays
schedule-BacksOff c j = first (c.max_attempts - 1)
  where
    Spec : ℕ → List ℕ → Type 0
    Spec n ds = (length ds ≡ n) × BacksOff c ds × All (λ x. x ≤ c.max_delay_ms) ds

    prepend :
        (n : ℕ) (r : Result RetryError (List ℕ))
        → Returns (After c n (backoff c 0)) r
        → Returns (Spec (suc n)) (r >>= λ ds. ok (backoff c 0 ∷ ds))
    prepend n (ok ds) h = (omega (arith, h.0), (omega arith, h.1), (omega arith, h.2))
    prepend n (err e) h = h

    first : (n : ℕ) → Returns (Spec n) (delays c (range_from 1 n))
    first zero = (refl, tt, tt)
    first (suc n) = rw (delay_ms-backoff c 0 j) (prepend n (delays c _) (delays-After c n 0 j))
