-- ===== src/Resilience/Breaker/Trials.antt =====
-- Sequences of calls on one breaker.
use native.Mathlib.Nat.{add-zero, zero-add}
use agentic_local_app.Base.{
  length, ℕ, suc, ◌+◌, ◌≤◌, ◌<◌, ◌≡◌, refl, ◌⊎◌, inl, Bool, Option, List, [], ◌∷◌, arith,
  if◌then◌else◌, Result, ok, err, chain,
}
use agentic_local_app.Domain.States.{CircuitState}
use agentic_local_app.Resilience.Breaker.{
  Config, Breaker, Outcome, fresh, allow, record_success, record_failure, World, BreakerError,
  invalid_state, publish_failed,
}
use agentic_local_app.Resilience.Breaker.Invariant.{
  IsConfig, IsValid, fresh-IsValid, RaisesOnly, IsSafe, allow-IsSafe, record_success-IsSafe,
  record_failure-IsSafe,
}

pub data Call : Type 0 where
  allow_at success_at failure_at : World → Call

abbrev pub world_of : Call → World
world_of (allow_at w) = w
world_of (success_at w) = w
world_of (failure_at w) = w

abbrev one_if : Bool → ℕ
one_if granted = if granted then 1 else 0

-- One call, with one more granted call counted where `allow` answers yes.
unfoldable pub perform : Config → Call → Breaker → Outcome ℕ
perform c (allow_at w) b = chain (allow c w b) (λ b' granted. (b', ok (one_if granted)))
perform c (success_at w) b = chain (record_success w b) (λ b' _. (b', ok 0))
perform c (failure_at w) b = chain (record_failure c w b) (λ b' _. (b', ok 0))

-- A call that raises grants nothing.
abbrev pub granted_by : Result BreakerError ℕ → ℕ
granted_by (ok n) = n
granted_by (err e) = 0

-- One call after the other on the same breaker, also after one that raised.
unfoldable pub perform_all : Config → List Call → Breaker × ℕ → Breaker × ℕ
perform_all c [] r = r
perform_all c (x ∷ xs) r =
    let r' = perform c x r.0 in perform_all c xs (r'.0, r.1 + granted_by r'.1)

-- The invariant holds before and after every call, and a call raises only what a critical subscriber of the
-- bus raised.
abbrev pub IsSafeThroughout : Config → List Call → Breaker → Type 0
IsSafeThroughout c [] b = IsValid c b
IsSafeThroughout c (x ∷ xs) b =
    IsValid c b
    × RaisesOnly (world_of x) (perform c x b).1
    × IsSafeThroughout c xs (perform c x b).0

chain-IsSafe :
    {A : Type 0} (c : Config) (w : World) (r : Outcome A) (f : A → ℕ)
    → IsSafe c w r
    → IsSafe c w (chain r (λ b' a. (b', ok (f a))))
chain-IsSafe c w (b, ok a) f h = h
chain-IsSafe c w (b, err (invalid_state e)) f h = h
chain-IsSafe c w (b, err publish_failed) f h = h

perform-IsSafe :
    (c : Config) (x : Call) (b : Breaker)
    → IsConfig c
    → IsValid c b
    → IsSafe c (world_of x) (perform c x b)
unfolding perform
perform-IsSafe c (allow_at w) b k v = chain-IsSafe c w (allow c w b) one_if (allow-IsSafe c w b k v)
perform-IsSafe c (success_at w) b k v =
    chain-IsSafe c w (record_success w b) (λ _. 0) (record_success-IsSafe c w b k v)
perform-IsSafe c (failure_at w) b k v =
    chain-IsSafe c w (record_failure c w b) (λ _. 0) (record_failure-IsSafe c w b k v)

perform_all-IsSafeThroughout :
    (c : Config) (xs : List Call) (b : Breaker) → IsConfig c → IsValid c b → IsSafeThroughout c xs b
perform_all-IsSafeThroughout c [] b k v = v
perform_all-IsSafeThroughout c (x ∷ xs) b k v =
    let (valid, raised) = perform-IsSafe c x b k v in
    (v, raised, perform_all-IsSafeThroughout c xs (perform c x b).0 k valid)

-- From a new breaker under a valid configuration, no sequence of calls at any clock readings and with any
-- answers of the bus ever meets an invalid transition: a call raises only where a critical subscriber refuses its
-- event. The breaker satisfies the invariant after every call, those that raise included.
pub calls-IsSafeThroughout :
    (c : Config) (xs : List Call) (has_bus : Bool) (sid : Option ℕ)
    → IsConfig c
    → IsSafeThroughout c xs (fresh has_bus sid)
calls-IsSafeThroughout c xs has_bus sid k =
    perform_all-IsSafeThroughout c xs (fresh has_bus sid) k (fresh-IsValid c has_bus sid k)

abbrev pub allows : List World → List Call
allows [] = []
allows (w ∷ ws) = allow_at w ∷ allows ws

-- No result has been recorded since the breaker opened: nothing was granted yet, or the trial
-- calls of the half-open state are those granted.
abbrev Waits : Config → Breaker × ℕ → Type 0
Waits c (b, n) =
    (b.state ≡ CircuitState.opened) × (n ≡ 0)
    ⊎ (b.state ≡ CircuitState.half_open)
      × (b.half_open_calls ≤ c.half_open_max_calls)
      × (n ≤ b.half_open_calls)

allow-Waits :
    (c : Config) (w : World) (b : Breaker) (n : ℕ)
    → IsConfig c
    → Waits c (b, n)
    → let r = perform c (allow_at w) b in Waits c (r.0, n + granted_by r.1)
unfolding perform allow
allow-Waits c w b n k h = ground arith

allows-Waits :
    (c : Config) (ws : List World) (r : Breaker × ℕ)
    → IsConfig c
    → Waits c r
    → Waits c (perform_all c (allows ws) r)
unfolding perform_all
allows-Waits c [] r k h = h
allows-Waits c (w ∷ ws) r k h =
    let r' = perform c (allow_at w) r.0 in
    allows-Waits c ws (r'.0, r.1 + granted_by r'.1) k (allow-Waits c w r.0 r.1 k h)

Waits-bound : (c : Config) (r : Breaker × ℕ) → Waits c r → r.1 ≤ c.half_open_max_calls
Waits-bound c r w = ground arith

-- However often an open breaker is asked, at whatever times and whatever the bus answers, at most
-- `half_open_max_calls` calls are granted until a result is recorded.
pub open_trials_bounded :
    (c : Config) (ws : List World) (b : Breaker)
    → IsConfig c
    → b.state ≡ CircuitState.opened
    → (perform_all c (allows ws) (b, 0)).1 ≤ c.half_open_max_calls
open_trials_bounded c ws b k s =
    Waits-bound c (perform_all c (allows ws) (b, 0)) (allows-Waits c ws (b, 0) k (inl (s, refl)))

abbrev pub failures : List World → List Call
failures [] = []
failures (w ∷ ws) = failure_at w ∷ failures ws

-- What a run of consecutive failures leaves.
abbrev pub Tripped : Config → ℕ → Breaker → Type 0
Tripped c k b =
    (b.consecutive_failures ≡ k)
    × (k < c.failure_threshold → b.state ≡ CircuitState.closed)
    × (c.failure_threshold ≤ k → b.state ≡ CircuitState.opened)

failure-Tripped :
    (c : Config) (w : World) (b : Breaker) (k : ℕ)
    → Tripped c k b
    → Tripped c (k + 1) (perform c (failure_at w) b).0
unfolding perform record_failure
failure-Tripped c w b k h = ground arith

failures-Tripped :
    (c : Config) (ws : List World) (r : Breaker × ℕ) (k : ℕ)
    → Tripped c k r.0
    → Tripped c (k + length ws) (perform_all c (failures ws) r).0
unfolding perform_all
failures-Tripped c [] r k h = rw add-zero h
failures-Tripped c (w ∷ ws) r k h =
    let r' = perform c (failure_at w) r.0 in
    rw (shift k (length ws))
      (failures-Tripped c ws (r'.0, r.1 + granted_by r'.1) (k + 1) (failure-Tripped c w r.0 k h))
  where
    shift : (a b : ℕ) → a + suc b ≡ (a + 1) + b
    shift a b = omega arith

-- After `length ws` failures in a row, whatever the bus answers, a new breaker is closed exactly while that
-- number is below the threshold, and open from then on.
pub failures_open :
    (c : Config) (ws : List World) (has_bus : Bool) (sid : Option ℕ)
    → IsConfig c
    → Tripped c (length ws) (perform_all c (failures ws) (fresh has_bus sid, 0)).0
failures_open c ws has_bus sid k = rw (← zero-add (length ws)) (
    failures-Tripped c ws (fresh has_bus sid, 0) 0
      (refl, (λ h. refl), (λ h. absurd (omega (arith, h, k.threshold_pos)))))
