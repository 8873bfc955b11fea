-- ===== src/Resilience/Breaker/Invariant.antt =====
-- The invariant of a breaker of src/agentic_local_app/resilience/circuit_breaker.py, call by call.
use agentic_local_app.Base.{
  ℕ, ◌≤◌, ◌<◌, ◌≡◌, ◌≢◌, Bool, Option, true, arith, is_some, Result, ok, err, false,
}
use agentic_local_app.Domain.States.{CircuitState}
use agentic_local_app.Resilience.Breaker.{
  Config, Breaker, fresh, allow, record_success, record_failure, World, BreakerError, invalid_state,
  publish_failed, Outcome,
}

-- The bounds that `CircuitBreakerSection` puts on its fields (`ge=1`, `gt=0`, `ge=1`).
pub record IsConfig (c : Config) : Type 0 where
  pub threshold_pos : 0 < c.failure_threshold
  pub duration_pos : 0 < c.open_duration_ms
  pub calls_pos : 0 < c.half_open_max_calls

pub record IsValid (c : Config) (b : Breaker) : Type 0 where
  pub closed_below : b.state ≡ CircuitState.closed → b.consecutive_failures < c.failure_threshold
  pub tripped_above : b.state ≢ CircuitState.closed → c.failure_threshold ≤ b.consecutive_failures
  pub tripped_at : b.state ≢ CircuitState.closed → is_some b.opened_at_ms ≡ true
  pub trials : b.half_open_calls ≤ c.half_open_max_calls
  pub no_trial : b.state ≢ CircuitState.half_open → b.half_open_calls ≡ 0

pub fresh-IsValid :
    (c : Config) (has_bus : Bool) (sid : Option ℕ) → IsConfig c → IsValid c (fresh has_bus sid)
fresh-IsValid c has_bus sid h = ground arith

-- A call raises only what a critical subscriber raised.
abbrev pub RaisesOnly : {A : Type 0} → World → Result BreakerError A → Type 0
RaisesOnly w (ok a) = Unit
RaisesOnly w (err (invalid_state e)) = ⊥
RaisesOnly w (err publish_failed) = w.bus_accepts ≡ false

-- What a call leaves, whether it returns or raises.
abbrev pub IsSafe : {A : Type 0} → Config → World → Outcome A → Type 0
IsSafe c w r = IsValid c r.0 × RaisesOnly w r.1

pub allow-IsSafe :
    (c : Config) (w : World) (b : Breaker) → IsConfig c → IsValid c b → IsSafe c w (allow c w b)
unfolding allow
allow-IsSafe c w b k v = ground arith

pub record_success-IsSafe :
    (c : Config) (w : World) (b : Breaker)
    → IsConfig c
    → IsValid c b
    → IsSafe c w (record_success w b)
unfolding record_success
record_success-IsSafe c w b k v = ground arith

pub record_failure-IsSafe :
    (c : Config) (w : World) (b : Breaker)
    → IsConfig c
    → IsValid c b
    → IsSafe c w (record_failure c w b)
unfolding record_failure
record_failure-IsSafe c w b k v = ground arith
