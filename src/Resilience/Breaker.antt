-- ===== src/Resilience/Breaker.antt =====
-- src/agentic_local_app/resilience/circuit_breaker.py. The clock's reading and the answer of the event
-- bus are arguments; the events that were published are listed, newest first. A call gives the
-- breaker that it leaves, also where it raises.
pub mod Invariant
pub mod Trials
use agentic_local_app.Base.{
  ℕ, ◌+◌, Bool, true, false, not, ◌&&◌, is_some, Option, none, some, List, [], ◌∷◌, if◌then◌else◌,
  ltb, leb, get_or, ◌is◌, Result, ok, err, ◌>>=◌, chain,
}
use agentic_local_app.Domain.States.{CircuitState}
use agentic_local_app.Domain.Values.{circuit_state_enum}
use agentic_local_app.Domain.Transitions.{circuit_transitions, InvalidTransition, assert_transition}

-- `CircuitBreakerSection`, the part of the configuration.
pub record Config : Type 0 where
  pub failure_threshold : ℕ
  pub open_duration_ms : ℕ
  pub half_open_max_calls : ℕ

-- The event `breaker.state_changed` with its payload, without its wall-clock timestamp.
pub record StateChanged : Type 0 where
  pub from_state : CircuitState
  pub to_state : CircuitState
  pub failures : ℕ
  pub session_id : Option ℕ

-- `has_bus` is whether a bus was given.
pub record Breaker : Type 0 where
  pub state : CircuitState
  pub consecutive_failures : ℕ
  pub opened_at_ms : Option ℕ
  pub half_open_calls : ℕ
  pub has_bus : Bool
  pub session_id : Option ℕ
  pub published : List StateChanged

-- `__init__`
abbrev pub fresh : Bool → Option ℕ → Breaker
fresh has_bus session_id = record {
  state = CircuitState.closed;
  consecutive_failures = 0;
  opened_at_ms = none;
  half_open_calls = 0;
  has_bus = has_bus;
  session_id = session_id;
  published = [];
}

-- What one call meets: a reading of the monotonic clock, and whether the critical subscribers of the
-- bus take the event that it publishes.
pub record World : Type 0 where
  pub now : ℕ
  pub bus_accepts : Bool

-- What a call raises: a transition that the table does not have, or what a critical subscriber raised.
pub data BreakerError : Type 0 where
  invalid_state : InvalidTransition CircuitState → BreakerError
  publish_failed : BreakerError

abbrev pub Outcome : Type 0 → Type 0
Outcome A = Breaker × Result BreakerError A

unfoldable pub degraded : Breaker → Bool
degraded b = not (b.state is CircuitState.closed)

-- `self._bus.publish(...)` at the end of `_transition`
abbrev announce : World → CircuitState → Breaker → Outcome (Unit {0})
announce w current b =
    if b.has_bus && is_some b.session_id
    then (let event : StateChanged = record {
      from_state = current;
      to_state = b.state;
      failures = b.consecutive_failures;
      session_id = b.session_id;
    } in
        if w.bus_accepts
        then (record b { published = event ∷ b.published }, ok tt)
        else (b, err publish_failed))
    else (b, ok tt)

-- `_transition`
unfoldable pub transition : World → CircuitState → Breaker → Outcome (Unit {0})
transition w target b = elim (assert_transition circuit_transitions b.state target) [
  | some e ↦ (b, err (invalid_state e))
  | none ↦ announce w b.state (record b { state = target })
]

-- `_open`
unfoldable pub open_breaker : World → Breaker → Outcome (Unit {0})
unfolding transition
open_breaker w b =
    transition w CircuitState.opened (record b { opened_at_ms = some w.now; half_open_calls = 0 })

-- The last lines of `allow`: a bounded number of trial calls.
abbrev trial : Config → Breaker → Outcome Bool
trial c b =
    if ltb b.half_open_calls c.half_open_max_calls
    then (record b { half_open_calls = b.half_open_calls + 1 }, ok true)
    else (b, ok false)

-- `now - opened_at < open_duration_ms` on Python's signed integers
abbrev pub too_early : Config → ℕ → Breaker → Bool
too_early c now b = ltb now (get_or b.opened_at_ms 0 + c.open_duration_ms)

abbrev allow_in : CircuitState → Config → World → Breaker → Outcome Bool
allow_in CircuitState.closed c w b = (b, ok true)
allow_in CircuitState.opened c w b =
    if too_early c w.now b
    then (b, ok false)
    else chain (transition w CircuitState.half_open (record b { half_open_calls = 0 }))
        (λ b' _. trial c b')
allow_in CircuitState.half_open c w b = trial c b

unfoldable pub allow : Config → World → Breaker → Outcome Bool
unfolding transition
allow c w b = allow_in b.state c w b

abbrev record_success_in : CircuitState → World → Breaker → Outcome (Unit {0})
record_success_in CircuitState.half_open w b =
    transition w CircuitState.closed (record b { consecutive_failures = 0; half_open_calls = 0 })
record_success_in CircuitState.closed w b = (record b { consecutive_failures = 0 }, ok tt)
record_success_in CircuitState.opened w b = (b, ok tt)

unfoldable pub record_success : World → Breaker → Outcome (Unit {0})
unfolding transition
record_success w b = record_success_in b.state w b

abbrev record_failure_in : CircuitState → Config → World → Breaker → Outcome (Unit {0})
record_failure_in CircuitState.closed c w b =
    if leb c.failure_threshold b.consecutive_failures then open_breaker w b else (b, ok tt)
record_failure_in CircuitState.half_open c w b = open_breaker w b
record_failure_in CircuitState.opened c w b = (b, ok tt)

unfoldable pub record_failure : Config → World → Breaker → Outcome (Unit {0})
unfolding open_breaker
record_failure c w b =
    let b' = record b { consecutive_failures = b.consecutive_failures + 1 } in
    record_failure_in b.state c w b'
