-- ===== src/Resilience/Failure.antt =====
-- src/agentic_local_app/resilience/failure_manager.py. A step reads the clock, the fresh
-- identifiers, whether each store write succeeds and whether the bus lets each event through from an
-- `Env`; what it persists and publishes is listed newest first in the manager's state.
pub mod Handle
pub mod Policy
pub mod Kept
use agentic_local_app.Base.{
  ℕ, ◌+◌, ◌<◌, Bool, true, false, not, ◌&&◌, ◌||◌, max, Option, none, some, List, [], ◌∷◌, ◌++◌,
  if◌then◌else◌, ◌is◌, is_in, Result, ok, err, ◌>>=◌, chain,
}
use agentic_local_app.Domain.Errors.{
  ErrorType, Severity, Details, NormalizedError, error_type_enum, retryable_error_types,
  with_attempt,
}
use agentic_local_app.Domain.Transitions.{InvalidTransition}
use agentic_local_app.Domain.States.{CircuitState}
use agentic_local_app.Resilience.Breaker
use agentic_local_app.Resilience.Breaker.{
  Breaker, World, BreakerError, invalid_state, publish_failed,
}
use agentic_local_app.Resilience.Retry.{RetryConfig, RetryError, can_retry, delay_ms}

pub data DecisionKind : Type 0 where
  retry abort rotate pause fail : DecisionKind

pub data Reason : Type 0 where
  context_window_exceeded credentials_required max_attempts_exhausted circuit_open retryable_error
        reason_interrupted :
      Reason
  non_retryable : ErrorType → Reason

pub record Decision : Type 0 where
  pub kind : DecisionKind
  pub delay : Option ℕ
  pub reason : Reason

abbrev pub pausing_error_types : List ErrorType
pausing_error_types = ErrorType.authn_error ∷ []

abbrev pub breaker_fed_error_types : List ErrorType
breaker_fed_error_types = retryable_error_types ++ ErrorType.system_error ∷ []

-- `_is_policy_retryable`
abbrev pub is_policy_retryable : NormalizedError → Bool
is_policy_retryable e =
    is_in e.error_type retryable_error_types
    || (e.error_type is ErrorType.system_error && e.details.transient)

-- `_feeds_breaker`
abbrev pub feeds_breaker : NormalizedError → Bool
feeds_breaker e =
    is_in e.error_type breaker_fed_error_types
    && (not (e.error_type is ErrorType.system_error) || e.details.transient)

-- The classes of exceptions that `classify` tells apart. `app_error` carries its error;
-- `timeout` is `httpx.TimeoutException` or `TimeoutError`, `transport` is `httpx.TransportError` or
-- `OSError` (a timeout is tested first).
pub data Exception : Type 0 where
  app_error : NormalizedError → Exception
  timeout transport other : Exception

-- The texts of `classify`, by number.
abbrev pub operation_timeout : ℕ
operation_timeout = 1

abbrev pub network_failure : ℕ
network_failure = 2

abbrev pub unhandled_exception : ℕ
unhandled_exception = 3

abbrev pub failure_manager_origin : ℕ
failure_manager_origin = 1

abbrev native_error : ErrorType → ℕ → Severity → Bool → NormalizedError
native_error t code severity again = record {
  error_type = t;
  error_code = code;
  severity = severity;
  origin = failure_manager_origin;
  retryable = again;
  recoverable = again;
  attempt = 1;
  max_attempts = 1;
  details = record { transient = false; retry_after_ms = none };
}

unfoldable pub classify : Exception → NormalizedError
classify (app_error e) = e
classify timeout = native_error ErrorType.timeout_error operation_timeout Severity.high true
classify transport = native_error ErrorType.network_error network_failure Severity.high true
classify other = native_error ErrorType.system_error unhandled_exception Severity.critical false

-- What a call can raise: a defect of the breaker or of the attempt number, a store that refuses, or what
-- a critical subscriber of the bus raised.
pub data Fault : Type 0 where
  invalid_transition : InvalidTransition CircuitState → Fault
  value_error : RetryError → Fault
  persistence_error bus_failed : Fault

abbrev pub lift_breaker : {A : Type 0} → Result BreakerError A → Result Fault A
lift_breaker (ok a) = ok a
lift_breaker (err (invalid_state e)) = err (invalid_transition e)
lift_breaker (err publish_failed) = err bus_failed

abbrev pub lift_retry : {A : Type 0} → Result RetryError A → Result Fault A
lift_retry (ok a) = ok a
lift_retry (err e) = err (value_error e)

pub record Settings : Type 0 where
  pub retrying : RetryConfig
  pub breaking : Breaker.Config

abbrev with_retry_after : Option ℕ → ℕ → ℕ
with_retry_after none delay = delay
with_retry_after (some ms) delay = max delay ms

abbrev failing : Reason → Decision
failing r = record { kind = fail; delay = none; reason = r }

-- The retry that is decided once the breaker allows a call.
abbrev decide_allowed :
    Settings → ℕ → NormalizedError → Breaker → Bool → Breaker × Result Fault Decision
decide_allowed s attempt e b allowed =
    if allowed
    then (
      b,
      lift_retry (delay_ms s.retrying attempt) >>= λ d. ok (record {
        kind = retry;
        delay = some (with_retry_after e.details.retry_after_ms d);
        reason = retryable_error;
      }),
    )
    else (b, ok (failing circuit_open))

-- The part of `decide` for an error that may be retried.
abbrev decide_retry :
    Settings → World → ℕ → NormalizedError → Breaker → Breaker × Result Fault Decision
decide_retry s w attempt e b =
    if can_retry s.retrying attempt
    then (let r = Breaker.allow s.breaking w b in
        chain (r.0, lift_breaker r.1) (decide_allowed s attempt e))
    else (b, ok (failing max_attempts_exhausted))

unfoldable pub decide :
    Settings → World → ℕ → NormalizedError → Breaker → Breaker × Result Fault Decision
decide s w attempt e b =
    if e.error_type is ErrorType.model_context_window_error
    then (b, ok (record { kind = rotate; delay = none; reason = context_window_exceeded }))
    else if is_in e.error_type pausing_error_types
    then (b, ok (record { kind = pause; delay = none; reason = credentials_required }))
    else if is_policy_retryable e
    then decide_retry s w attempt e b
    else if e.error_type is ErrorType.interrupted
    then (b, ok (record { kind = abort; delay = none; reason = reason_interrupted }))
    else (b, ok (failing (non_retryable e.error_type)))
