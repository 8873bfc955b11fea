-- ===== src/Tests/Resilience.antt =====
-- Breaker, retry and failure decisions at concrete inputs.
use agentic_local_app.Base.{
  ◌≤◌, ◌≡◌, refl, true, false, none, some, [], ◌∷◌, length, arith, All, Returns, ok, ℕ, err,
}
use agentic_local_app.Domain.States.{CircuitState}
use agentic_local_app.Domain.Errors.{ErrorType, Severity, NormalizedError}
use agentic_local_app.Resilience.Breaker.{World, publish_failed, Config, Breaker, fresh, allow}
use agentic_local_app.Resilience.Breaker.Invariant.{IsConfig}
use agentic_local_app.Resilience.Breaker.Trials.{
  allow_at, success_at, failure_at, perform_all, allows, failures, Tripped, IsSafeThroughout,
  calls-IsSafeThroughout, open_trials_bounded, failures_open,
}
use agentic_local_app.Resilience.Retry.{RetryConfig, delay_ms, delays, schedule}
use agentic_local_app.Resilience.Retry.Backoff.{BacksOff, schedule-BacksOff}
use agentic_local_app.Resilience.Failure.{timeout, Settings, decide, classify}
use agentic_local_app.Resilience.Failure.Handle.{Env, Context, Manager, handle}
use agentic_local_app.Resilience.Failure.Policy.{
  Answers, decide-Answers, RefusesRetry, handle-opens,
}

abbrev config : Config
config = record { failure_threshold = 2; open_duration_ms = 100; half_open_max_calls = 1 }

config-IsConfig : IsConfig config
config-IsConfig = record {
  threshold_pos = omega arith;
  duration_pos = omega arith;
  calls_pos = omega arith;
}

abbrev opened : Breaker
opened = record {
  state = CircuitState.opened;
  consecutive_failures = 2;
  opened_at_ms = some 50;
  half_open_calls = 0;
  has_bus = true;
  session_id = some 7;
  published = [];
}

-- The clock's reading `t`; every event is taken, or none.
abbrev at : ℕ → World
at t = record { now = t; bus_accepts = true }

abbrev refused_at : ℕ → World
refused_at t = record { now = t; bus_accepts = false }

-- The second failure opens the breaker; the subscriber refuses the event of the trial call.
calls-IsSafeThroughout_example :
    IsSafeThroughout config
      (failure_at (at 1) ∷ failure_at (at 2) ∷ allow_at (refused_at 200) ∷ success_at (at 201) ∷ [])
      (fresh true (some 7))
calls-IsSafeThroughout_example =
    calls-IsSafeThroughout config
      (failure_at (at 1) ∷ failure_at (at 2) ∷ allow_at (refused_at 200) ∷ success_at (at 201) ∷ [])
      true (some 7) config-IsConfig

-- The call that raises leaves a half-open breaker without a trial call.
allow_refused :
    allow config (refused_at 150) opened
    ≡ (record opened { state = CircuitState.half_open }, err publish_failed)
unfolding allow
allow_refused = refl

open_trials_bounded_example :
    (perform_all config (allows (refused_at 150 ∷ at 151 ∷ at 152 ∷ [])) (opened, 0)).1 ≤ 1
open_trials_bounded_example =
    open_trials_bounded config (refused_at 150 ∷ at 151 ∷ at 152 ∷ []) opened config-IsConfig refl

failures_open_example :
    Tripped config 2
      (perform_all config (failures (at 1 ∷ refused_at 2 ∷ [])) (fresh true (some 7), 0)).0
failures_open_example =
    failures_open config (at 1 ∷ refused_at 2 ∷ []) true (some 7) config-IsConfig

abbrev retry_config : RetryConfig
retry_config = record { max_attempts = 5; base_delay_ms = 500; max_delay_ms = 3000; jitter = none }

schedule-BacksOff_example :
    Returns
      (λ ds. (length ds ≡ 4) × BacksOff retry_config ds × All (λ x. x ≤ 3000) ds)
      (schedule retry_config)
schedule-BacksOff_example = schedule-BacksOff retry_config refl

schedule_run : schedule retry_config ≡ ok (500 ∷ 1000 ∷ 2000 ∷ 3000 ∷ [])
unfolding schedule delays delay_ms
schedule_run = refl

abbrev settings : Settings
settings = record { retrying = retry_config; breaking = config }

abbrev rate_limited : NormalizedError
rate_limited = record {
  error_type = ErrorType.network_error;
  error_code = 5;
  severity = Severity.high;
  origin = 2;
  retryable = true;
  recoverable = true;
  attempt = 2;
  max_attempts = 5;
  details = record { transient = false; retry_after_ms = some 4000 };
}

decide-Answers_example :
    Answers settings
      (at 10)
      2
      rate_limited
      (fresh true none)
      (decide settings (at 10) 2 rate_limited (fresh true none))
decide-Answers_example =
    decide-Answers settings (at 10) 2 rate_limited (fresh true none) (omega arith)

abbrev env : Env
env = record {
  failure_time = 1000;
  decision_time = 1001;
  at_failure = at 20;
  at_decision = at 21;
  failure_id = 31;
  decision_id = 32;
  failure_saved = true;
  failure_accepted = true;
  decision_saved = true;
  decision_accepted = true;
}

abbrev context : Context
context = record {
  session_id = 7;
  conversation_id = some 8;
  cycle_id = none;
  plan_id = none;
  task_id = none;
  operation = 3;
}

abbrev one_failure : Breaker
one_failure = record (fresh true none) { consecutive_failures = 1 }

abbrev manager : Manager
manager = record { breaker = one_failure; failures = []; retry_decisions = []; events = [] }

handle-opens_example :
    let r = handle settings env context timeout 1 manager in
    (r.0.breaker.state ≡ CircuitState.opened)
    × (length r.0.failures ≡ 1)
    × RefusesRetry env manager r
unfolding classify
handle-opens_example =
    handle-opens settings env context timeout 1 manager config-IsConfig (omega arith) (omega arith)
      refl refl (omega arith) (omega arith) refl refl refl

-- The store refuses the decision.
abbrev refused : Env
refused = record env { decision_saved = false }
