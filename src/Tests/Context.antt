-- ===== src/Tests/Context.antt =====
-- The window monitor at concrete inputs.
use agentic_local_app.Base.{◌+◌, ◌*◌, ◌≤◌, ◌<◌, ◌≡◌, ◌≢◌, ◌↔◌, ◌⊎◌, refl, true, false, none, arith}
use agentic_local_app.Domain.States.{ContextWindowState}
use agentic_local_app.Domain.Values.{context_window_state_enum}
use agentic_local_app.Domain.Transitions.{can_transition, context_window_transitions}
use agentic_local_app.Domain.Errors.{ErrorType, Severity, NormalizedError}
use agentic_local_app.Context.Window.{
  ContextConfig, Window, severity, threshold, thresholds, evaluate,
}
use agentic_local_app.Context.Window.Laws.{threshold_exact, evaluate_allowed, evaluate_lets_through}

abbrev config : ContextConfig
config = record {
  budget_bytes = 101;
  warning_ratio = record { numerator = 7; denominator = 10 };
  saturation_ratio = record { numerator = 9; denominator = 10 };
  rotate_on_unusable_reply_in_warning = true;
}

abbrev window : Window
window = record { context_window_state = ContextWindowState.warning; context_bytes = 75 }

abbrev unusable : NormalizedError
unusable = record {
  error_type = ErrorType.model_protocol_error;
  error_code = 4;
  severity = Severity.high;
  origin = 2;
  retryable = false;
  recoverable = true;
  attempt = 1;
  max_attempts = 3;
  details = record { transient = false; retry_after_ms = none };
}

threshold_exact_example : (threshold config.warning_ratio 101 ≤ 71) ↔ (7 * 101 ≤ 71 * 10)
threshold_exact_example = threshold_exact config.warning_ratio 101 71 (omega arith)

threshold_run : threshold config.warning_ratio 101 ≡ 71
unfolding threshold
threshold_run = refl

evaluate_allowed_example :
    (1 ≤ severity (evaluate config window 30 none))
    × ((evaluate config window 30 none ≡ ContextWindowState.warning)
        ⊎ (can_transition context_window_transitions ContextWindowState.warning
              (evaluate config window 30 none)
            ≡ true))
evaluate_allowed_example = evaluate_allowed config window 30 none

evaluate_lets_through_example : (evaluate config window 26 none ≢ ContextWindowState.saturated) ↔ (
    (ContextWindowState.warning ≢ ContextWindowState.saturated)
    × (75 < (thresholds config).saturation_bytes)
    × (75 + 26 ≤ 101))
evaluate_lets_through_example = evaluate_lets_through config window 26
