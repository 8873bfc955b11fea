-- ===== src/Context/Window.antt =====
-- src/agentic_local_app/context/window.py. A ratio is the exact fraction of its decimal spelling,
-- as `Fraction(repr(ratio))` makes it; byte counts are naturals, so the guards against negative
-- counts are left out.
pub mod Laws
use agentic_local_app.Base.{
  ℕ, ◌+◌, ◌-◌, ◌*◌, ◌/◌, Bool, true, false, ◌&&◌, ◌||◌, Option, none, some, if◌then◌else◌, ltb, leb,
  ◌==◌, ◌is◌,
}
use agentic_local_app.Domain.States.{ContextWindowState}
use agentic_local_app.Domain.Values.{context_window_state_enum}
use agentic_local_app.Domain.Errors.{ErrorType, NormalizedError, error_type_enum}

pub record Ratio : Type 0 where
  pub numerator : ℕ
  pub denominator : ℕ

-- `ContextSection`, the part that the monitor reads.
pub record ContextConfig : Type 0 where
  pub budget_bytes : ℕ
  pub warning_ratio : Ratio
  pub saturation_ratio : Ratio
  pub rotate_on_unusable_reply_in_warning : Bool

-- `MODEL_GET_TIMEOUT`, by number
abbrev pub get_timeout_code : ℕ
get_timeout_code = 10

abbrev pub severity : ContextWindowState → ℕ
severity ContextWindowState.healthy = 0
severity ContextWindowState.warning = 1
severity ContextWindowState.saturated = 2

pub record ContextThresholds : Type 0 where
  pub warning_bytes : ℕ
  pub saturation_bytes : ℕ
  pub budget_bytes : ℕ

-- `math.ceil(Fraction(repr(ratio)) * budget)`
unfoldable pub threshold : Ratio → ℕ → ℕ
threshold r budget = (r.numerator * budget + (r.denominator - 1)) / r.denominator

unfoldable pub thresholds : ContextConfig → ContextThresholds
thresholds c = record {
  warning_bytes = threshold c.warning_ratio c.budget_bytes;
  saturation_bytes = threshold c.saturation_ratio c.budget_bytes;
  budget_bytes = c.budget_bytes;
}

unfoldable pub account : ℕ → ℕ → ℕ
account conversation_bytes message_bytes = conversation_bytes + message_bytes

-- What the monitor reads of a `ConversationRecord`.
pub record Window : Type 0 where
  pub context_window_state : ContextWindowState
  pub context_bytes : ℕ

-- The last lines of `_compute`, which look at the bytes alone.
abbrev compute_bytes : ContextThresholds → ℕ → ℕ → ContextWindowState
compute_bytes t current projected =
    if ltb t.budget_bytes (current + projected)
    then ContextWindowState.saturated
    else if leb t.saturation_bytes current
    then ContextWindowState.saturated
    else if leb t.warning_bytes current
    then ContextWindowState.warning
    else ContextWindowState.healthy

abbrev monotone : ContextWindowState → ContextWindowState → ContextWindowState
monotone computed current = if leb (severity current) (severity computed) then computed else current

-- `self.evaluate(conversation)`: neither a projected message nor an error.
unfoldable pub evaluate_now : ContextConfig → Window → ContextWindowState
unfolding thresholds
evaluate_now c w = monotone (compute_bytes (thresholds c) w.context_bytes 0) w.context_window_state

unfoldable pub should_rotate_on_unusable_reply : ContextConfig → Window → NormalizedError → Bool
unfolding evaluate_now
should_rotate_on_unusable_reply c w e =
    if c.rotate_on_unusable_reply_in_warning
    then (if evaluate_now c w is ContextWindowState.healthy
        then false
        else (e.error_type is ErrorType.model_protocol_error
            || (e.error_type is ErrorType.timeout_error && e.error_code == get_timeout_code)))
    else false

-- `self.is_saturated(conversation)`
unfoldable pub is_saturated : ContextConfig → Window → Bool
unfolding evaluate_now
is_saturated c w = evaluate_now c w is ContextWindowState.saturated

abbrev error_saturates : ContextConfig → Window → Option NormalizedError → Bool
error_saturates c w none = false
error_saturates c w (some e) =
    e.error_type is ErrorType.model_context_window_error || should_rotate_on_unusable_reply c w e

-- `_compute`
unfoldable pub compute : ContextConfig → Window → ℕ → Option NormalizedError → ContextWindowState
unfolding thresholds
compute c w projected error =
    if error_saturates c w error
    then ContextWindowState.saturated
    else compute_bytes (thresholds c) w.context_bytes projected

unfoldable pub evaluate : ContextConfig → Window → ℕ → Option NormalizedError → ContextWindowState
unfolding compute
evaluate c w projected error = monotone (compute c w projected error) w.context_window_state
