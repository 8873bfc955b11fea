-- ===== src/Context/Window/Laws.antt =====
-- The thresholds and the evaluated state of src/agentic_local_app/context/window.py.
use native.Mathlib.Nat.{div-lt_iff_lt-mul}
use agentic_local_app.Base.{
  ℕ, ◌+◌, ◌-◌, ◌*◌, ◌/◌, ◌≤◌, ◌<◌, ◌≡◌, ◌≢◌, ◌⊎◌, ◌↔◌, true, Option, none, arith,
}
use agentic_local_app.Domain.States.{ContextWindowState}
use agentic_local_app.Domain.Values.{context_window_state_enum}
use agentic_local_app.Domain.Transitions.{can_transition, context_window_transitions}
use agentic_local_app.Domain.Errors.{NormalizedError}
use agentic_local_app.Context.Window.{
  Ratio, ContextConfig, Window, severity, threshold, thresholds, evaluate,
}

-- `threshold r budget` is the least whole number at or above `ratio × budget`.
pub threshold_exact :
    (r : Ratio) (budget n : ℕ)
    → 0 < r.denominator
    → (threshold r budget ≤ n) ↔ (r.numerator * budget ≤ n * r.denominator)
unfolding threshold
threshold_exact r budget n h =
    (λ p. grind (arith, iff.0 (omega arith)), λ p. omega (arith, iff.1 (grind arith)))
  where
    iff :
        ((r.numerator * budget + (r.denominator - 1)) / r.denominator < n + 1)
        ↔ (r.numerator * budget + (r.denominator - 1) < (n + 1) * r.denominator)
    iff = div-lt_iff_lt-mul h

-- The state that `evaluate` answers is never below the current one, and the window machine has a
-- transition to it wherever it differs: applying it is never refused.
pub evaluate_allowed :
    (c : ContextConfig) (w : Window) (projected : ℕ) (error : Option NormalizedError)
    → (severity w.context_window_state ≤ severity (evaluate c w projected error))
      × ((evaluate c w projected error ≡ w.context_window_state)
          ⊎ (can_transition context_window_transitions w.context_window_state
                (evaluate c w projected error)
              ≡ true))
unfolding evaluate
evaluate_allowed c w projected error = ground arith

-- More bytes, sent or projected, never lower the evaluated state.
pub evaluate_monotone :
    (c : ContextConfig) (w : Window) (more projected further : ℕ)
    → severity (evaluate c w projected none)
      ≤ severity (
          evaluate c
            (record w { context_bytes = w.context_bytes + more })
            (projected + further)
            none)
unfolding evaluate
evaluate_monotone c w more projected further = ground arith

-- Without an error, a message is let through (the state is not saturated) exactly while the window
-- is not saturated yet, the bytes so far are below the saturation threshold and the message fits
-- in the budget.
pub evaluate_lets_through :
    (c : ContextConfig) (w : Window) (projected : ℕ)
    → (evaluate c w projected none ≢ ContextWindowState.saturated) ↔ (
        (w.context_window_state ≢ ContextWindowState.saturated)
        × (w.context_bytes < (thresholds c).saturation_bytes)
        × (w.context_bytes + projected ≤ c.budget_bytes))
unfolding evaluate
evaluate_lets_through c w projected = ground arith
