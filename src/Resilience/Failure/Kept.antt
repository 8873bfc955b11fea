-- ===== src/Resilience/Failure/Kept.antt =====
-- src/agentic_local_app/resilience/failure_manager.py: what `handle` persists on each of its ends.
use agentic_local_app.Base.{ℕ, ◌≡◌, ◌⊎◌, false, Option, ◌∷◌, Result, ok, err}
use agentic_local_app.Domain.Errors.{NormalizedError, error_type_enum}
use agentic_local_app.Domain.Values.{circuit_state_enum}
use agentic_local_app.Resilience.Breaker
use agentic_local_app.Resilience.Breaker.{Breaker}
use agentic_local_app.Resilience.Retry.{delay_ms}
use agentic_local_app.Resilience.Failure.{
  Decision, DecisionKind, Fault, invalid_transition, value_error, persistence_error, bus_failed,
  Settings,
}
use agentic_local_app.Resilience.Failure.Handle.{
  Env, Context, Manager, FailureRecord, RetryDecisionRecord,
}

-- What a call leaves where it returns, and where it raises.
abbrev pub Ends : {S E A : Type 0} → (S → A → Type 0) → (S → E → Type 0) → S × Result E A → Type 0
Ends P R (s, ok a) = P s a
Ends P R (s, err e) = R s e

-- One more failure is stored, that of the error.
abbrev pub HasFailure : NormalizedError → Manager → Manager → Type 0
HasFailure e m m' = (f : FailureRecord) × (m'.failures ≡ f ∷ m.failures) × (f.error ≡ e)

-- One more decision is stored, the one that is given back.
abbrev pub HasDecision : ℕ → Decision → Manager → Manager → Type 0
HasDecision attempt d m m' =
    (q : RetryDecisionRecord) × (m'.retry_decisions ≡ q ∷ m.retry_decisions)
    × (q.decision ≡ d.kind)
    × (q.delay_ms ≡ d.delay)
    × (q.attempt ≡ attempt)

-- What is stored when a method raises.
abbrev pub Raised : Env → ℕ → NormalizedError → Manager → Manager → Fault → Type 0
Raised env attempt e m m' persistence_error =
    (env.failure_saved ≡ false) × (m' ≡ m)
    ⊎ (env.decision_saved ≡ false) × HasFailure e m m' × (m'.retry_decisions ≡ m.retry_decisions)
Raised env attempt e m m' bus_failed = HasFailure e m m'
Raised env attempt e m m' (value_error x) = (attempt ≡ 0) × HasFailure e m m'
Raised env attempt e m m' (invalid_transition x) = ⊥

module _ (s : Settings) (env : Env) (ctx : Context) (e : NormalizedError) (attempt : ℕ)
    (m : Manager) where
  -- The failure is stored, and no decision yet.
  abbrev IsRecorded : {A : Type 0} → Manager → A → Type 0
  IsRecorded m' a = HasFailure e m m' × (m'.retry_decisions ≡ m.retry_decisions)

  -- The breaker and the decision raise nothing but what the bus did, or an attempt `0`.
  abbrev RaisesBus : {A : Type 0} → Result Fault A → Type 0
  RaisesBus (ok a) = Unit
  RaisesBus (err bus_failed) = Unit
  RaisesBus (err (value_error x)) = attempt ≡ 0
  RaisesBus (err _) = ⊥

  -- The failure and the decision are stored.
  abbrev IsStored : Decision → Manager → Unit {0} → Type 0
  IsStored d m' u = HasFailure e m m' × HasDecision attempt d m m'

  -- The record of a decision.
  abbrev row : DecisionKind → Option ℕ → RetryDecisionRecord
  row kind delay = record {
    decision_id = env.decision_id;
    session_id = ctx.session_id;
    conversation_id = ctx.conversation_id;
    cycle_id = ctx.cycle_id;
    operation = ctx.operation;
    error_type = e.error_type;
    error_code = e.error_code;
    attempt = attempt;
    max_attempts = s.retrying.max_attempts;
    decision = kind;
    delay_ms = delay;
    created_at = env.decision_time;
  }
