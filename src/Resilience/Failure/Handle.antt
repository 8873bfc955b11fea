-- ===== src/Resilience/Failure/Handle.antt =====
-- src/agentic_local_app/resilience/failure_manager.py: `record`, `record_decision` and `handle`.
use agentic_local_app.Base.{ℕ, Bool, Option, some, List, ◌∷◌, if◌then◌else◌, Result, ok, err, chain}
use agentic_local_app.Domain.Errors.{ErrorType, NormalizedError, with_attempt}
use agentic_local_app.Resilience.Breaker
use agentic_local_app.Resilience.Breaker.{Breaker, World}
use agentic_local_app.Resilience.Failure.{
  Exception, Decision, DecisionKind, Reason, retry, Fault, persistence_error, lift_breaker,
  Settings, feeds_breaker, classify, decide, bus_failed,
}

-- Where the failure happened. Identifiers are texts, which are only carried along.
pub record Context : Type 0 where
  pub session_id : ℕ
  pub conversation_id : Option ℕ
  pub cycle_id : Option ℕ
  pub plan_id : Option ℕ
  pub task_id : Option ℕ
  pub operation : ℕ

-- What the collaborators answer during one `handle`: the wall clock at the two records, fresh
-- identifiers, the writes of the store, what the two calls of the breaker meet, and whether the critical
-- subscribers take the two events.
pub record Env : Type 0 where
  pub failure_time : ℕ
  pub decision_time : ℕ
  pub at_failure : World
  pub at_decision : World
  pub failure_id : ℕ
  pub decision_id : ℕ
  pub failure_saved : Bool
  pub failure_accepted : Bool
  pub decision_saved : Bool
  pub decision_accepted : Bool

-- The attributes of the error stand in `error`.
pub record FailureRecord : Type 0 where
  pub failure_id : ℕ
  pub session_id : ℕ
  pub conversation_id : Option ℕ
  pub plan_id : Option ℕ
  pub task_id : Option ℕ
  pub error : NormalizedError
  pub timestamp : ℕ

pub record RetryDecisionRecord : Type 0 where
  pub decision_id : ℕ
  pub session_id : ℕ
  pub conversation_id : Option ℕ
  pub cycle_id : Option ℕ
  pub operation : ℕ
  pub error_type : ErrorType
  pub error_code : ℕ
  pub attempt : ℕ
  pub max_attempts : ℕ
  pub decision : DecisionKind
  pub delay_ms : Option ℕ
  pub created_at : ℕ

pub data Published : Type 0 where
  failure_recorded : FailureRecord → Published
  retry_scheduled : RetryDecisionRecord → Reason → Published

pub record Manager : Type 0 where
  pub breaker : Breaker
  pub failures : List FailureRecord
  pub retry_decisions : List RetryDecisionRecord
  pub events : List Published

-- What a method leaves, and what it returns or raises.
abbrev pub Handled : Type 0 → Type 0
Handled A = Manager × Result Fault A

-- `self._bus.publish(...)`: a critical subscriber may raise.
abbrev publish : Bool → Published → Manager → Handled (Unit {0})
publish accepted event m =
    if accepted then (record m { events = event ∷ m.events }, ok tt) else (m, err bus_failed)

-- `record`: persist, then publish.
unfoldable pub record_failure_of : Env → Context → NormalizedError → Manager → Handled (Unit {0})
record_failure_of env ctx e m =
    let r : FailureRecord = record {
      failure_id = env.failure_id;
      session_id = ctx.session_id;
      conversation_id = ctx.conversation_id;
      plan_id = ctx.plan_id;
      task_id = ctx.task_id;
      error = e;
      timestamp = env.failure_time;
    } in
    if env.failure_saved
    then publish env.failure_accepted (failure_recorded r) (record m { failures = r ∷ m.failures })
    else (m, err persistence_error)

-- `if decision.kind == "retry": self._bus.publish(...)`
abbrev announce : Bool → DecisionKind → Reason → RetryDecisionRecord → Manager → Handled (Unit {0})
announce accepted retry reason r m = publish accepted (retry_scheduled r reason) m
announce accepted _ reason r m = (m, ok tt)

-- `record_decision`
unfoldable pub record_decision :
    Settings → Env → Context → NormalizedError → ℕ → Decision → Manager → Handled (Unit {0})
record_decision s env ctx e attempt d m =
    let r : RetryDecisionRecord = record {
      decision_id = env.decision_id;
      session_id = ctx.session_id;
      conversation_id = ctx.conversation_id;
      cycle_id = ctx.cycle_id;
      operation = ctx.operation;
      error_type = e.error_type;
      error_code = e.error_code;
      attempt = attempt;
      max_attempts = s.retrying.max_attempts;
      decision = d.kind;
      delay_ms = d.delay;
      created_at = env.decision_time;
    } in
    if env.decision_saved
    then announce env.decision_accepted d.kind d.reason r
        (record m { retry_decisions = r ∷ m.retry_decisions })
    else (m, err persistence_error)

-- `if self._feeds_breaker(error): ... record_failure()`; the session becomes known to the breaker.
unfoldable pub feed : Settings → Env → Context → NormalizedError → Manager → Handled (Unit {0})
feed s env ctx e m =
    if feeds_breaker e
    then (let r =
          Breaker.record_failure s.breaking env.at_failure
            (record m.breaker { session_id = some ctx.session_id }) in
        (record m { breaker = r.0 }, lift_breaker r.1))
    else (m, ok tt)

-- `self.decide(error, attempt, ...)`
abbrev pub decide_in : Settings → Env → ℕ → NormalizedError → Manager → Handled Decision
decide_in s env attempt e m =
    let r = decide s env.at_decision attempt e m.breaker in (record m { breaker = r.0 }, r.1)

unfoldable pub handle :
    Settings → Env → Context → Exception → ℕ → Manager → Handled (NormalizedError × Decision)
handle s env ctx x attempt m =
    let e = with_attempt attempt s.retrying.max_attempts (classify x) in
    chain (record_failure_of env ctx e m) (λ m₁ _. chain (feed s env ctx e m₁) (λ m₂ _.
      chain (decide_in s env attempt e m₂)
        (λ m₃ d. chain (record_decision s env ctx e attempt d m₃) (λ m₄ _. (m₄, ok (e, d))))))

-- `note_success`
unfoldable pub note_success : World → Manager → Handled (Unit {0})
note_success w m =
    let r = Breaker.record_success w m.breaker in (record m { breaker = r.0 }, lift_breaker r.1)
