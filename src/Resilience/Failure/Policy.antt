-- ===== src/Resilience/Failure/Policy.antt =====
-- `decide` and `handle` of src/agentic_local_app/resilience/failure_manager.py: the policy.
use agentic_local_app.Base.{
  ℕ, ◌+◌, ◌≤◌, ◌<◌, ◌≡◌, ◌↔◌, ◌*◌, ◌^◌, ◌-◌, min, length, Bool, true, false, none, some, arith,
  is_some, Returns, get_or, Result, ok, err, ap, ◌∙◌, refl, chain,
}
use agentic_local_app.Domain.Errors.{ErrorType, NormalizedError, error_type_enum, with_attempt}
use agentic_local_app.Domain.States.{CircuitState}
use agentic_local_app.Resilience.Breaker
use agentic_local_app.Resilience.Breaker.{Breaker, World}
use agentic_local_app.Resilience.Breaker.Invariant.{IsConfig}
use agentic_local_app.Resilience.Retry.{can_retry, delay_ms}
use agentic_local_app.Resilience.Failure.Handle.{
  Env, Context, Manager, record_failure_of, record_decision, feed, handle, Handled, decide_in,
}
use agentic_local_app.Resilience.Failure.{
  Exception, Decision, DecisionKind, retry, abort, rotate, pause, fail, circuit_open, Settings,
  is_policy_retryable, feeds_breaker, classify, decide, Fault, bus_failed, invalid_transition,
  value_error, persistence_error,
}

-- `Decision.__post_init__` accepts: a delay exactly where the kind is `retry`.
abbrev is_retry : DecisionKind → Bool
is_retry retry = true
is_retry _ = false

abbrev pub IsDecision : Decision → Type 0
IsDecision d = is_some d.delay ≡ is_retry d.kind

-- What `decide` promises of its answer, whatever the class of the error.
pub record Decides (s : Settings) (w : World) (attempt : ℕ) (e : NormalizedError) (b : Breaker)
    (r : Breaker × Decision) : Type 0 where
  pub accepted : IsDecision r.1
  pub rotates : (r.1.kind ≡ rotate) ↔ (e.error_type ≡ ErrorType.model_context_window_error)
  pub pauses : (r.1.kind ≡ pause) ↔ (e.error_type ≡ ErrorType.authn_error)
  pub aborts : (r.1.kind ≡ abort) ↔ (e.error_type ≡ ErrorType.interrupted)
  pub retries : (r.1.kind ≡ retry) ↔ (
      (is_policy_retryable e ≡ true)
      × (attempt < s.retrying.max_attempts)
      × Returns (λ a. a ≡ true) (Breaker.allow s.breaking w b).1)
  pub waits :
      (ms : ℕ) → r.1.kind ≡ retry → e.details.retry_after_ms ≡ some ms → ms ≤ get_or r.1.delay 0
  pub backs_off :
      r.1.kind ≡ retry
      → s.retrying.jitter ≡ none
      → min (s.retrying.base_delay_ms * 2 ^ (attempt - 1)) s.retrying.max_delay_ms
        ≤ get_or r.1.delay 0
  pub untouched : is_policy_retryable e ≡ false → r.0 ≡ b

-- What `decide` leaves and answers: a decision, or what a critical subscriber raised when the open breaker let a
-- trial call through.
abbrev pub Answers :
    Settings → World → ℕ → NormalizedError → Breaker → Breaker × Result Fault Decision → Type 0
Answers s w attempt e b (b', ok d) = Decides s w attempt e b (b', d)
Answers s w attempt e b (b', err bus_failed) =
    (w.bus_accepts ≡ false)
    × (is_policy_retryable e ≡ true)
    × (attempt < s.retrying.max_attempts)
    × (b.state ≡ CircuitState.opened)
    × (b'.state ≡ CircuitState.half_open)
Answers s w attempt e b (b', err _) = ⊥

-- For an attempt counted from 1, `decide` returns, unless a critical subscriber of the bus refuses the event of a
-- breaker that becomes half open. It rotates on a full context window, pauses on an authentication error, aborts
-- on an interruption, each exactly then; it retries exactly when the error may be retried, the attempt is not the
-- last one and the breaker allows a call. A retry waits at least the backoff delay (without jitter) and what the
-- endpoint asked for, only a retry has a delay, and an error that is not retryable leaves the breaker alone.
pub decide-Answers :
    (s : Settings) (w : World) (attempt : ℕ) (e : NormalizedError) (b : Breaker)
    → 0 < attempt
    → Answers s w attempt e b (decide s w attempt e b)
unfolding decide can_retry delay_ms Breaker.allow
decide-Answers s w attempt e b h = ground arith

-- What `handle` answers when the failure opened the breaker: the retry is refused, or the bus failed.
abbrev pub RefusesRetry :
    Env → Manager → Manager × Result Fault (NormalizedError × Decision) → Type 0
RefusesRetry env m (m', ok (e, d)) =
    (d.reason ≡ circuit_open)
    × (d.kind ≡ fail)
    × (length m'.retry_decisions ≡ length m.retry_decisions + 1)
RefusesRetry env m (m', err bus_failed) = env.at_failure.bus_accepts ≡ false
RefusesRetry env m (m', err _) = ⊥

abbrev RaisesOnlyBus : {A : Type 0} → Env → Result Fault A → Type 0
RaisesOnlyBus env (ok a) = Unit
RaisesOnlyBus env (err bus_failed) = env.at_failure.bus_accepts ≡ false
RaisesOnlyBus env (err _) = ⊥

module _ (s : Settings) (env : Env) (ctx : Context) (e : NormalizedError) where
  -- What a failure that opens the breaker leaves, before the decision.
  abbrev HasOpened : Manager → Handled (Unit {0}) → Type 0
  HasOpened m r =
      (r.0.breaker.state ≡ CircuitState.opened)
      × (r.0.breaker.opened_at_ms ≡ some env.at_failure.now)
      × (r.0.failures ≡ m.failures)
      × (r.0.retry_decisions ≡ m.retry_decisions)
      × RaisesOnlyBus env r.1

  feed-opens :
      (m : Manager)
      → feeds_breaker e ≡ true
      → m.breaker.state ≡ CircuitState.closed
      → s.breaking.failure_threshold ≤ m.breaker.consecutive_failures + 1
      → HasOpened m (feed s env ctx e m)
  unfolding feed Breaker.record_failure
  feed-opens m f c t = ground arith

  decide-refuses :
      (attempt : ℕ) (b : Breaker) (t : ℕ)
      → 0 < attempt
      → attempt < s.retrying.max_attempts
      → feeds_breaker e ≡ true
      → b.state ≡ CircuitState.opened
      → b.opened_at_ms ≡ some t
      → env.at_decision.now < t + s.breaking.open_duration_ms
      → decide s env.at_decision attempt e b
        ≡ (b, ok (record { kind = fail; delay = none; reason = circuit_open }))
  unfolding decide can_retry delay_ms Breaker.allow
  decide-refuses attempt b t a l f o i d = ground arith

  decided-Refuses :
      (attempt : ℕ) (m m₂ : Manager) (z : Result Fault (Unit {0}))
      → 0 < attempt
      → attempt < s.retrying.max_attempts
      → feeds_breaker e ≡ true
      → m₂.breaker.state ≡ CircuitState.opened
      → m₂.breaker.opened_at_ms ≡ some env.at_failure.now
      → env.at_decision.now < env.at_failure.now + s.breaking.open_duration_ms
      → env.decision_saved ≡ true
      → length m₂.retry_decisions ≡ length m.retry_decisions
      → RaisesOnlyBus env z
      → let r : Handled (NormalizedError × Decision) =
          chain
            (m₂, z)
            (λ m₂ _. chain (decide_in s env attempt e m₂) (λ m₃ d.
              chain (record_decision s env ctx e attempt d m₃) (λ m₄ _. (m₄, ok (e, d))))) in
        (r.0.breaker.state ≡ CircuitState.opened)
        × (length r.0.failures ≡ length m₂.failures)
        × RefusesRetry env m r
  unfolding record_decision
  decided-Refuses attempt m m₂ (ok u) a l f o i d saved same h =
      rw (decide-refuses attempt m₂.breaker env.at_failure.now a l f o i d, saved)
        (o, refl, (refl, refl, ground (arith, same)))
  decided-Refuses attempt m m₂ (err bus_failed) a l f o i d saved same h = (o, refl, h)
  decided-Refuses attempt m m₂ (err persistence_error) a l f o i d saved same h = absurd h
  decided-Refuses attempt m m₂ (err (invalid_transition x)) a l f o i d saved same h = absurd h
  decided-Refuses attempt m m₂ (err (value_error x)) a l f o i d saved same h = absurd h

-- The manager once the failure is recorded.
record_failure-Recorded :
    (env : Env) (ctx : Context) (e : NormalizedError) (m : Manager)
    → env.failure_saved ≡ true
    → env.failure_accepted ≡ true
    → (m₁ : Manager) × (record_failure_of env ctx e m ≡ (m₁, ok tt))
      × (m₁.breaker ≡ m.breaker)
      × (length m₁.failures ≡ length m.failures + 1)
      × (m₁.retry_decisions ≡ m.retry_decisions)
unfolding record_failure_of
record_failure-Recorded env ctx e m p q = rw (p, q) (_, refl, refl, ground arith, refl)

-- The failure that brings a closed breaker to its threshold opens it, whatever the bus answers to the breaker,
-- once the failure is recorded. Unless a critical subscriber refuses the breaker's event, the very same `handle`
-- then refuses the retry, although attempts are left, and persists the decision too.
pub handle-opens :
    (s : Settings) (env : Env) (ctx : Context) (x : Exception) (attempt : ℕ) (m : Manager)
    → IsConfig s.breaking
    → 0 < attempt
    → attempt < s.retrying.max_attempts
    → feeds_breaker (classify x) ≡ true
    → m.breaker.state ≡ CircuitState.closed
    → s.breaking.failure_threshold ≤ m.breaker.consecutive_failures + 1
    → env.at_decision.now < env.at_failure.now + s.breaking.open_duration_ms
    → env.failure_saved ≡ true
    → env.failure_accepted ≡ true
    → env.decision_saved ≡ true
    → let r = handle s env ctx x attempt m in
      (r.0.breaker.state ≡ CircuitState.opened)
      × (length r.0.failures ≡ length m.failures + 1)
      × RefusesRetry env m r
unfolding handle with_attempt
handle-opens s env ctx x attempt m k a l f c t d p q r =
    let e = with_attempt attempt s.retrying.max_attempts (classify x) in
    let (m₁, recorded, breaker, rows, decisions) = record_failure-Recorded env ctx e m p q in
    let (opened, since, rows', decisions', raises) =
      feed-opens s env ctx e m₁ f (rw breaker c) (rw breaker t) in
    let fed = feed s env ctx e m₁ in
    let (state, kept, refuses) =
      decided-Refuses s env ctx e attempt m fed.0 fed.1 a l f opened since d r
        (ap length (decisions' ∙ decisions)) raises in
    rw recorded (state, kept ∙ ap length rows' ∙ rows, refuses)
