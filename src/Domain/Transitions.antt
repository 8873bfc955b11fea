-- ===== src/Domain/Transitions.antt =====
-- src/agentic_local_app/domain/transitions.py: the transition tables and their three readers.
-- A table is a function into the listed targets; it has a row for every state, so the default of
-- `table.get` is never taken.
use agentic_local_app.Base.{Bool, Option, none, some, List, [], ◌∷◌, if◌then◌else◌, Enum, is_in}
use agentic_local_app.Domain.States.{
  SessionState, ConversationState, PlanState, TaskState, CycleState, ContextWindowState,
  CircuitState,
}

abbrev pub Table : Type 0 → Type 0
Table S = S → List S

abbrev pub conversation_transitions : Table ConversationState
conversation_transitions ConversationState.new =
    ConversationState.active ∷ ConversationState.failed ∷ []
conversation_transitions ConversationState.active =
    ConversationState.waiting_model_response ∷ ConversationState.interrupted
    ∷ ConversationState.failed ∷ []
conversation_transitions ConversationState.waiting_model_response =
    ConversationState.running_plan ∷ ConversationState.completed ∷ ConversationState.rotating
    ∷ ConversationState.interrupted ∷ ConversationState.failed ∷ []
conversation_transitions ConversationState.running_plan =
    ConversationState.waiting_model_response ∷ ConversationState.rotating
    ∷ ConversationState.interrupted ∷ ConversationState.failed ∷ []
conversation_transitions ConversationState.rotating =
    ConversationState.closed ∷ ConversationState.interrupted ∷ ConversationState.failed ∷ []
conversation_transitions ConversationState.waiting_user =
    ConversationState.waiting_model_response ∷ ConversationState.rotating ∷ ConversationState.failed
    ∷ []
conversation_transitions ConversationState.completed =
    ConversationState.waiting_user ∷ ConversationState.closed ∷ ConversationState.failed ∷ []
conversation_transitions ConversationState.interrupted = []
conversation_transitions ConversationState.failed = []
conversation_transitions ConversationState.closed = []

abbrev pub active_conversation_states : List ConversationState
active_conversation_states =
    ConversationState.active ∷ ConversationState.waiting_model_response
    ∷ ConversationState.running_plan ∷ ConversationState.rotating ∷ []

abbrev pub terminal_conversation_states : List ConversationState
terminal_conversation_states =
    ConversationState.interrupted ∷ ConversationState.failed ∷ ConversationState.closed ∷ []

abbrev pub session_transitions : Table SessionState
session_transitions SessionState.ready = SessionState.running ∷ []
session_transitions SessionState.running =
    SessionState.completed ∷ SessionState.paused ∷ SessionState.interrupting ∷ SessionState.failed
    ∷ []
session_transitions SessionState.paused =
    SessionState.running ∷ SessionState.ready ∷ SessionState.failed ∷ []
session_transitions SessionState.interrupting = SessionState.ready ∷ SessionState.failed ∷ []
session_transitions SessionState.completed = SessionState.running ∷ []
session_transitions SessionState.failed = []

abbrev pub plan_transitions : Table PlanState
plan_transitions PlanState.pending =
    PlanState.running ∷ PlanState.failed ∷ PlanState.interrupted ∷ []
plan_transitions PlanState.running =
    PlanState.completed ∷ PlanState.stopped_on_failure ∷ PlanState.short_circuited_on_success
    ∷ PlanState.interrupted ∷ PlanState.failed ∷ []
plan_transitions _ = []

abbrev pub task_transitions : Table TaskState
task_transitions TaskState.pending =
    TaskState.waiting_dependency ∷ TaskState.running ∷ TaskState.skipped ∷ TaskState.interrupted
    ∷ []
task_transitions TaskState.waiting_dependency =
    TaskState.pending ∷ TaskState.skipped ∷ TaskState.interrupted ∷ []
task_transitions TaskState.running =
    TaskState.completed ∷ TaskState.failed ∷ TaskState.timed_out ∷ TaskState.cancelled
    ∷ TaskState.interrupted ∷ []
task_transitions _ = []

abbrev pub failed_task_states : List TaskState
failed_task_states = TaskState.failed ∷ TaskState.timed_out ∷ []

abbrev pub cycle_transitions : Table CycleState
cycle_transitions CycleState.running =
    CycleState.completed ∷ CycleState.failed ∷ CycleState.interrupted ∷ []
cycle_transitions _ = []

abbrev pub context_window_transitions : Table ContextWindowState
context_window_transitions ContextWindowState.healthy =
    ContextWindowState.warning ∷ ContextWindowState.saturated ∷ []
context_window_transitions ContextWindowState.warning = ContextWindowState.saturated ∷ []
context_window_transitions ContextWindowState.saturated = ContextWindowState.healthy ∷ []

abbrev pub circuit_transitions : Table CircuitState
circuit_transitions CircuitState.closed = CircuitState.opened ∷ []
circuit_transitions CircuitState.opened = CircuitState.half_open ∷ []
circuit_transitions CircuitState.half_open = CircuitState.closed ∷ CircuitState.opened ∷ []

-- `InvalidTransitionError`: the entity is the table, the two states are carried.
pub record InvalidTransition (S : Type 0) : Type 0 where
  pub current : S
  pub target : S

module _ {S : Type 0} ⦃e : Enum S⦄ where
  -- `target in table.get(current, frozenset())`
  abbrev pub can_transition : Table S → S → S → Bool
  can_transition table current target = is_in target (table current)

  -- `none` where the assertion passes, the error that it raises otherwise.
  abbrev pub assert_transition : Table S → S → S → Option (InvalidTransition S)
  assert_transition table current target =
      if can_transition table current target
      then none
      else some (record { current = current; target = target })

-- `not table.get(state, frozenset())`
abbrev pub is_empty {ℓ} : {A : Type ℓ} → List A → Bool
is_empty [] = Bool.true
is_empty (x ∷ xs) = Bool.false

abbrev pub is_terminal : {S : Type 0} → Table S → S → Bool
is_terminal table state = is_empty (table state)

-- The sets that the source derives from the tables: `s in TERMINAL_PLAN_STATES` and
-- `s in TERMINAL_TASK_STATES`.
abbrev pub in_terminal_plan_states : PlanState → Bool
in_terminal_plan_states s = is_terminal plan_transitions s

abbrev pub in_terminal_task_states : TaskState → Bool
in_terminal_task_states s = is_terminal task_transitions s
