-- ===== src/Lib.antt =====
-- A formal model of agentic-local-app, a local agent that holds a conversation with a model
-- server, runs the plans that the model sends and reports their results. The program is the Python
-- package src/agentic_local_app. Its logic is a set of state machines with explicit transition
-- tables (domain), a manager of sessions and conversations (lifecycle), an adapter that checks what
-- the model sends (protocol), a layer that decides what to do about failures (resilience), a
-- monitor of the size of the conversation (context), a store (persistence), a hash-chained audit
-- trail (observability), and a scheduler of plans with a guard on the size of what it reports and
-- a collector of the results (execution).
--
-- How the parts interact: the breaker and the plan runner change a state only through
-- `assert_transition` on a table of src/agentic_local_app/domain/transitions.py, and so does the
-- lifecycle manager, which writes the record to the store before it publishes the event. The
-- protocol adapter checks a plan before it is projected to the records that the plan runner reads;
-- what it expects depends on the last message that was sent. The failure
-- manager asks the retry controller for a delay and the breaker for permission. The plan runner
-- launches tasks, has their outputs truncated by the payload guard, which serves later chunk
-- requests from the blobs of the store.
--
-- Files, with the code that each models:
--   Base/*: results, tests on naturals, lists, sets, integers (shared helpers)
--   Domain/States, Values, Messages: src/agentic_local_app/domain/states.py
--   Domain/Transitions: src/agentic_local_app/domain/transitions.py: tables, can_transition,
--       assert_transition, is_terminal
--   Domain/Errors: src/agentic_local_app/domain/errors.py: ErrorType, NormalizedError,
--       with_attempt
--   Domain/Shell: src/agentic_local_app/domain/shell.py,
--       src/agentic_local_app/domain/commands.py: command_not_run_reason, is_verdict
--   Resilience/Breaker: src/agentic_local_app/resilience/circuit_breaker.py: the class
--       CircuitBreaker
--   Resilience/Retry: src/agentic_local_app/resilience/retry_controller.py: the class
--       RetryController
--   Resilience/Failure: src/agentic_local_app/resilience/failure_manager.py: the class
--       FailureManager
--   Context/Window: src/agentic_local_app/context/window.py: the class ContextWindowMonitor
--   Persistence/Blobs src/agentic_local_app/persistence/memory.py: the blobs of
--       InMemoryConversationStore
--   Persistence/Records, Rows, Store: src/agentic_local_app/domain/models.py,
--       src/agentic_local_app/persistence/memory.py: the sessions and conversations, the write guard
--       and the transactions of InMemoryConversationStore
--   Lifecycle: src/agentic_local_app/lifecycle/conversation_lifecycle.py: the class
--       ConversationLifecycleManager; Sessions and Conversations are its methods
--   Protocol/Expectation: src/agentic_local_app/protocol/adapter.py: EXPECTED_INBOUND,
--       expected_inbound_for, last_substantive_outbound, situation_for, expected_inbound
--   Protocol/Inbound: src/agentic_local_app/protocol/adapter.py,
--       src/agentic_local_app/protocol/messages.py: the contents; Plans is _validate_plan, Content
--       is parse_inbound
--   Protocol/Cycles: src/agentic_local_app/protocol/adapter.py: _find_cycle
--   Protocol/Records: src/agentic_local_app/protocol/adapter.py: plan_to_records
--   Execution/Payload src/agentic_local_app/execution/payload_guard.py: the class PayloadGuard;
--       Chunk is serve_chunk, Fit is fit_message
--   Execution/Runner: src/agentic_local_app/execution/plan_runner.py: the class _PlanExecution;
--       Tasks is _apply_changes, Schedule is _ready, _launch and _transition_plan, Finish is _finish
--       and the stop conditions, Loop is _loop
--   Execution/Collector: src/agentic_local_app/execution/result_collector.py: the class
--       ResultCollector
--   Observability/Audit: src/agentic_local_app/observability/audit_log.py: the class AuditLog;
--       src/agentic_local_app/persistence/memory.py: the audit events
--   Tests/*: the theorems at concrete inputs
-- The child modules of a component hold its proofs.
--
-- Conventions. A Python integer that is never negative is a natural number; where the source can
-- go below zero the model has an integer or writes the comparison without subtraction. A text that
-- is only carried or compared (an identifier, a code) is a natural number. Exceptions are the
-- error case of a result; where an object has changed before it raises, the call gives its state too.
-- That a critical subscriber of the event bus raises is an answer of the bus to the event. What the clock, the operating system, the event loop and the network
-- answer is an argument of the step that reads it. UTF-8, canonical JSON, SHA-256 and the parsing
-- of command lines are parameters. Events are lists, newest first.
--
-- Fuel. `fit` runs on fuel and says `none` when it runs out; on ASCII outputs more fuel than there
-- are bytes is enough. The work list of `skip_worklist` takes each task at most once besides the
-- root, so one more than the number of tasks is enough. The loop of `verify` reads one page in
-- each round, so one round more than there are events is enough. The search of `_find_cycle` takes
-- a step for each task and each dependency; `effort` counts them. The loop of the plan runner runs
-- over a list of rounds, one for each turn, and says `none` when the list ends first.
--
-- Not modelled: input and output (interfaces, transport, codecs, processes, scratch files,
-- SQLite), the reading of the configuration; the orchestration, rotation, recovery,
-- interruption and the execution tracker. Of the plan runner, the validation
-- of the plan, the translation of commands, the blobs that it writes, its failure records and its
-- output events are left out; of the protocol adapter, the texts that it renders and the outbound
-- messages; of the store, the tables of cycles, plans, tasks, messages and failures.
pub mod Base
pub mod Domain
pub mod Resilience
pub mod Context
pub mod Persistence
pub mod Lifecycle
pub mod Protocol
pub mod Execution
pub mod Observability
pub mod Tests
