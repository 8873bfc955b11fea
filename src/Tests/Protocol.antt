-- ===== src/Tests/Protocol.antt =====
-- The protocol adapter at concrete inputs.
use agentic_local_app.Base.{
  ◌≡◌, refl, true, false, none, some, [], ◌∷◌, ok, ◌==◌, if◌then◌else◌, Returns, arith, ◌↔◌, ◌⊎◌,
  List,
}
use agentic_local_app.Domain.States.{
  MessageType, MessageDirection, TaskType, ExecutionPolicy, PlanType,
}
use agentic_local_app.Protocol.Cycles.{Deps, find_cycle, walk, walk_all, found}
use agentic_local_app.Protocol.Cycles.Ends.{IsClosed}
use agentic_local_app.Protocol.Cycles.Finds.{Decides, find_cycle-Decides}
use agentic_local_app.Protocol.Expectation.{
  MessageRecord, expected_inbound, last_substantive_outbound,
}
use agentic_local_app.Protocol.Expectation.Laws.{
  AreInbound, expected_inbound-AreInbound, expected_inbound_kept,
}
use agentic_local_app.Protocol.Inbound.{TaskMessage, PlanContent, Schema, Model}
use agentic_local_app.Protocol.Inbound.Plans.{validate_plan, warnings}
use agentic_local_app.Protocol.Inbound.Content.{
  Expected, Limits, InboundMessage, plan_content, parse_inbound,
}
use agentic_local_app.Protocol.Inbound.Accepted.{IsAccepted}
use agentic_local_app.Protocol.Inbound.Accepted.Verdict.{validate_plan-IsAccepted}
use agentic_local_app.Protocol.Inbound.Accepted.Contents.{IsParsed}
use agentic_local_app.Protocol.Inbound.Accepted.Messages.{parse_inbound-IsParsed}
use agentic_local_app.Protocol.Records.{ApplyConfig, plan_to_records}
use agentic_local_app.Protocol.Records.Budgets.{AreRowsOf, plan_to_records-AreRows}

-- 3 depends on 2, which depends on 1.
abbrev deps : Deps
deps x = if x == 3 then 2 ∷ [] else if x == 2 then 1 ∷ [] else []

deps-IsClosed : IsClosed deps (1 ∷ 2 ∷ 3 ∷ [])
deps-IsClosed x y h d = ground (arith, h, d)

find_cycle-Decides_example : Decides (1 ∷ 2 ∷ 3 ∷ []) deps (find_cycle (1 ∷ 2 ∷ 3 ∷ []) deps)
find_cycle-Decides_example = find_cycle-Decides (1 ∷ 2 ∷ 3 ∷ []) deps deps-IsClosed

-- 1 depends on 2, and 2 on 1.
find_cycle_of_two :
    find_cycle (1 ∷ 2 ∷ []) (λ x. if x == 1 then 2 ∷ [] else 1 ∷ []) ≡ found (1 ∷ 2 ∷ 1 ∷ [])
unfolding find_cycle walk walk_all
find_cycle_of_two = refl

abbrev request : MessageRecord
request = record {
  message_id = 1;
  direction = MessageDirection.outbound;
  message_type = MessageType.user_request;
}

abbrev correction : MessageRecord
correction = record request {
  message_id = 3;
  message_type = MessageType.protocol_correction_request;
}

expected_inbound-AreInbound_example :
    Returns
      (λ types.
        ((last_substantive_outbound (request ∷ correction ∷ []) ≡ none) × (types ≡ []))
        ⊎ AreInbound types)
      (expected_inbound true (last_substantive_outbound (request ∷ correction ∷ [])) false)
expected_inbound-AreInbound_example =
    expected_inbound-AreInbound true false (request ∷ correction ∷ [])

-- The model answered with an error, and a correction was asked for.
abbrev answered : List MessageRecord
answered = record request { message_id = 2; direction = MessageDirection.inbound } ∷ correction ∷ []

expected_inbound_kept_example :
    expected_inbound true (last_substantive_outbound (request ∷ answered)) false
    ≡ expected_inbound true (last_substantive_outbound (request ∷ [])) false
expected_inbound_kept_example = expected_inbound_kept true false (request ∷ []) answered refl

abbrev task : TaskMessage
task = record {
  task_id = 11;
  type = TaskType.cmd;
  cmd = some 50;
  critical = none;
  continue_on_error = none;
  stop_plan_on_failure = none;
  stop_plan_on_success = none;
  depends_on = [];
  resource_lock = none;
  max_output_bytes = some 90000;
  timeout_ms = none;
  ref_task_id = none;
  stream = none;
  byte_offset = none;
  max_bytes = none;
}

abbrev plan : PlanContent
plan = record {
  plan_id = 5;
  objective = 60;
  execution_policy = ExecutionPolicy.sequential;
  max_parallel_workers = none;
  default_max_output_bytes = none;
  default_continue_on_error = none;
  state_summary = none;
  tasks = task ∷ record task { task_id = 12; depends_on = 11 ∷ [] } ∷ [];
}

validate_plan-IsAccepted_example :
    (validate_plan (λ s. s) 100 plan (4 ∷ []) (10 ∷ []) [] ≡ ok (warnings plan))
    ↔ IsAccepted (λ s. s) 100 plan (4 ∷ []) (10 ∷ []) []
validate_plan-IsAccepted_example = validate_plan-IsAccepted (λ s. s) 100 plan (4 ∷ []) (10 ∷ []) []

-- The schema library on contents that are read already.
abbrev read_model : {A : Type 0} → A → Model (Unit {0}) A
read_model a = record { lenient = λ c. ok a; strict = λ c. [] }

abbrev schema : Schema (Unit {0}) (Unit {0})
schema = record {
  envelope = λ raw. ok (record {
    type = MessageType.execution_plan;
    conversation_id = 8;
    message_id = 9;
    content = tt;
  });
  plan = read_model plan;
  final_answer = read_model (record { status = 0; diagnosis = 0 });
  user_response = read_model (record { body = 0; expects_reply = false });
  ack = read_model (record { original_conversation_id = 8; acknowledged = true });
  size_bytes = λ raw. 300;
  text_bytes = λ s. s;
  summary_bytes = λ s. s;
}

abbrev limits : Limits
limits = record { max_message_bytes = 1000; max_state_summary_bytes = 100 }

abbrev expected : Expected
expected = record {
  types = MessageType.execution_plan ∷ MessageType.final_answer ∷ [];
  conversation_id = 2;
  remote_conversation_id = some 8;
  known_message_ids = 7 ∷ [];
  known_plan_ids = 4 ∷ [];
  known_task_ids = 10 ∷ [];
  stored_output_task_ids = [];
  original_conversation_id = none;
}

abbrev message : InboundMessage (Unit {0})
message = record {
  envelope = record {
    type = MessageType.execution_plan;
    conversation_id = 8;
    message_id = 9;
    content = tt;
  };
  content = plan_content plan;
  message_type = MessageType.execution_plan;
  plan_type = some PlanType.execution_plan;
  warnings = [];
  size_bytes = 300;
}

message_accepted : parse_inbound schema limits (tt ∷ []) expected ≡ ok message
unfolding parse_inbound validate_plan find_cycle walk walk_all
message_accepted = refl

parse_inbound-IsParsed_example : IsParsed schema limits expected (tt ∷ []) message
parse_inbound-IsParsed_example =
    parse_inbound-IsParsed schema limits expected (tt ∷ []) message message_accepted

abbrev config : ApplyConfig
config = record {
  default_max_output_bytes = 1000;
  hard_max_output_bytes = 50000;
  default_task_timeout_ms = 30000;
  max_task_timeout_ms = 600000;
}

plan_to_records-AreRows_example :
    Returns (AreRowsOf config plan) (plan_to_records config 500 1 2 3 message)
plan_to_records-AreRows_example =
    plan_to_records-AreRows schema limits expected (tt ∷ []) message plan config 500 1 2 3
      message_accepted refl
