-- ===== src/Domain/Messages.antt =====
-- src/agentic_local_app/domain/states.py: the sets of message types and the two mappings.
use agentic_local_app.Base.{Option, none, some, List, [], ◌∷◌, ◌++◌}
use agentic_local_app.Domain.States.{MessageType, PlanType, CycleType}

abbrev pub plan_message_types : List MessageType
plan_message_types =
    MessageType.discovery_plan ∷ MessageType.execution_plan ∷ MessageType.priority_clarification
    ∷ []

abbrev pub substantive_outbound_message_types : List MessageType
substantive_outbound_message_types =
    MessageType.user_request ∷ MessageType.execution_result ∷ MessageType.context_resume_request
    ∷ []

abbrev pub outbound_message_types : List MessageType
outbound_message_types =
    substantive_outbound_message_types ++ MessageType.protocol_correction_request ∷ []

abbrev pub inbound_message_types : List MessageType
inbound_message_types =
    plan_message_types
    ++ MessageType.final_answer ∷ MessageType.user_response ∷ MessageType.context_resume_ack ∷ []

abbrev pub concluding_message_types : List MessageType
concluding_message_types = MessageType.final_answer ∷ MessageType.user_response ∷ []

-- `mapping[message_type]`: `none` is the `KeyError` of a type that carries no plan.
abbrev pub plan_type_for_message : MessageType → Option PlanType
plan_type_for_message MessageType.discovery_plan = some PlanType.discovery_plan
plan_type_for_message MessageType.execution_plan = some PlanType.execution_plan
plan_type_for_message MessageType.priority_clarification = some PlanType.priority_clarification
plan_type_for_message _ = none

abbrev pub cycle_type_for_plan : PlanType → CycleType
cycle_type_for_plan PlanType.discovery_plan = CycleType.discovery
cycle_type_for_plan PlanType.execution_plan = CycleType.execution
cycle_type_for_plan PlanType.priority_clarification = CycleType.clarification
