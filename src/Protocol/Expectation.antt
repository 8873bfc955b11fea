-- ===== src/Protocol/Expectation.antt =====
-- src/agentic_local_app/protocol/adapter.py: the table of the expected inbound messages.
pub mod Laws
use agentic_local_app.Base.{
  ℕ, Bool, true, false, ◌&&◌, Option, none, some, List, [], ◌∷◌, ◌++◌, reverse, if◌then◌else◌, ◌is◌,
  is_in, Result, ok, err,
}
use agentic_local_app.Domain.States.{MessageType, MessageDirection}
use agentic_local_app.Domain.Values.{message_type_enum, message_direction_enum}
use agentic_local_app.Domain.Messages.{substantive_outbound_message_types}

pub data OutboundSituation : Type 0 where
  initial_user_request follow_up_user_request execution_result context_resume_request :
      OutboundSituation

-- `MessageRecord`, as the table reads it.
pub record MessageRecord : Type 0 where
  pub message_id : ℕ
  pub direction : MessageDirection
  pub message_type : MessageType

-- `EXPECTED_INBOUND`
abbrev pub expected_inbound_table : OutboundSituation → List MessageType
expected_inbound_table OutboundSituation.initial_user_request = MessageType.discovery_plan ∷ []
expected_inbound_table OutboundSituation.follow_up_user_request =
    MessageType.discovery_plan ∷ MessageType.execution_plan ∷ MessageType.priority_clarification
    ∷ MessageType.final_answer ∷ MessageType.user_response ∷ []
expected_inbound_table OutboundSituation.execution_result =
    MessageType.execution_plan ∷ MessageType.priority_clarification ∷ MessageType.final_answer
    ∷ MessageType.user_response ∷ []
expected_inbound_table OutboundSituation.context_resume_request =
    MessageType.context_resume_ack ∷ []

abbrev pub is_initial : OutboundSituation → Bool
is_initial OutboundSituation.initial_user_request = true
is_initial _ = false

unfoldable pub expected_inbound_for : OutboundSituation → Bool → List MessageType
expected_inbound_for situation allow_direct_response =
    if is_initial situation && allow_direct_response
    then expected_inbound_table situation ++ MessageType.user_response ∷ []
    else expected_inbound_table situation

abbrev pub is_substantive : MessageRecord → Bool
is_substantive m =
    m.direction is MessageDirection.outbound
    && is_in m.message_type substantive_outbound_message_types

abbrev pub first_substantive : List MessageRecord → Option MessageRecord
first_substantive [] = none
first_substantive (m ∷ messages) = if is_substantive m then some m else first_substantive messages

-- `for message in reversed(messages): ...`
unfoldable pub last_substantive_outbound : List MessageRecord → Option MessageRecord
last_substantive_outbound messages = first_substantive (reverse messages)

-- The `ValueError`s of `situation_for`.
pub data SituationError : Type 0 where
  not_outbound : ℕ → SituationError
  sets_no_expectation : SituationError
  not_an_outbound_type : MessageType → SituationError

abbrev pub situation_of : MessageType → Bool → Result SituationError OutboundSituation
situation_of MessageType.user_request final_answer_received =
    if final_answer_received
    then ok OutboundSituation.follow_up_user_request
    else ok OutboundSituation.initial_user_request
situation_of MessageType.execution_result f = ok OutboundSituation.execution_result
situation_of MessageType.context_resume_request f = ok OutboundSituation.context_resume_request
situation_of MessageType.protocol_correction_request f = err sets_no_expectation
situation_of other f = err (not_an_outbound_type other)

-- `situation_for`; of the conversation it reads `final_answer_received`.
unfoldable pub situation_for : MessageRecord → Bool → Result SituationError OutboundSituation
situation_for last_outbound final_answer_received =
    if last_outbound.direction is MessageDirection.outbound
    then situation_of last_outbound.message_type final_answer_received
    else err (not_outbound last_outbound.message_id)

-- `ProtocolAdapter.expected_inbound`
unfoldable pub expected_inbound :
    Bool → Option MessageRecord → Bool → Result SituationError (List MessageType)
unfolding situation_for expected_inbound_for
expected_inbound allow_direct_response none final_answer_received = ok []
expected_inbound allow_direct_response (some last_outbound) final_answer_received =
    elim (situation_for last_outbound final_answer_received) [
      | ok situation ↦ ok (expected_inbound_for situation allow_direct_response)
      | err e ↦ err e
    ]
