-- ===== src/Protocol/Inbound/Content.antt =====
-- src/agentic_local_app/protocol/adapter.py: `parse_inbound`.
use agentic_local_app.Base.{
  ℕ, Bool, true, false, not, Option, none, some, List, [], ◌∷◌, ◌++◌, length, any, ◌==◌, ltb,
  if◌then◌else◌, has, ◌is◌, is_in, Result, ok, err, ◌>>=◌, ◌>>◌, raise_if,
}
use agentic_local_app.Domain.States.{MessageType, PlanType}
use agentic_local_app.Domain.Values.{message_type_enum}
use agentic_local_app.Domain.Messages.{
  plan_message_types, inbound_message_types, plan_type_for_message,
}
use agentic_local_app.Protocol.Inbound.{
  PlanContent, FinalAnswerContent, UserResponseContent, ContextResumeAckContent, SchemaFault,
  Envelope, ProtocolError, empty_reply, unexpected_extra_message, invalid_envelope, invalid_content,
  conversation_mismatch, duplicate_message_id, system_error_not_allowed_inbound,
  unexpected_message_type, user_response_too_large, ack_wrong_original, ack_not_acknowledged, Model,
  Schema,
}
use agentic_local_app.Protocol.Inbound.Plans.{Warning, validate_plan}

-- The arguments of `parse_inbound` but the messages; sets are listed.
pub record Expected : Type 0 where
  pub types : List MessageType
  pub conversation_id : ℕ
  pub remote_conversation_id : Option ℕ
  pub known_message_ids : List ℕ
  pub known_plan_ids : List ℕ
  pub known_task_ids : List ℕ
  pub stored_output_task_ids : List ℕ
  pub original_conversation_id : Option ℕ

-- The limits of the payload section.
pub record Limits : Type 0 where
  pub max_message_bytes : ℕ
  pub max_state_summary_bytes : ℕ

pub data InboundContent : Type 0 where
  plan_content : PlanContent → InboundContent
  final_answer_content : FinalAnswerContent → InboundContent
  user_response_content : UserResponseContent → InboundContent
  ack_content : ContextResumeAckContent → InboundContent

pub record InboundMessage (Content : Type 0) : Type 0 where
  pub envelope : Envelope Content
  pub content : InboundContent
  pub message_type : MessageType
  pub plan_type : Option PlanType
  pub warnings : List Warning
  pub size_bytes : ℕ

-- `_remote_id`
abbrev pub remote_id : Option ℕ → ℕ → ℕ
remote_id none local_id = local_id
remote_id (some id) local_id = id

abbrev pub has_loc : ℕ → List SchemaFault → Bool
has_loc loc faults = any (λ (f : SchemaFault). f.loc == loc) faults

-- The faults of the strict pass at a place that the first pass did not name.
abbrev pub unnamed : List SchemaFault → List SchemaFault → List SchemaFault
unnamed named [] = []
unnamed named (f ∷ faults) =
    let rest = unnamed named faults in if has_loc f.loc named then rest else f ∷ rest

-- `if content is None or errors: raise`
abbrev pub accept_content :
    {Content A : Type 0}
    → Envelope Content
    → Result (List SchemaFault) A
    → List SchemaFault
    → Result ProtocolError A
accept_content envelope (ok a) [] = ok a
accept_content envelope (ok a) (f ∷ faults) =
    err (invalid_content envelope.type envelope.message_id (f ∷ faults))
accept_content envelope (err errors) faults =
    err (invalid_content envelope.type envelope.message_id (errors ++ unnamed errors faults))

-- `_validate_content`
abbrev pub validate_content :
    {Content A : Type 0} → Envelope Content → Model Content A → Result ProtocolError A
validate_content envelope model =
    accept_content envelope (model.lenient envelope.content) (model.strict envelope.content)

-- `_validate_user_response`
abbrev pub validate_user_response :
    (ℕ → ℕ) → ℕ → UserResponseContent → Result ProtocolError (Unit {0})
validate_user_response text_bytes limit response =
    raise_if (ltb limit (text_bytes response.body))
      (user_response_too_large (text_bytes response.body) limit)

abbrev pub check_original : ℕ → Option ℕ → Result ProtocolError (Unit {0})
check_original received none = ok tt
check_original received (some original) =
    raise_if (not (received == original)) (ack_wrong_original received original)

-- `_validate_ack`
abbrev pub validate_ack : ContextResumeAckContent → Option ℕ → Result ProtocolError (Unit {0})
validate_ack ack original =
    check_original ack.original_conversation_id original
    >> raise_if (not ack.acknowledged) (ack_not_acknowledged ack.original_conversation_id)

module _ {Raw Content : Type 0} (schema : Schema Raw Content) (limits : Limits) where
  -- The content and the warnings of a plan.
  abbrev pub read_plan :
      Envelope Content → Expected → Result ProtocolError (InboundContent × List Warning)
  read_plan envelope expected = validate_content envelope schema.plan >>= (λ plan.
      validate_plan schema.summary_bytes limits.max_state_summary_bytes plan expected.known_plan_ids
        expected.known_task_ids expected.stored_output_task_ids
      >>= (λ warnings. ok (plan_content plan, warnings)))

  abbrev pub read_final_answer :
      Envelope Content → Result ProtocolError (InboundContent × List Warning)
  read_final_answer envelope =
      validate_content envelope schema.final_answer
      >>= (λ answer. ok (final_answer_content answer, []))

  abbrev pub read_user_response :
      Envelope Content → Result ProtocolError (InboundContent × List Warning)
  read_user_response envelope = validate_content envelope schema.user_response >>= (λ response.
      validate_user_response schema.text_bytes limits.max_message_bytes response
      >> ok (user_response_content response, []))

  abbrev pub read_ack :
      Envelope Content → Expected → Result ProtocolError (InboundContent × List Warning)
  read_ack envelope expected =
      validate_content envelope schema.ack
      >>= (λ ack. validate_ack ack expected.original_conversation_id >> ok (ack_content ack, []))

  -- By the type of the message.
  abbrev pub read_content :
      Envelope Content → Expected → Result ProtocolError (InboundContent × List Warning)
  read_content envelope expected =
      if is_in envelope.type plan_message_types
      then read_plan envelope expected
      else if envelope.type is MessageType.final_answer
      then read_final_answer envelope
      else if envelope.type is MessageType.user_response
      then read_user_response envelope
      else read_ack envelope expected

  -- The checks of the envelope.
  abbrev pub check_envelope : Envelope Content → Expected → Result ProtocolError (Unit {0})
  check_envelope envelope expected =
      raise_if
        (not (
          envelope.conversation_id
          == remote_id expected.remote_conversation_id expected.conversation_id))
        (conversation_mismatch envelope.conversation_id
          (remote_id expected.remote_conversation_id expected.conversation_id))
      >> raise_if (has envelope.message_id expected.known_message_ids)
          (duplicate_message_id envelope.message_id)
      >> raise_if (not (is_in envelope.type inbound_message_types)) (
          if envelope.type is MessageType.system_error
          then system_error_not_allowed_inbound envelope.message_id
          else unexpected_message_type envelope.type false envelope.message_id)
      >> raise_if (not (is_in envelope.type expected.types))
          (unexpected_message_type envelope.type true envelope.message_id)

  abbrev pub read_envelope : Raw → Result ProtocolError (Envelope Content)
  read_envelope raw = elim (schema.envelope raw) [
    | ok envelope ↦ ok envelope
    | err faults ↦ err (invalid_envelope faults)
  ]

  abbrev pub parse_one : Raw → Expected → Result ProtocolError (InboundMessage Content)
  parse_one raw expected = read_envelope raw >>= (λ envelope.
      check_envelope envelope expected
      >> (read_content envelope expected >>= (λ read.
          let (content, warnings) = read in
          ok (record {
            envelope = envelope;
            content = content;
            message_type = envelope.type;
            plan_type = plan_type_for_message envelope.type;
            warnings = warnings;
            size_bytes = schema.size_bytes raw;
          }))))

  -- `parse_inbound`
  unfoldable pub parse_inbound : List Raw → Expected → Result ProtocolError (InboundMessage Content)
  unfolding validate_plan
  parse_inbound [] expected = err empty_reply
  parse_inbound (raw ∷ []) expected = parse_one raw expected
  parse_inbound (raw ∷ extra ∷ rest) expected =
      err (unexpected_extra_message (length (raw ∷ extra ∷ rest)))
