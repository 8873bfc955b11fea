-- ===== src/Protocol/Inbound/Accepted/Messages.antt =====
-- src/agentic_local_app/protocol/adapter.py: the messages that `parse_inbound` returns.
use mathlib.Core.Path.{subst}
use agentic_local_app.Base.{
  ◌≡◌, refl, Bool, true, false, not, List, [], ◌∷◌, if◌then◌else◌, has, ◌==◌, ==_iff, Result, ok,
  err, ◌>>◌, ◌>>=◌, bind-ok, ok-injective, raise_if, ◌is◌, is_in, is_iff, arith,
}
use agentic_local_app.Domain.States.{MessageType}
use agentic_local_app.Domain.Values.{message_type_enum}
use agentic_local_app.Domain.Messages.{
  plan_message_types, inbound_message_types, plan_type_for_message,
}
use agentic_local_app.Protocol.Inbound.{
  SchemaFault, Envelope, ProtocolError, Schema, invalid_envelope,
}
use agentic_local_app.Protocol.Inbound.Plans.{Warning, validate_plan}
use agentic_local_app.Protocol.Inbound.Content.{
  Expected, Limits, InboundContent, plan_content, final_answer_content, user_response_content,
  ack_content, InboundMessage, remote_id, validate_content, validate_user_response, validate_ack,
  read_content, check_envelope, read_envelope, parse_inbound, read_plan, read_final_answer,
  read_user_response, read_ack,
}
use agentic_local_app.Protocol.Inbound.Accepted.Checks.{then-ok, within}
use agentic_local_app.Protocol.Inbound.Accepted.Contents.{
  IsContent, IsParsed, validate_content-ok, validate_ack-ok, validate_plan-ok,
}

module _ {Raw Content : Type 0} (schema : Schema Raw Content) (limits : Limits)
    (expected : Expected) where
  returned :
      (envelope : Envelope Content) (x y : InboundContent × List Warning)
      → ◌≡◌ {A = Result ProtocolError (InboundContent × List Warning)} (ok x) (ok y)
      → IsContent schema limits expected envelope x.0 x.1
      → IsContent schema limits expected envelope y.0 y.1
  returned envelope x y e h =
      subst
        (λ (z : InboundContent × List Warning). IsContent schema limits expected envelope z.0 z.1)
        (ok-injective x y e) h

  plan_read :
      (envelope : Envelope Content) (c : InboundContent) (ws : List Warning)
      → is_in envelope.type plan_message_types ≡ true
      → read_plan schema limits envelope expected ≡ ok (c, ws)
      → IsContent schema limits expected envelope c ws
  plan_read envelope c ws kind h =
      let (p, read, rest) = bind-ok (validate_content envelope schema.plan) _ h in
      let (ws', valid, last) =
        bind-ok
          (validate_plan schema.summary_bytes limits.max_state_summary_bytes p
            expected.known_plan_ids expected.known_task_ids expected.stored_output_task_ids)
          _ rest in
      let (accepted, same) =
        validate_plan-ok schema.summary_bytes limits.max_state_summary_bytes p
          expected.known_plan_ids expected.known_task_ids expected.stored_output_task_ids ws'
          valid in
      returned envelope (plan_content p, ws') (c, ws) last
        (kind, validate_content-ok envelope schema.plan p read, accepted, same)

  answer_read :
      (envelope : Envelope Content) (c : InboundContent) (ws : List Warning)
      → envelope.type ≡ MessageType.final_answer
      → read_final_answer schema limits envelope ≡ ok (c, ws)
      → IsContent schema limits expected envelope c ws
  answer_read envelope c ws kind h =
      let (p, read, last) = bind-ok (validate_content envelope schema.final_answer) _ h in
      returned envelope (final_answer_content p, []) (c, ws) last
        (kind, validate_content-ok envelope schema.final_answer p read)

  response_read :
      (envelope : Envelope Content) (c : InboundContent) (ws : List Warning)
      → envelope.type ≡ MessageType.user_response
      → read_user_response schema limits envelope ≡ ok (c, ws)
      → IsContent schema limits expected envelope c ws
  response_read envelope c ws kind h =
      let (p, read, rest) = bind-ok (validate_content envelope schema.user_response) _ h in
      let (small, last) =
        (then-ok (validate_user_response schema.text_bytes limits.max_message_bytes p)
            (ok (user_response_content p, [])) (c, ws)).0
          rest in
      returned envelope (user_response_content p, []) (c, ws) last
        (
          kind,
          validate_content-ok envelope schema.user_response p read,
          (within (schema.text_bytes p.body) limits.max_message_bytes _).0 small,
        )

  ack_read :
      (envelope : Envelope Content) (c : InboundContent) (ws : List Warning)
      → envelope.type ≡ MessageType.context_resume_ack
      → read_ack schema limits envelope expected ≡ ok (c, ws)
      → IsContent schema limits expected envelope c ws
  ack_read envelope c ws kind h =
      let (p, read, rest) = bind-ok (validate_content envelope schema.ack) _ h in
      let (valid, last) =
        (then-ok (validate_ack p expected.original_conversation_id) (ok (ack_content p, []))
            (c, ws)).0
          rest in
      let (original, acknowledged) = validate_ack-ok p expected.original_conversation_id valid in
      returned envelope (ack_content p, []) (c, ws) last
        (kind, validate_content-ok envelope schema.ack p read, original, acknowledged)

  -- An inbound message that is no plan, no final answer and no user response acknowledges a resume.
  acknowledges :
      (t : MessageType)
      → is_in t inbound_message_types ≡ true
      → is_in t plan_message_types ≡ false
      → (t is MessageType.final_answer) ≡ false
      → (t is MessageType.user_response) ≡ false
      → t ≡ MessageType.context_resume_ack
  acknowledges t i p a r = ground arith

  content_read :
      (envelope : Envelope Content) (c : InboundContent) (ws : List Warning)
      → is_in envelope.type inbound_message_types ≡ true
      → read_content schema limits envelope expected ≡ ok (c, ws)
      → IsContent schema limits expected envelope c ws
  content_read envelope c ws i h =
      go (is_in envelope.type plan_message_types) (envelope.type is MessageType.final_answer)
        (envelope.type is MessageType.user_response) refl refl refl h
    where
      go :
          (plan answer response : Bool)
          → is_in envelope.type plan_message_types ≡ plan
          → (envelope.type is MessageType.final_answer) ≡ answer
          → (envelope.type is MessageType.user_response) ≡ response
          → (if plan
              then read_plan schema limits envelope expected
              else if answer
              then read_final_answer schema limits envelope
              else if response
              then read_user_response schema limits envelope
              else read_ack schema limits envelope expected)
            ≡ ok (c, ws)
          → IsContent schema limits expected envelope c ws
      go true a r e f g h = plan_read envelope c ws e h
      go false true r e f g h = answer_read envelope c ws ((is_iff envelope.type _).0 f) h
      go false false true e f g h = response_read envelope c ws ((is_iff envelope.type _).0 g) h
      go false false false e f g h = ack_read envelope c ws (acknowledges envelope.type i e f g) h

  -- The tests of the envelope that let it through.
  record IsAddressed (envelope : Envelope Content) : Type 0 where
    addressed :
        (envelope.conversation_id
          == remote_id expected.remote_conversation_id expected.conversation_id)
        ≡ true
    is_new : has envelope.message_id expected.known_message_ids ≡ false
    is_inbound : is_in envelope.type inbound_message_types ≡ true
    is_expected : is_in envelope.type expected.types ≡ true

  four-ok :
      (a b c d : Bool) (e f g h : ProtocolError)
      → (raise_if (not a) e >> raise_if b f >> raise_if (not c) g >> raise_if (not d) h) ≡ ok tt
      → (a ≡ true) × (b ≡ false) × (c ≡ true) × (d ≡ true)
  four-ok a b c d e f g h p = ground (arith, p)

  envelope_checked :
      (envelope : Envelope Content)
      → check_envelope schema limits envelope expected ≡ ok tt
      → IsAddressed envelope
  envelope_checked envelope h =
      let (a, b, c, d) = four-ok _ _ _ _ _ _ _ _ h in
      record { addressed = a; is_new = b; is_inbound = c; is_expected = d }

  read_envelope-ok :
      (raw : Raw) (envelope : Envelope Content)
      → read_envelope schema limits raw ≡ ok envelope
      → schema.envelope raw ≡ ok envelope
  read_envelope-ok raw envelope h = go (schema.envelope raw) h
    where
      go :
          (r : Result (List SchemaFault) (Envelope Content))
          → elim r [ ok e ↦ ok e | err faults ↦ err (invalid_envelope faults) ] ≡ ok envelope
          → r ≡ ok envelope
      go (ok e) h = cc
      go (err faults) h = cc

  -- A reply that is accepted is one message, of the expected conversation, with a new identifier and a type that
  -- is expected now; both passes of the schema library read its content, and the content passes the checks that
  -- belong to its type.
  pub parse_inbound-IsParsed :
      (raws : List Raw) (m : InboundMessage Content)
      → parse_inbound schema limits raws expected ≡ ok m
      → IsParsed schema limits expected raws m
  unfolding parse_inbound
  parse_inbound-IsParsed [] m h = cc
  parse_inbound-IsParsed (raw ∷ extra ∷ rest) m h = cc
  parse_inbound-IsParsed (raw ∷ []) m h =
      let (envelope, read, h1) = bind-ok (read_envelope schema limits raw) _ h in
      let (checked, h2) =
        (then-ok (check_envelope schema limits envelope expected)
            (read_content schema limits envelope expected >>= _) m).0
          h1 in
      let (found, content, last) = bind-ok (read_content schema limits envelope expected) _ h2 in
      let a = envelope_checked envelope checked in
      let parsed : InboundMessage Content = record {
        envelope = envelope;
        content = found.0;
        message_type = envelope.type;
        plan_type = plan_type_for_message envelope.type;
        warnings = found.1;
        size_bytes = schema.size_bytes raw;
      } in
      subst (IsParsed schema limits expected (raw ∷ [])) (ok-injective parsed m last) (record {
        only = (raw, refl, read_envelope-ok raw envelope read);
        addressed = (==_iff envelope.conversation_id _).0 a.addressed;
        is_new = a.is_new;
        is_inbound = a.is_inbound;
        is_expected = a.is_expected;
        same_type = refl;
        plan_type_fits = refl;
        content_fits = content_read envelope found.0 found.1 a.is_inbound content;
      })
