-- ===== src/Protocol/Inbound/Accepted/Contents.antt =====
-- src/agentic_local_app/protocol/adapter.py: what is known of a message that is accepted.
use agentic_local_app.Base.{
  ℕ, ◌≤◌, ◌≡◌, refl, true, false, Option, none, some, List, [], ◌∷◌, has, ==_iff, Result, ok, err,
  ok-injective, is_in, arith, ◌∙◌, sym, ap,
}
use agentic_local_app.Domain.States.{MessageType}
use agentic_local_app.Domain.Values.{message_type_enum}
use agentic_local_app.Domain.Messages.{
  plan_message_types, inbound_message_types, plan_type_for_message,
}
use agentic_local_app.Protocol.Inbound.{
  PlanContent, ContextResumeAckContent, SchemaFault, Envelope, Model, Schema,
}
use agentic_local_app.Protocol.Inbound.Plans.{Warning, validate_plan, warnings}
use agentic_local_app.Protocol.Inbound.Content.{
  Expected, Limits, InboundContent, plan_content, final_answer_content, user_response_content,
  ack_content, InboundMessage, remote_id, validate_content, accept_content, validate_ack,
}
use agentic_local_app.Protocol.Inbound.Accepted.{IsAccepted}
use agentic_local_app.Protocol.Inbound.Accepted.Checks.{then-ok}
use agentic_local_app.Protocol.Inbound.Accepted.Verdict.{validate_plan-IsAccepted}

-- Both passes of the schema library read the content without a fault.
abbrev pub IsRead : {Content A : Type 0} → Model Content A → Content → A → Type 0
IsRead model content a = (model.lenient content ≡ ok a) × (model.strict content ≡ [])

module _ {Raw Content : Type 0} (schema : Schema Raw Content) (limits : Limits)
    (expected : Expected) where
  -- What is known of the content by the type of the message.
  abbrev pub IsContent : Envelope Content → InboundContent → List Warning → Type 0
  IsContent envelope (plan_content p) ws =
      (is_in envelope.type plan_message_types ≡ true)
      × IsRead schema.plan envelope.content p
      × IsAccepted schema.summary_bytes limits.max_state_summary_bytes p expected.known_plan_ids
          expected.known_task_ids expected.stored_output_task_ids
      × (ws ≡ warnings p)
  IsContent envelope (final_answer_content c) ws =
      (envelope.type ≡ MessageType.final_answer) × IsRead schema.final_answer envelope.content c
  IsContent envelope (user_response_content c) ws =
      (envelope.type ≡ MessageType.user_response)
      × IsRead schema.user_response envelope.content c
      × (schema.text_bytes c.body ≤ limits.max_message_bytes)
  IsContent envelope (ack_content c) ws =
      (envelope.type ≡ MessageType.context_resume_ack)
      × IsRead schema.ack envelope.content c
      × ((original : ℕ)
          → expected.original_conversation_id ≡ some original
          → c.original_conversation_id ≡ original)
      × (c.acknowledged ≡ true)

  pub record IsParsed (raws : List Raw) (m : InboundMessage Content) : Type 0 where
    pub only : (raw : Raw) × (raws ≡ raw ∷ []) × (schema.envelope raw ≡ ok m.envelope)
    pub addressed :
        m.envelope.conversation_id
        ≡ remote_id expected.remote_conversation_id expected.conversation_id
    pub is_new : has m.envelope.message_id expected.known_message_ids ≡ false
    pub is_inbound : is_in m.message_type inbound_message_types ≡ true
    pub is_expected : is_in m.message_type expected.types ≡ true
    pub same_type : m.message_type ≡ m.envelope.type
    pub plan_type_fits : m.plan_type ≡ plan_type_for_message m.message_type
    pub content_fits : IsContent m.envelope m.content m.warnings

pub validate_content-ok :
    {Content A : Type 0} (envelope : Envelope Content) (model : Model Content A) (a : A)
    → validate_content envelope model ≡ ok a
    → IsRead model envelope.content a
validate_content-ok envelope model a h =
    go (model.lenient envelope.content) (model.strict envelope.content) h
  where
    go :
        (r : Result (List SchemaFault) _) (faults : List SchemaFault)
        → accept_content envelope r faults ≡ ok a
        → (r ≡ ok a) × (faults ≡ [])
    go (ok b) [] h = (cc h, refl)
    go (ok b) (f ∷ faults) h = cc
    go (err e) faults h = cc

pub validate_ack-ok :
    (ack : ContextResumeAckContent) (original : Option ℕ)
    → validate_ack ack original ≡ ok tt
    → ((o : ℕ) → original ≡ some o → ack.original_conversation_id ≡ o) × (ack.acknowledged ≡ true)
validate_ack-ok ack none h = (λ o e. cc, ground (arith, h))
validate_ack-ok ack (some original) h =
    let same : ack.original_conversation_id ≡ original =
      ground (arith, h, ==_iff ack.original_conversation_id original) in
    (λ o e. same ∙ cc e, ground (arith, h))

pub validate_plan-ok :
    (summary_bytes : ℕ → ℕ) (limit : ℕ) (plan : PlanContent) (plans tasks stored : List ℕ)
    (ws : List Warning)
    → validate_plan summary_bytes limit plan plans tasks stored ≡ ok ws
    → IsAccepted summary_bytes limit plan plans tasks stored × (ws ≡ warnings plan)
unfolding validate_plan
validate_plan-ok summary_bytes limit plan plans tasks stored ws h =
    let same : ws ≡ warnings plan =
      ok-injective ws (warnings plan) (sym ((then-ok _ (ok (warnings plan)) ws).0 h).1) in
    (
      (validate_plan-IsAccepted summary_bytes limit plan plans tasks stored).0 (h ∙ ap ok same),
      same,
    )
