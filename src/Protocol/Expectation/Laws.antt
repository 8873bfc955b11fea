-- ===== src/Protocol/Expectation/Laws.antt =====
-- src/agentic_local_app/protocol/adapter.py: what the table of the expected messages gives.
use mathlib.Core.Path.{subst}
use mathlib.Core.List.{reverse-append, reverse-cons, append_assoc}
use agentic_local_app.Base.{
  ◌≡◌, refl, Bool, true, false, Option, none, some, List, [], ◌∷◌, ◌++◌, reverse, Returns, ok, err,
  is_in, if◌then◌else◌, all, Bool-cases, inl, inr, ◌⊎◌, Result, ℕ, ap, arith, ◌||◌, ◌is◌, ◌&&◌,
}
use agentic_local_app.Domain.States.{MessageType, MessageDirection}
use agentic_local_app.Domain.Values.{message_type_enum, message_direction_enum}
use agentic_local_app.Domain.Messages.{inbound_message_types}
use agentic_local_app.Protocol.Expectation.{
  MessageRecord, is_substantive, first_substantive, last_substantive_outbound, expected_inbound,
  situation_for, expected_inbound_for, SituationError,
}

-- Some message is expected, and each one that is comes from the model.
abbrev pub AreInbound : List MessageType → Type 0
AreInbound types = ((types ≡ []) → ⊥) × (all (λ t. is_in t inbound_message_types) types ≡ true)

first_substantive-found :
    (messages : List MessageRecord) (m : MessageRecord)
    → first_substantive messages ≡ some m
    → is_substantive m ≡ true
first_substantive-found [] m h = cc
first_substantive-found (x ∷ messages) m h = elim (Bool-cases (is_substantive x)) [
  | inl e ↦ subst (λ y. is_substantive y ≡ true) (first_is x m messages e h) e
  | inr e ↦ first_substantive-found messages m (skips x m messages e h)
]
  where
    first_is :
        (x m : MessageRecord) (messages : List MessageRecord)
        → is_substantive x ≡ true
        → first_substantive (x ∷ messages) ≡ some m
        → x ≡ m
    first_is x m messages e h =
        cc (subst (λ b. (if b then some x else first_substantive messages) ≡ some m) e h)

    skips :
        (x m : MessageRecord) (messages : List MessageRecord)
        → is_substantive x ≡ false
        → first_substantive (x ∷ messages) ≡ some m
        → first_substantive messages ≡ some m
    skips x m messages e h =
        subst (λ b. (if b then some x else first_substantive messages) ≡ some m) e h

substantive-Returns :
    (allow f : Bool) (m : MessageRecord)
    → is_substantive m ≡ true
    → Returns AreInbound (expected_inbound allow (some m) f)
unfolding expected_inbound situation_for expected_inbound_for
substantive-Returns allow f m h = go m.direction m.message_type h
  where
    go :
        (d : MessageDirection) (t : MessageType)
        → is_substantive (record { message_id = m.message_id; direction = d; message_type = t })
          ≡ true
        → Returns AreInbound (
            expected_inbound allow
              (some (record { message_id = m.message_id; direction = d; message_type = t }))
              f)
    go MessageDirection.inbound t h = cc
    go MessageDirection.outbound MessageType.user_request h = by_flags allow f
      where
        by_flags :
            (allow f : Bool)
            → Returns AreInbound (
                expected_inbound allow
                  (some (record {
                    message_id = m.message_id;
                    direction = MessageDirection.outbound;
                    message_type = MessageType.user_request;
                  }))
                  f)
        by_flags true true = (λ e. cc, refl)
        by_flags true false = (λ e. cc, refl)
        by_flags false true = (λ e. cc, refl)
        by_flags false false = (λ e. cc, refl)
    go MessageDirection.outbound MessageType.execution_result h = (λ e. cc, refl)
    go MessageDirection.outbound MessageType.context_resume_request h = (λ e. cc, refl)
    go MessageDirection.outbound MessageType.discovery_plan h = cc
    go MessageDirection.outbound MessageType.execution_plan h = cc
    go MessageDirection.outbound MessageType.priority_clarification h = cc
    go MessageDirection.outbound MessageType.final_answer h = cc
    go MessageDirection.outbound MessageType.user_response h = cc
    go MessageDirection.outbound MessageType.context_resume_ack h = cc
    go MessageDirection.outbound MessageType.protocol_correction_request h = cc
    go MessageDirection.outbound MessageType.chunk_request h = cc
    go MessageDirection.outbound MessageType.system_error h = cc

-- What is expected after the messages of a conversation is always defined. Where a request, a result or a resume
-- request was sent, some message is expected, and each one that is comes from the model; else none is.
pub expected_inbound-AreInbound :
    (allow f : Bool) (messages : List MessageRecord)
    → Returns
        (λ types. ((last_substantive_outbound messages ≡ none) × (types ≡ [])) ⊎ AreInbound types)
        (expected_inbound allow (last_substantive_outbound messages) f)
unfolding last_substantive_outbound expected_inbound
expected_inbound-AreInbound allow f messages =
    go (first_substantive (reverse messages)) (first_substantive-found (reverse messages))
  where
    go :
        (last : Option MessageRecord)
        → ((m : MessageRecord) → last ≡ some m → is_substantive m ≡ true)
        → Returns
            (λ types. ((last ≡ none) × (types ≡ [])) ⊎ AreInbound types)
            (expected_inbound allow last f)
    go none h = inl (refl, refl)
    go (some m) h =
        lift (expected_inbound allow (some m) f) (substantive-Returns allow f m (h m refl))
      where
        lift :
            (r : Result SituationError (List MessageType))
            → Returns AreInbound r
            → Returns (λ types. ((some m ≡ none) × (types ≡ [])) ⊎ AreInbound types) r
        lift (ok types) h = inr h
        lift (err e) h = h

-- What the model says, and the corrections that it is asked for.
abbrev pub are_no_request : List MessageRecord → Bool
are_no_request = all (λ (m : MessageRecord).
    (m.direction is MessageDirection.inbound)
    || (m.message_type is MessageType.protocol_correction_request))

not_substantive :
    (d : MessageDirection) (t : MessageType) (id : ℕ)
    → ((d is MessageDirection.inbound) || (t is MessageType.protocol_correction_request)) ≡ true
    → is_substantive (record { message_id = id; direction = d; message_type = t }) ≡ false
not_substantive d t id h = ground arith

find-append :
    (xs ys : List MessageRecord)
    → are_no_request xs ≡ true
    → first_substantive (reverse xs ++ ys) ≡ first_substantive ys
find-append [] ys h = refl
find-append (x ∷ xs) ys h =
    let (plain, rest) = both _ (are_no_request xs) h in
    rw (reverse-cons x xs, append_assoc (reverse xs) (x ∷ []) ys, find-append xs (x ∷ ys) rest)
      (rw (not_substantive x.direction x.message_type x.message_id plain) refl)
  where
    both : (a b : Bool) → (a && b) ≡ true → (a ≡ true) × (b ≡ true)
    both a b h = ground (arith, h)

-- However many messages of the model and correction requests follow, what is expected is what was expected before
-- them, under the same setting and the same flag for a final answer received.
pub expected_inbound_kept :
    (allow f : Bool) (messages later : List MessageRecord)
    → are_no_request later ≡ true
    → expected_inbound allow (last_substantive_outbound (messages ++ later)) f
      ≡ expected_inbound allow (last_substantive_outbound messages) f
unfolding last_substantive_outbound
expected_inbound_kept allow f messages later h =
    ap (λ last. expected_inbound allow last f)
      (rw (reverse-append messages later) (find-append later (reverse messages) h))
