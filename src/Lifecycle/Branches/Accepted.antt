-- ===== src/Lifecycle/Branches/Accepted.antt =====
-- src/agentic_local_app/lifecycle/conversation_lifecycle.py: the transitions that are accepted.
use mathlib.Core.Path.{subst}
use agentic_local_app.Base.{
  ℕ, ◌≡◌, refl, ◌↔◌, Bool, true, false, not, ◌&&◌, Option, none, some, List, arith, ok, err, any,
  inl, inr, Bool-cases, Option-cases, is_iff,
}
use agentic_local_app.Domain.States.{SessionState, ConversationState}
use agentic_local_app.Domain.Values.{session_state_enum, conversation_state_enum}
use agentic_local_app.Domain.Transitions.{session_transitions, can_transition}
use agentic_local_app.Persistence.Records.{SessionRecord, ConversationRecord}
use agentic_local_app.Persistence.Store.{Store, save_session, get_session, get_conversation}
use agentic_local_app.Lifecycle.{
  Manager, Env, Call, LifecycleEvent, persist_publish, session_state_changed,
}
use agentic_local_app.Lifecycle.Sessions
use agentic_local_app.Lifecycle.Sessions.{
  SessionUpdate, transition_session, is_closed_follow_up, conversation_waits_for_user,
}

abbrev pub returns : {A : Type 0} → Call A → Bool
returns (m, ok a) = true
returns (m, err e) = false

-- The session points to a stored conversation that waits for the user.
abbrev pub HasWaiting : SessionRecord → Store → Type 0
HasWaiting current s =
    (id : ℕ) × (c : ConversationRecord) × (current.current_conversation_id ≡ some id)
    × (get_conversation id s ≡ some c)
    × (c.status ≡ ConversationState.waiting_user)

-- What a session that is stored has to satisfy to move to the state `to`.
abbrev pub MayMove : SessionState → SessionRecord → Store → Type 0
MayMove to current s =
    (can_transition session_transitions current.status to ≡ true)
    × (current.status ≡ SessionState.completed
        → to ≡ SessionState.running
        → current.auto_close_on_final_answer ≡ true
        → HasWaiting current s)

-- The updates are plain fields with values that their types accept, the store writes, and the bus lets the
-- event through.
abbrev pub GoesThrough : Env → List SessionUpdate → Manager → Type 0
GoesThrough env us m =
    (any Sessions.is_managed us ≡ false)
    × (any Sessions.is_invalid us ≡ false)
    × (m.store.closed ≡ false)
    × (m.store.fail_next_write ≡ false)
    × (env.bus_accepts ≡ true)

waits-HasWaiting :
    (current : SessionRecord) (s : Store)
    → (conversation_waits_for_user current s ≡ true) ↔ HasWaiting current s
unfolding conversation_waits_for_user
waits-HasWaiting current s =
    (go current.current_conversation_id refl, λ (id, c, p, q, w). rw (p, q, w) refl)
  where
    stored :
        (id : ℕ) (r : Option ConversationRecord)
        → current.current_conversation_id ≡ some id
        → get_conversation id s ≡ r
        → Sessions.waits_for_user r ≡ true
        → HasWaiting current s
    stored id none p q h = cc
    stored id (some c) p q h = (id, c, p, q, (is_iff c.status _).0 h)

    go :
        (r : Option ℕ)
        → current.current_conversation_id ≡ r
        → Sessions.waits_for_user (Sessions.current_conversation r s) ≡ true
        → HasWaiting current s
    go none p h = cc
    go (some id) p h = stored id (get_conversation id s) p refl h

closed_follow_up-allows :
    (current : SessionRecord) (to : SessionState) (s : Store)
    → (is_closed_follow_up current to s ≡ false) ↔ (
        current.status ≡ SessionState.completed
        → to ≡ SessionState.running
        → current.auto_close_on_final_answer ≡ true
        → conversation_waits_for_user current s ≡ true)
closed_follow_up-allows current to s = ground arith

written-returns :
    (env : Env) (r : SessionRecord) (event : LifecycleEvent) (m : Manager)
    → returns (persist_publish env (save_session r) event r m)
      ≡ (not m.store.closed && not m.store.fail_next_write && env.bus_accepts)
unfolding save_session
written-returns env r event m = elim (Bool-cases m.store.closed) [
  | inl a ↦ ground (arith, a)
  | inr a ↦ elim (Bool-cases m.store.fail_next_write) [
    | inl b ↦ ground (arith, a, b)
    | inr b ↦ ground (arith, a, b)
  ]
]

found-returns :
    (env : Env) (current : SessionRecord) (to : SessionState) (reason : Option ℕ)
    (us : List SessionUpdate) (m : Manager)
    → returns (Sessions.transition_found env current to reason us m) ≡ (
        not (any Sessions.is_managed us)
        && can_transition session_transitions current.status to
        && not (is_closed_follow_up current to m.store)
        && not (any Sessions.is_invalid us)
        && (not m.store.closed && not m.store.fail_next_write && env.bus_accepts))
found-returns env current to reason us m = elim (Bool-cases (any Sessions.is_managed us)) [
  | inl e ↦ rw (e, Sessions.transition_found) refl
  | inr e ↦ elim (Bool-cases (can_transition session_transitions current.status to)) [
    | inr p ↦ rw (e, p, Sessions.transition_found) refl
    | inl p ↦ elim (Bool-cases (is_closed_follow_up current to m.store)) [
      | inl q ↦ rw (e, p, q, Sessions.transition_found) refl
      | inr q ↦ elim (Bool-cases (any Sessions.is_invalid us)) [
        | inl v ↦ rw (e, p, q, v, Sessions.transition_found) refl
        | inr v ↦
            let next : SessionRecord = Sessions.transitioned env.now to us current in
            rw (e, p, q, v, Sessions.transition_found)
              (written-returns env next
                (session_state_changed current.session_id current.status to reason) m)
      ]
    ]
  ]
]

seven :
    (a b c d e f g : Bool)
    → ((not a && b && not c && not d && (not e && not f && g)) ≡ true) ↔ (
        (a ≡ false)
        × (b ≡ true)
        × (c ≡ false)
        × (d ≡ false)
        × (e ≡ false)
        × (f ≡ false)
        × (g ≡ true))
seven a b c d e f g = ground arith

found-accepts :
    (env : Env) (current : SessionRecord) (to : SessionState) (reason : Option ℕ)
    (us : List SessionUpdate) (m : Manager)
    → (returns (Sessions.transition_found env current to reason us m) ≡ true)
      ↔ (MayMove to current m.store × GoesThrough env us m)
found-accepts env current to reason us m =
    let (waits, waiting) = waits-HasWaiting current m.store in
    let (allows, follows) = closed_follow_up-allows current to m.store in
    let (split, joined) =
      seven (any Sessions.is_managed us) (can_transition session_transitions current.status to)
        (is_closed_follow_up current to m.store) (any Sessions.is_invalid us) m.store.closed
        m.store.fail_next_write env.bus_accepts in
    rw (found-returns env current to reason us m) (
      λ h.
          let (plain, allowed, follow, valid, a, b, c) = split h in
          ((allowed, λ x y z. waits (allows follow x y z)), (plain, valid, a, b, c)),
      λ ((allowed, follow), (plain, valid, a, b, c)).
          joined (plain, allowed, follows (λ x y z. waiting (follow x y z)), valid, a, b, c),
    )

-- `transition_session` returns exactly if the session is stored, the updates are plain fields with valid values,
-- the table has the step, the store writes and the bus accepts; and for the follow-up to a completed session
-- that closes itself, if moreover the conversation it points to is stored and waits for the user.
pub transition_session-returns :
    (env : Env) (id : ℕ) (to : SessionState) (reason : Option ℕ) (us : List SessionUpdate)
    (m : Manager)
    → (returns (transition_session env id to reason us m) ≡ true) ↔ (
        (current : SessionRecord) × (get_session id m.store ≡ some current)
        × MayMove to current m.store
        × GoesThrough env us m)
unfolding transition_session
transition_session-returns env id to reason us m = elim (Option-cases (get_session id m.store)) [
  | inl p ↦ rw (p, transition_session) (λ h. cc h, λ (current, q, may, goes). cc q)
  | inr (current, p) ↦
      let (forth, back) = found-accepts env current to reason us m in
      rw (p, transition_session)
        (
          λ h. let (may, goes) = forth h in (current, refl, may, goes),
          λ (found, q, may, goes).
              let same : found ≡ current = cc q in
              back (subst (λ x. MayMove to x m.store) same may, goes),
        )
]
