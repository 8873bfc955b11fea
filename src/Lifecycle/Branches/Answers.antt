-- ===== src/Lifecycle/Branches/Answers.antt =====
-- src/agentic_local_app/lifecycle/conversation_lifecycle.py: the answer of each public method.
use agentic_local_app.Base.{
  ℕ, ◌≡◌, refl, ◌∙◌, Bool, true, false, Option, some, List, if◌then◌else◌, err, inl, inr,
  Option-cases, ok,
}
use agentic_local_app.Domain.States.{SessionState, ConversationState, ContextWindowState}
use agentic_local_app.Domain.Values.{
  session_state_enum, conversation_state_enum, context_window_state_enum,
}
use agentic_local_app.Persistence.Rows
use agentic_local_app.Persistence.Records.{SessionBudget, SessionRecord, ConversationRecord}
use agentic_local_app.Persistence.Store.{
  Store, Written, session_key, conversation_key, save_session, save_conversation, get_session,
  get_conversation, ◌then◌,
}
use agentic_local_app.Lifecycle.{
  Manager, Env, Call, LifecycleError, LifecycleEvent, key_error, managed_field, unknown_field,
  persist_publish, persist,
}
use agentic_local_app.Lifecycle.Sessions
use agentic_local_app.Lifecycle.Sessions.{
  SessionUpdate, create_session, transition_session, update_session,
}
use agentic_local_app.Lifecycle.Conversations.{
  create_conversation, transition_conversation, update_conversation, interrupt_conversation,
  transition_context_window,
}
use agentic_local_app.Lifecycle.Steps.SessionSteps.{
  with_updates-session, transitioned-session, session_refusal-none,
}
use agentic_local_app.Lifecycle.History.{
  Method, creates_session, moves_session, updates_session, creates_conversation, moves_conversation,
  updates_conversation, interrupts_conversation, moves_window,
}
use agentic_local_app.Lifecycle.Branches.{
  Writes, Answer, refused_at_once, persist_publish-Answer, persist-Answer, IsSession,
  IsConversation, save_session-Writes, save_conversation-Writes,
}

-- What is known of the record that a method returns.
abbrev pub SessionAt : ℕ → SessionState → SessionRecord → Type 0
SessionAt id status r = (r.session_id ≡ id) × (r.status ≡ status)

abbrev pub SessionWithId : ℕ → SessionRecord → Type 0
SessionWithId id r = r.session_id ≡ id

abbrev pub ConversationAt : ℕ → ConversationState → ConversationRecord → Type 0
ConversationAt id status c = (c.conversation_id ≡ id) × (c.status ≡ status)

abbrev pub ConversationWithId : ℕ → ConversationRecord → Type 0
ConversationWithId id c = c.conversation_id ≡ id

abbrev pub WindowAt : ℕ → ContextWindowState → ConversationRecord → Type 0
WindowAt id window c = (c.conversation_id ≡ id) × (c.context_window_state ≡ window)

-- The record that is returned is the one that is stored.
abbrev pub SessionAnswer : (SessionRecord → Type 0) → Manager → Call SessionRecord → Type 0
SessionAnswer Q = Answer (λ r s. IsSession r s × Q r)

abbrev pub ConversationAnswer :
    (ConversationRecord → Type 0) → Manager → Call ConversationRecord → Type 0
ConversationAnswer Q = Answer (λ c s. IsConversation c s × Q c)

-- A conversation of the session `id`, to which the session points.
abbrev pub IsNewOf : ℕ → ℕ → ConversationRecord → Store → Type 0
IsNewOf id fresh c s =
    IsConversation c s
    × (c.session_id ≡ id)
    × ConversationAt fresh ConversationState.new c
    × ((r : SessionRecord) × (get_session id s ≡ some r) × (r.current_conversation_id ≡ some fresh))

abbrev pub Answers : Env → Method → Manager → Type 0
Answers env (creates_session goal message user budget auto) m =
    SessionAnswer (SessionAt env.fresh_id SessionState.ready) m
      (create_session env goal message user budget auto m)
Answers env (moves_session id to reason us) m =
    SessionAnswer (SessionAt id to) m (transition_session env id to reason us m)
Answers env (updates_session id us) m =
    SessionAnswer (SessionWithId id) m (update_session env id us m)
Answers env (creates_conversation id parent window) m =
    Answer (IsNewOf id env.fresh_id) m (create_conversation env id parent window m)
Answers env (moves_conversation id to reason us) m =
    ConversationAnswer (ConversationAt id to) m (transition_conversation env id to reason us m)
Answers env (updates_conversation id us) m =
    ConversationAnswer (ConversationWithId id) m (update_conversation env id us m)
Answers env (interrupts_conversation id reason) m =
    ConversationAnswer (ConversationAt id ConversationState.interrupted) m
      (interrupt_conversation env id reason m)
Answers env (moves_window id to reason) m =
    ConversationAnswer (WindowAt id to) m (transition_context_window env id to reason m)

pub Writes-map :
    (P Q : Store → Type 0) (s : Store) (w : Written (Unit {0}))
    → ((t : Store) → P t → Q t)
    → Writes P s w
    → Writes Q s w
Writes-map P Q s (t, ok u) f h = f t h
Writes-map P Q s (t, err e) f h = h

module _ (Q : SessionRecord → Type 0) (m : Manager) where
  session_refused : (e : LifecycleError) → SessionAnswer Q m (m, err e)
  session_refused e = refused_at_once (λ r s. IsSession r s × Q r) m e

  save_session-kept :
      (r : SessionRecord) → Q r → Writes (λ t. IsSession r t × Q r) m.store (save_session r m.store)
  save_session-kept r q =
      Writes-map (IsSession r) (λ t. IsSession r t × Q r) m.store (save_session r m.store)
        (λ t h. (h, q)) (save_session-Writes r m.store)

  session_published :
      (env : Env) (event : LifecycleEvent) (r : SessionRecord)
      → Q r
      → SessionAnswer Q m (persist_publish env (save_session r) event r m)
  session_published env event r q =
      persist_publish-Answer (λ r s. IsSession r s × Q r) m env (save_session r) event r
        (save_session-kept r q)

  session_persisted : (r : SessionRecord) → Q r → SessionAnswer Q m (persist (save_session r) r m)
  session_persisted r q =
      persist-Answer (λ r s. IsSession r s × Q r) m (save_session r) r (save_session-kept r q)

module _ (Q : ConversationRecord → Type 0) (m : Manager) where
  pub conversation_refused : (e : LifecycleError) → ConversationAnswer Q m (m, err e)
  conversation_refused e = refused_at_once (λ c s. IsConversation c s × Q c) m e

  save_conversation-kept :
      (c : ConversationRecord)
      → Q c
      → Writes (λ t. IsConversation c t × Q c) m.store (save_conversation c m.store)
  save_conversation-kept c q =
      Writes-map (IsConversation c) (λ t. IsConversation c t × Q c) m.store
        (save_conversation c m.store) (λ t h. (h, q)) (save_conversation-Writes c m.store)

  pub conversation_published :
      (env : Env) (event : LifecycleEvent) (c : ConversationRecord)
      → Q c
      → ConversationAnswer Q m (persist_publish env (save_conversation c) event c m)
  conversation_published env event c q =
      persist_publish-Answer (λ c s. IsConversation c s × Q c) m env (save_conversation c) event c
        (save_conversation-kept c q)

  pub conversation_persisted :
      (c : ConversationRecord) → Q c → ConversationAnswer Q m (persist (save_conversation c) c m)
  conversation_persisted c q =
      persist-Answer (λ c s. IsConversation c s × Q c) m (save_conversation c) c
        (save_conversation-kept c q)

-- Two tests that refuse.
pub checked :
    {A : Type 0} (P : A → Store → Type 0) (m : Manager) (a b : Bool) (e f : LifecycleError)
    (r : Call A)
    → (a ≡ false → Answer P m r)
    → Answer P m (if a then (m, err e) else if b then (m, err f) else r)
checked P m true b e f r h = refused_at_once P m e
checked P m false true e f r h = refused_at_once P m f
checked P m false false e f r h = h refl

pub create_session-Answers :
    (env : Env) (goal message user : ℕ) (budget : SessionBudget) (auto : Bool) (m : Manager)
    → Answers env (creates_session goal message user budget auto) m
unfolding create_session
create_session-Answers env aim message user budget auto m =
    session_published (SessionAt env.fresh_id SessionState.ready) m env _ _ (refl, refl)

pub session_id_found :
    (id : ℕ) (s : Store) (r : SessionRecord) → get_session id s ≡ some r → r.session_id ≡ id
unfolding get_session
session_id_found id s r p = Rows.get-key session_key id s.sessions r p

pub conversation_id_found :
    (id : ℕ) (s : Store) (c : ConversationRecord)
    → get_conversation id s ≡ some c
    → c.conversation_id ≡ id
unfolding get_conversation
conversation_id_found id s c p = Rows.get-key conversation_key id s.conversations c p

pub update_session-Answers :
    (env : Env) (id : ℕ) (us : List SessionUpdate) (m : Manager)
    → Answers env (updates_session id us) m
unfolding update_session
update_session-Answers env id us m = elim (Option-cases (get_session id m.store)) [
  | inl p ↦ rw (p, update_session) (session_refused (SessionWithId id) m (key_error id))
  | inr (current, p) ↦
      let next : SessionRecord = record (Sessions.with_updates us current) {
        updated_at = env.now;
      } in
      rw (p, update_session)
        (checked (λ r s. IsSession r s × SessionWithId id r) m _ _ managed_field unknown_field
          (persist (save_session next) next m)
          (λ plain.
            session_persisted (SessionWithId id) m next
              ((with_updates-session us current plain).0 ∙ session_id_found id m.store current p)))
]

transition_found-Answers :
    (env : Env) (current : SessionRecord) (id : ℕ) (to : SessionState) (reason : Option ℕ)
    (us : List SessionUpdate) (m : Manager)
    → current.session_id ≡ id
    → SessionAnswer (SessionAt id to) m (Sessions.transition_found env current to reason us m)
transition_found-Answers env current id to reason us m known =
    elim (Option-cases (Sessions.session_refusal current to us m.store)) [
      | inr (e, p) ↦ rw (p, Sessions.transition_found) (session_refused (SessionAt id to) m e)
      | inl p ↦
          let (plain, allowed) = session_refusal-none current to us m.store p in
          let (same, status) = transitioned-session env.now to us current plain in
          rw (p, Sessions.transition_found)
            (session_published (SessionAt id to) m env _ _ (same ∙ known, status))
    ]

pub transition_session-Answers :
    (env : Env) (id : ℕ) (to : SessionState) (reason : Option ℕ) (us : List SessionUpdate)
    (m : Manager)
    → Answers env (moves_session id to reason us) m
unfolding transition_session
transition_session-Answers env id to reason us m = elim (Option-cases (get_session id m.store)) [
  | inl p ↦ rw (p, transition_session) (session_refused (SessionAt id to) m (key_error id))
  | inr (current, p) ↦
      rw (p, transition_session)
        (transition_found-Answers env current id to reason us m
          (session_id_found id m.store current p))
]
