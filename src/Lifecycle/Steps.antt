-- ===== src/Lifecycle/Steps.antt =====
-- One call of the manager of src/agentic_local_app/lifecycle/conversation_lifecycle.py: the statuses it moves.
pub mod SessionSteps
pub mod ConversationSteps
pub mod Creation
use mathlib.Core.Path.{subst}
use agentic_local_app.Base.{
  ℕ, ◌≡◌, refl, ap, ◌∙◌, sym, Bool, true, false, Option, none, some, List, [], ◌∷◌, arith,
  if◌then◌else◌, ◌==◌, ◌⊎◌, inl, inr, any, Bool-cases, ==_iff, Option-cases, Result-cases, Result,
  ok, err, ◌||◌,
}
use agentic_local_app.Domain.States.{SessionState, ConversationState, ContextWindowState}
use agentic_local_app.Domain.Values.{
  session_state_enum, conversation_state_enum, context_window_state_enum,
}
use agentic_local_app.Domain.Transitions.{
  session_transitions, conversation_transitions, context_window_transitions, can_transition,
}
use agentic_local_app.Persistence.Blobs.{store_closed, simulated_write_failure}
use agentic_local_app.Persistence.Records.{SessionBudget, SessionRecord, ConversationRecord}
use agentic_local_app.Persistence.Rows
use agentic_local_app.Persistence.Store.{
  Store, Written, guarded, session_key, conversation_key, save_session, save_conversation,
  get_session, get_conversation, transaction,
}
use agentic_local_app.Lifecycle.{
  Manager, Env, Call, LifecycleError, managed_field, unknown_field, LifecycleEvent, publish,
  persist_publish, persist,
}

-- A session that was stored is still stored, with the status that it had or one that the table allows
-- from there.
abbrev pub SessionMoves : Option SessionRecord → Option SessionRecord → Type 0
SessionMoves none after = Unit
SessionMoves (some s) none = ⊥
SessionMoves (some s) (some t) =
    (t.status ≡ s.status) ⊎ (can_transition session_transitions s.status t.status ≡ true)

-- The same of a conversation and of its window; it keeps its session.
abbrev pub ConversationMoves : Option ConversationRecord → Option ConversationRecord → Type 0
ConversationMoves none after = Unit
ConversationMoves (some c) none = ⊥
ConversationMoves (some c) (some d) =
    ((d.status ≡ c.status) ⊎ (can_transition conversation_transitions c.status d.status ≡ true))
    × ((d.context_window_state ≡ c.context_window_state)
        ⊎ (can_transition context_window_transitions c.context_window_state d.context_window_state
            ≡ true))
    × (d.session_id ≡ c.session_id)

pub record StoreMoves (s t : Store) : Type 0 where
  pub sessions : (id : ℕ) → SessionMoves (get_session id s) (get_session id t)
  pub conversations : (id : ℕ) → ConversationMoves (get_conversation id s) (get_conversation id t)

pub SessionMoves-refl : (s : Option SessionRecord) → SessionMoves s s
SessionMoves-refl none = tt
SessionMoves-refl (some s) = inl refl

pub ConversationMoves-refl : (c : Option ConversationRecord) → ConversationMoves c c
ConversationMoves-refl none = tt
ConversationMoves-refl (some c) = (inl refl, inl refl, refl)

pub StoreMoves-refl : (s : Store) → StoreMoves s s
StoreMoves-refl s = record {
  sessions = λ id. SessionMoves-refl (get_session id s);
  conversations = λ id. ConversationMoves-refl (get_conversation id s);
}

pub put-SessionMoves :
    (r : SessionRecord) (rows : List SessionRecord) (id : ℕ)
    → SessionMoves (Rows.get session_key r.session_id rows) (some r)
    → SessionMoves
        (Rows.get session_key id rows)
        (Rows.get session_key id (Rows.put session_key r rows))
put-SessionMoves r rows id h =
    rw (Rows.get-put session_key id r rows) (elim (Bool-cases (r.session_id == id)) [
      | inl e ↦ rw e (
          subst (λ i. SessionMoves (Rows.get session_key i rows) (some r))
            ((==_iff r.session_id id).0 e) h)
      | inr e ↦ rw e (SessionMoves-refl (Rows.get session_key id rows))
    ])

pub put-ConversationMoves :
    (r : ConversationRecord) (rows : List ConversationRecord) (id : ℕ)
    → ConversationMoves (Rows.get conversation_key r.conversation_id rows) (some r)
    → ConversationMoves
        (Rows.get conversation_key id rows)
        (Rows.get conversation_key id (Rows.put conversation_key r rows))
put-ConversationMoves r rows id h =
    rw (Rows.get-put conversation_key id r rows) (elim (Bool-cases (r.conversation_id == id)) [
      | inl e ↦ rw e (
          subst (λ i. ConversationMoves (Rows.get conversation_key i rows) (some r))
            ((==_iff r.conversation_id id).0 e) h)
      | inr e ↦ rw e (ConversationMoves-refl (Rows.get conversation_key id rows))
    ])

-- What a call leaves of the store.
abbrev Moved : {A : Type 0} → Manager → Call A → Type 0
Moved m r = StoreMoves m.store r.0.store

pub publish-store :
    {A : Type 0} (env : Env) (event : LifecycleEvent) (a : A) (m : Manager)
    → (publish env event a m).0.store ≡ m.store
publish-store env event a m = ground arith

pub persist_publish-store :
    {A : Type 0} (env : Env) (write : Store → Written (Unit {0})) (event : LifecycleEvent) (a : A)
    (m : Manager)
    → (persist_publish env write event a m).0.store ≡ (write m.store).0
persist_publish-store env write event a m = elim (Result-cases (write m.store).1) [
  | inl (u, e) ↦
      rw (e, persist_publish) (publish-store env event a (record m { store = (write m.store).0 }))
  | inr (f, e) ↦ rw (e, persist_publish) refl
]

pub persist-store :
    {A : Type 0} (write : Store → Written (Unit {0})) (a : A) (m : Manager)
    → (persist write a m).0.store ≡ (write m.store).0
persist-store write a m = elim (Result-cases (write m.store).1) [
  | inl (u, e) ↦ rw (e, persist) refl
  | inr (f, e) ↦ rw (e, persist) refl
]

-- The three ends of a guarded write.
pub either :
    {A : Type 0} (P : A → Type 0) (a b : Bool) (x y z : A)
    → P x
    → P y
    → P z
    → P (if a then x else if b then y else z)
either P true b x y z p q r = p
either P false true x y z p q r = q
either P false false x y z p q r = r

pub guarded-StoreMoves :
    (write : Store → Store) (s : Store) → StoreMoves s (write s) → StoreMoves s (guarded write s).0
unfolding get_session get_conversation
guarded-StoreMoves write s h =
    let unset : Store = record s { fail_next_write = false } in
    let kept : StoreMoves s unset = record {
      sessions = (StoreMoves-refl s).sessions;
      conversations = (StoreMoves-refl s).conversations;
    } in
    either (λ (x : Written (Unit {0})). StoreMoves s x.0) s.closed s.fail_next_write
      (s, err store_closed) (unset, err simulated_write_failure) (write s, ok tt)
      (StoreMoves-refl s) kept h

pub save_session-StoreMoves :
    (r : SessionRecord) (s : Store)
    → SessionMoves (get_session r.session_id s) (some r)
    → StoreMoves s (save_session r s).0
unfolding save_session get_session get_conversation
save_session-StoreMoves r s h =
    guarded-StoreMoves (λ s. record s { sessions = Rows.put session_key r s.sessions }) s
      (record {
        sessions = λ id. put-SessionMoves r s.sessions id h;
        conversations = (StoreMoves-refl s).conversations;
      })

pub save_conversation-StoreMoves :
    (r : ConversationRecord) (s : Store)
    → ConversationMoves (get_conversation r.conversation_id s) (some r)
    → StoreMoves s (save_conversation r s).0
unfolding save_conversation get_session get_conversation
save_conversation-StoreMoves r s h =
    guarded-StoreMoves
      (λ s. record s { conversations = Rows.put conversation_key r s.conversations }) s
      (record {
        sessions = (StoreMoves-refl s).sessions;
        conversations = λ id. put-ConversationMoves r s.conversations id h;
      })

pub found_session :
    (id : ℕ) (st : Store) (s : SessionRecord)
    → get_session id st ≡ some s
    → get_session s.session_id st ≡ some s
unfolding get_session
found_session id st s p =
    ap (λ i. Rows.get session_key i st.sessions) (Rows.get-key session_key id st.sessions s p) ∙ p

pub found_conversation :
    (id : ℕ) (st : Store) (c : ConversationRecord)
    → get_conversation id st ≡ some c
    → get_conversation c.conversation_id st ≡ some c
unfolding get_conversation
found_conversation id st c p =
    ap (λ i. Rows.get conversation_key i st.conversations)
      (Rows.get-key conversation_key id st.conversations c p)
    ∙ p

-- A result that is chosen by two tests, of which the first two refuse.
pub neither : (a b : Bool) → (a || b) ≡ false → (a ≡ false) × (b ≡ false)
neither a b h = ground (arith, h)

pub checked-Moved :
    {A : Type 0} (m : Manager) (a b : Bool) (e f : LifecycleError) (r : Call A)
    → (a ≡ false → StoreMoves m.store r.0.store)
    → StoreMoves m.store (if a then (m, err e) else if b then (m, err f) else r).0.store
checked-Moved m true b e f r h = StoreMoves-refl m.store
checked-Moved m false b e f r h =
    either (λ x. StoreMoves m.store x.0.store) false b (m, err e) (m, err f) r
      (StoreMoves-refl m.store) (StoreMoves-refl m.store) (h refl)
