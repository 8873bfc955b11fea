-- ===== src/Lifecycle/Steps/Creation.antt =====
-- One call of the manager of src/agentic_local_app/lifecycle/conversation_lifecycle.py: the records that it
-- creates.
use mathlib.Core.Path.{subst}
use agentic_local_app.Persistence.Rows
use agentic_local_app.Base.{
  ℕ, ◌≡◌, refl, false, Bool, Option, none, some, inl, inr, Option-cases, ok, err, Result, arith,
  sym,
}
use agentic_local_app.Domain.States.{ContextWindowState}
use agentic_local_app.Persistence.Blobs.{store_closed}
use agentic_local_app.Persistence.Records.{SessionBudget, SessionRecord, ConversationRecord}
use agentic_local_app.Persistence.Store.{
  Store, Written, save_session, save_conversation, get_session, get_conversation, transaction,
  ◌then◌, session_key, conversation_key,
}
use agentic_local_app.Lifecycle.{Manager, Env}
use agentic_local_app.Lifecycle.Sessions.{create_session}
use agentic_local_app.Lifecycle.Conversations
use agentic_local_app.Lifecycle.Conversations.{create_conversation}
use agentic_local_app.Lifecycle.Steps.{
  SessionMoves, ConversationMoves, StoreMoves, StoreMoves-refl, persist_publish-store, either,
  save_session-StoreMoves, save_conversation-StoreMoves, found_session,
}

pub create_session-Moved :
    (env : Env) (goal message user : ℕ) (budget : SessionBudget) (auto_close : Bool) (m : Manager)
    → get_session env.fresh_id m.store ≡ none
    → StoreMoves m.store (create_session env goal message user budget auto_close m).0.store
unfolding create_session
create_session-Moved env aim message user allowance auto_close m fresh =
    rw (create_session, persist_publish-store) (save_session-StoreMoves _ m.store (rw fresh tt))

-- A result, whichever it is.
by_result :
    {E A B : Type 0} (P : B → Type 0) (r : Result E A) (f : A → B) (g : E → B)
    → ((a : A) → r ≡ ok a → P (f a))
    → ((e : E) → r ≡ err e → P (g e))
    → P (elim r [ ok a ↦ f a | err e ↦ g e ])
by_result P (ok a) f g h k = h a refl
by_result P (err e) f g h k = k e refl

-- Two writes, one after the other.
then-StoreMoves :
    (a b : Store → Written (Unit {0})) (s : Store)
    → StoreMoves s (a s).0
    → ((a s).1 ≡ ok tt → StoreMoves s (b (a s).0).0)
    → StoreMoves s ((a then b) s).0
then-StoreMoves a b s h k =
    by_result (λ (x : Written (Unit {0})). StoreMoves s x.0) (a s).1 (λ u. b (a s).0)
      (λ e. ((a s).0, err e)) (λ u. k) (λ e p. h)

transaction-StoreMoves :
    (body : Store → Written (Unit {0})) (s : Store)
    → StoreMoves s (body s).0
    → StoreMoves s (transaction body s).0
unfolding transaction get_session get_conversation
transaction-StoreMoves body s h =
    let undone : Store = record (body s).0 {
      sessions = s.sessions;
      conversations = s.conversations;
    } in
    let kept : StoreMoves s undone = record {
      sessions = (StoreMoves-refl s).sessions;
      conversations = (StoreMoves-refl s).conversations;
    } in
    either (λ (x : Written (Unit {0})). StoreMoves s x.0) s.closed false (s, err store_closed)
      (s, err store_closed) _ (StoreMoves-refl s) (StoreMoves-refl s)
      (by_result (λ (x : Written (Unit {0})). StoreMoves s x.0) (body s).1
        (λ u. ((body s).0, ok tt)) (λ e. (undone, err e)) (λ u p. h) (λ e p. kept))

save_conversation-sessions :
    (c : ConversationRecord) (s : Store) → (save_conversation c s).0.sessions ≡ s.sessions
unfolding save_conversation
save_conversation-sessions c s = ground arith

save_session-conversations :
    (r : SessionRecord) (s : Store) → (save_session r s).0.conversations ≡ s.conversations
unfolding save_session
save_session-conversations r s = ground arith

-- A conversation and its session are written.
both-StoreMoves :
    (c : ConversationRecord) (r : SessionRecord) (s : Store)
    → ConversationMoves (get_conversation c.conversation_id s) (some c)
    → SessionMoves (get_session r.session_id s) (some r)
    → StoreMoves s (save_session r (save_conversation c s).0).0
unfolding get_session get_conversation
both-StoreMoves c r s h k =
    let s' : Store = (save_conversation c s).0 in
    let s'' : Store = (save_session r s').0 in
    let same = save_conversation-sessions c s in
    let first = save_conversation-StoreMoves c s h in
    let second = save_session-StoreMoves r s' (rw same k) in
    record {
      sessions = λ id.
          subst (λ rows. SessionMoves (Rows.get session_key id rows) (get_session id s'')) same
            (second.sessions id);
      conversations = λ id.
          subst
            (λ rows. ConversationMoves (get_conversation id s) (Rows.get conversation_key id rows))
            (sym (save_session-conversations r s')) (first.conversations id);
    }

create_for-Moved :
    (env : Env) (session : SessionRecord) (parent : Option ℕ) (window : ContextWindowState)
    (m : Manager)
    → get_session session.session_id m.store ≡ some session
    → get_conversation env.fresh_id m.store ≡ none
    → StoreMoves m.store (Conversations.create_for env session parent window m).0.store
create_for-Moved env session parent window m found fresh =
    elim (Option-cases (Conversations.parent_refusal session parent m.store)) [
      | inr (e, p) ↦ rw (p, Conversations.create_for) (StoreMoves-refl m.store)
      | inl p ↦
          let conversation : ConversationRecord =
            Conversations.new_conversation env session parent window in
          let updated : SessionRecord = record session {
            current_conversation_id = some env.fresh_id;
            updated_at = env.now;
          } in
          let new : ConversationMoves (get_conversation env.fresh_id m.store) (some conversation) =
            rw fresh tt in
          let kept : SessionMoves (get_session session.session_id m.store) (some updated) =
            rw found (inl refl) in
          rw (p, Conversations.create_for, persist_publish-store)
            (transaction-StoreMoves (save_conversation conversation then save_session updated)
              m.store
              (then-StoreMoves (save_conversation conversation) (save_session updated) m.store
                (save_conversation-StoreMoves conversation m.store new)
                (λ e. both-StoreMoves conversation updated m.store new kept)))
    ]

pub create_conversation-Moved :
    (env : Env) (id : ℕ) (parent : Option ℕ) (window : ContextWindowState) (m : Manager)
    → get_conversation env.fresh_id m.store ≡ none
    → StoreMoves m.store (create_conversation env id parent window m).0.store
unfolding create_conversation
create_conversation-Moved env id parent window m fresh =
    elim (Option-cases (get_session id m.store)) [
      | inl p ↦ rw (p, create_conversation) (StoreMoves-refl m.store)
      | inr (session, p) ↦
          rw (p, create_conversation)
            (create_for-Moved env session parent window m (found_session id m.store session p)
              fresh)
    ]
