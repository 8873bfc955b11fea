-- ===== src/Lifecycle/Branches.antt =====
-- src/agentic_local_app/lifecycle/conversation_lifecycle.py: what a call returns or raises, and what it leaves.
pub mod Answers
pub mod ConversationAnswers
pub mod Accepted
use mathlib.Core.Path.{subst}
use agentic_local_app.Base.{
  ℕ, ◌≡◌, refl, ap, ◌∙◌, sym, Bool, true, false, Option, none, some, List, [], ◌∷◌, arith,
  if◌then◌else◌, Result, ok, err, ==_iff, ◌==◌,
}
use agentic_local_app.Persistence.Blobs.{PersistenceError, store_closed, simulated_write_failure}
use agentic_local_app.Persistence.Rows
use agentic_local_app.Persistence.Records.{SessionRecord, ConversationRecord}
use agentic_local_app.Persistence.Store.{
  Store, Written, guarded, session_key, conversation_key, save_session, save_conversation,
  get_session, get_conversation, transaction, ◌then◌,
}
use agentic_local_app.Lifecycle.{
  Manager, Env, Call, LifecycleError, LifecycleEvent, key_error, managed_field, unknown_field,
  foreign_parent, invalid_session, invalid_conversation, invalid_window, persistence, bus_failed,
  publish, persist_publish, persist,
}

-- The rows are the ones of before.
abbrev pub SameRows : Store → Store → Type 0
SameRows s t = (t.sessions ≡ s.sessions) × (t.conversations ≡ s.conversations)

-- A write that returns makes `P` true of the store; one that raises leaves every row as it was.
abbrev pub Writes : (Store → Type 0) → Store → Written (Unit {0}) → Type 0
Writes P s (t, ok u) = P t
Writes P s (t, err e) = SameRows s t

-- A call that returns makes `P` true of the record that it returns and of the store. One that raises leaves
-- every row and the events as they were; if it is the bus that fails, the row is already written, and the
-- events are as they were.
abbrev pub Answer : {A : Type 0} → (A → Store → Type 0) → Manager → Call A → Type 0
Answer P m (n, ok a) = P a n.store
Answer P m (n, err bus_failed) = n.events ≡ m.events
Answer P m (n, err e) = SameRows m.store n.store × (n.events ≡ m.events)

pub refused :
    {A : Type 0} (P : A → Store → Type 0) (m n : Manager) (e : LifecycleError)
    → SameRows m.store n.store
    → n.events ≡ m.events
    → Answer P m (n, err e)
refused P m n bus_failed rows events = events
refused P m n (key_error id) rows events = (rows, events)
refused P m n managed_field rows events = (rows, events)
refused P m n unknown_field rows events = (rows, events)
refused P m n foreign_parent rows events = (rows, events)
refused P m n (invalid_session e) rows events = (rows, events)
refused P m n (invalid_conversation e) rows events = (rows, events)
refused P m n (invalid_window e) rows events = (rows, events)
refused P m n (persistence e) rows events = (rows, events)

pub refused_at_once :
    {A : Type 0} (P : A → Store → Type 0) (m : Manager) (e : LifecycleError) → Answer P m (m, err e)
refused_at_once P m e = refused P m m e (refl, refl) refl

publish-Answer :
    {A : Type 0} (P : A → Store → Type 0) (m n : Manager) (env : Env) (event : LifecycleEvent)
    (a : A)
    → P a n.store
    → n.events ≡ m.events
    → Answer P m (publish env event a n)
publish-Answer P m n env event a h same = go env.bus_accepts
  where
    go :
        (accepts : Bool)
        → Answer P m (
            if accepts then (record n { events = event ∷ n.events }, ok a) else (n, err bus_failed))
    go true = h
    go false = same

pub persist_publish-Answer :
    {A : Type 0} (P : A → Store → Type 0) (m : Manager) (env : Env)
    (write : Store → Written (Unit {0})) (event : LifecycleEvent) (a : A)
    → Writes (P a) m.store (write m.store)
    → Answer P m (persist_publish env write event a m)
persist_publish-Answer P m env write event a h = go (write m.store) h
  where
    go :
        (w : Written (Unit {0}))
        → Writes (P a) m.store w
        → Answer P m (persist_publish env (λ s. w) event a m)
    go (t, ok u) h = publish-Answer P m (record m { store = t }) env event a h refl
    go (t, err e) h = refused P m (record m { store = t }) (persistence e) h refl

pub persist-Answer :
    {A : Type 0} (P : A → Store → Type 0) (m : Manager) (write : Store → Written (Unit {0})) (a : A)
    → Writes (P a) m.store (write m.store)
    → Answer P m (persist write a m)
persist-Answer P m write a h = go (write m.store) h
  where
    go : (w : Written (Unit {0})) → Writes (P a) m.store w → Answer P m (persist (λ s. w) a m)
    go (t, ok u) h = h
    go (t, err e) h = (h, refl)

guarded-Writes :
    (P : Store → Type 0) (write : Store → Store) (s : Store)
    → P (write s)
    → Writes P s (guarded write s)
guarded-Writes P write s h = go s.closed s.fail_next_write
  where
    go :
        (a b : Bool)
        → Writes P s (
            if a
            then (s, err store_closed)
            else if b
            then (record s { fail_next_write = false }, err simulated_write_failure)
            else (write s, ok tt))
    go true b = (refl, refl)
    go false true = (refl, refl)
    go false false = h

-- A record that was put is found.
put_found :
    {A : Type 0} (key : A → ℕ) (r : A) (rows : List A)
    → Rows.get key (key r) (Rows.put key r rows) ≡ some r
put_found key r rows = ground (arith, Rows.get-put key (key r) r rows, ==_iff (key r) (key r))

abbrev pub IsSession : SessionRecord → Store → Type 0
IsSession r s = get_session r.session_id s ≡ some r

abbrev pub IsConversation : ConversationRecord → Store → Type 0
IsConversation c s = get_conversation c.conversation_id s ≡ some c

pub save_session-Writes :
    (r : SessionRecord) (s : Store) → Writes (IsSession r) s (save_session r s)
unfolding save_session get_session
save_session-Writes r s =
    guarded-Writes (IsSession r) (λ x. record x { sessions = Rows.put session_key r x.sessions }) s
      (put_found session_key r s.sessions)

pub save_conversation-Writes :
    (c : ConversationRecord) (s : Store) → Writes (IsConversation c) s (save_conversation c s)
unfolding save_conversation get_conversation
save_conversation-Writes c s =
    guarded-Writes (IsConversation c)
      (λ x. record x { conversations = Rows.put conversation_key c x.conversations }) s
      (put_found conversation_key c s.conversations)

-- A transaction writes both rows or none.
pub transaction-Writes :
    (c : ConversationRecord) (r : SessionRecord) (s : Store)
    → Writes
        (λ t. IsConversation c t × IsSession r t)
        s
        (transaction (save_conversation c then save_session r) s)
unfolding transaction save_session save_conversation get_session get_conversation
transaction-Writes c r s = go s.sessions s.conversations s.fail_next_write s.closed
  where
    go :
        (sessions : List SessionRecord) (conversations : List ConversationRecord)
        (fails closed : Bool)
        → let t : Store = record {
          sessions = sessions;
          conversations = conversations;
          fail_next_write = fails;
          closed = closed;
        } in
          Writes
            (λ u. IsConversation c u × IsSession r u)
            t
            (transaction (save_conversation c then save_session r) t)
    go sessions conversations fails true = (refl, refl)
    go sessions conversations true false = (refl, refl)
    go sessions conversations false false =
        (put_found conversation_key c conversations, put_found session_key r sessions)
