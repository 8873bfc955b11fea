-- ===== src/Persistence/Store/Refines.antt =====
-- src/agentic_local_app/persistence/memory.py, src/agentic_local_app/persistence/interface.py: what a transaction
-- promises of the sessions and conversations.
use agentic_local_app.Base.{
  ℕ, ◌≡◌, refl, ◌∙◌, Bool, true, false, Option, some, List, [], ◌∷◌, arith, if◌then◌else◌, ◌==◌, ok,
  err, ◌||◌, sym,
}
use agentic_local_app.Persistence.Blobs.{store_closed, simulated_write_failure}
use agentic_local_app.Persistence.Records.{SessionRecord, ConversationRecord}
use agentic_local_app.Persistence.Rows
use agentic_local_app.Persistence.Store.{
  Store, Written, session_key, conversation_key, save_session, save_conversation, get_session,
  get_conversation, transaction, ◌then◌,
}

-- The abstract store: a record, or none, for each identifier.
pub record Tables : Type 0 where
  pub sessions : ℕ → Option SessionRecord
  pub conversations : ℕ → Option ConversationRecord

abbrev pub tables_of : Store → Tables
tables_of s = record {
  sessions = λ id. get_session id s;
  conversations = λ id. get_conversation id s;
}

abbrev pub SameTables : Tables → Tables → Type 0
SameTables t u =
    ((id : ℕ) → t.sessions id ≡ u.sessions id)
    × ((id : ℕ) → t.conversations id ≡ u.conversations id)

pub data Write : Type 0 where
  saves_session : SessionRecord → Write
  saves_conversation : ConversationRecord → Write

-- The store that is wanted: the record under its identifier, every other one as it was.
abbrev pub written : Write → Tables → Tables
written (saves_session r) t = record t {
  sessions = λ id. if r.session_id == id then some r else t.sessions id;
}
written (saves_conversation c) t = record t {
  conversations = λ id. if c.conversation_id == id then some c else t.conversations id;
}

abbrev pub all_written : List Write → Tables → Tables
all_written [] t = t
all_written (w ∷ ws) t = all_written ws (written w t)

-- The statements of the block.
abbrev pub run_write : Write → Store → Written (Unit {0})
run_write (saves_session r) = save_session r
run_write (saves_conversation c) = save_conversation c

abbrev pub run_writes : List Write → Store → Written (Unit {0})
run_writes [] s = (s, ok tt)
run_writes (w ∷ ws) s = (run_write w then run_writes ws) s

written-SameTables :
    (w : Write) (t u : Tables) → SameTables t u → SameTables (written w t) (written w u)
written-SameTables (saves_session r) t u (h, k) = (λ id. ground (arith, h id), k)
written-SameTables (saves_conversation c) t u (h, k) = (h, λ id. ground (arith, k id))

all_written-SameTables :
    (ws : List Write) (t u : Tables)
    → SameTables t u
    → SameTables (all_written ws t) (all_written ws u)
all_written-SameTables [] t u h = h
all_written-SameTables (w ∷ ws) t u h =
    all_written-SameTables ws (written w t) (written w u) (written-SameTables w t u h)

-- The store refuses every write, or the next one.
abbrev pub is_refusing : Store → Bool
is_refusing s = s.closed || s.fail_next_write

-- What a block of writes on `s` has written where it returns; it raises only on a store that refuses.
abbrev Wrote : Store → Tables → Written (Unit {0}) → Type 0
Wrote s t (r, ok u) = SameTables (tables_of r) t × (is_refusing r ≡ is_refusing s)
Wrote s t (r, err e) = is_refusing s ≡ true

run_write-Wrote : (w : Write) (s : Store) → Wrote s (written w (tables_of s)) (run_write w s)
unfolding save_session save_conversation get_session get_conversation
run_write-Wrote (saves_session r) s = go s.closed s.fail_next_write refl refl
  where
    go :
        (closed fails : Bool)
        → s.closed ≡ closed
        → s.fail_next_write ≡ fails
        → Wrote s (written (saves_session r) (tables_of s)) (
            if closed
            then (s, err store_closed)
            else if fails
            then (record s { fail_next_write = false }, err simulated_write_failure)
            else (record s { sessions = Rows.put session_key r s.sessions }, ok tt))
    go true fails p q = ground (arith, p)
    go false true p q = ground (arith, p, q)
    go false false p q = ((λ id. Rows.get-put session_key id r s.sessions, λ id. refl), refl)
run_write-Wrote (saves_conversation c) s = go s.closed s.fail_next_write refl refl
  where
    go :
        (closed fails : Bool)
        → s.closed ≡ closed
        → s.fail_next_write ≡ fails
        → Wrote s (written (saves_conversation c) (tables_of s)) (
            if closed
            then (s, err store_closed)
            else if fails
            then (record s { fail_next_write = false }, err simulated_write_failure)
            else (record s { conversations = Rows.put conversation_key c s.conversations }, ok tt))
    go true fails p q = ground (arith, p)
    go false true p q = ground (arith, p, q)
    go false false p q =
        ((λ id. refl, λ id. Rows.get-put conversation_key id c s.conversations), refl)

run_writes-Wrote :
    (ws : List Write) (s : Store) → Wrote s (all_written ws (tables_of s)) (run_writes ws s)
run_writes-Wrote [] s = ((λ id. refl, λ id. refl), refl)
run_writes-Wrote (w ∷ ws) s = go (run_write w s) (run_write-Wrote w s) (λ t. run_writes-Wrote ws t)
  where
    go :
        (r : Written (Unit {0}))
        → Wrote s (written w (tables_of s)) r
        → ((t : Store) → Wrote t (all_written ws (tables_of t)) (run_writes ws t))
        → Wrote s
            (all_written ws (written w (tables_of s)))
            (elim r.1 [ ok _ ↦ run_writes ws r.0 | err e ↦ (r.0, err e) ])
    go (t, err e) h again = h
    go (t, ok u) (h, flag) again = onward (run_writes ws t) (again t)
      where
        onward :
            (q : Written (Unit {0}))
            → Wrote t (all_written ws (tables_of t)) q
            → Wrote s (all_written ws (written w (tables_of s))) q
        onward (v, err e) k = sym flag ∙ k
        onward (v, ok u') ((k, l), same) =
            let (a, b) = all_written-SameTables ws (tables_of t) (written w (tables_of s)) h in
            ((λ id. k id ∙ a id, λ id. l id ∙ b id), same ∙ flag)

-- A transaction leaves the tables as its writes make them, or as they were.
abbrev pub Refines : List Write → Store → Written (Unit {0}) → Type 0
Refines ws s (t, ok u) = SameTables (tables_of t) (all_written ws (tables_of s))
Refines ws s (t, err e) = SameTables (tables_of t) (tables_of s) × (is_refusing s ≡ true)

-- A block of writes in a transaction is one step of the abstract store: where it returns, every record can be
-- looked up as the writes, one after the other, leave it; where it raises, which it
-- does only if the store is closed or is to fail its next write, every lookup gives what it gave before.
pub transaction-Refines :
    (ws : List Write) (s : Store) → Refines ws s (transaction (run_writes ws) s)
unfolding transaction get_session get_conversation
transaction-Refines ws s = go s.closed refl (run_writes ws s) (run_writes-Wrote ws s)
  where
    go :
        (closed : Bool)
        → s.closed ≡ closed
        → (r : Written (Unit {0})) → Wrote s (all_written ws (tables_of s)) r
        → Refines ws s (
            if closed then (s, err store_closed) else (elim r.1 [
              | ok _ ↦ (r.0, ok tt)
              | err e ↦
                  (record r.0 { sessions = s.sessions; conversations = s.conversations }, err e)
            ]))
    go true p r h = ((λ id. refl, λ id. refl), ground (arith, p))
    go false p (t, ok u) h = h.0
    go false p (t, err e) h = ((λ id. refl, λ id. refl), h)
