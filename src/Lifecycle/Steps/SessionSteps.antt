-- ===== src/Lifecycle/Steps/SessionSteps.antt =====
-- One call of the manager of src/agentic_local_app/lifecycle/conversation_lifecycle.py: its sessions.
use agentic_local_app.Base.{
  ℕ, ◌≡◌, refl, ◌∙◌, true, Option, none, some, List, [], ◌∷◌, arith, ◌⊎◌, inl, inr, Option-cases,
  any, false,
}
use agentic_local_app.Domain.States.{SessionState}
use agentic_local_app.Domain.Values.{
  session_state_enum, conversation_state_enum, context_window_state_enum,
}
use agentic_local_app.Domain.Transitions.{session_transitions, can_transition}
use agentic_local_app.Persistence.Records.{SessionRecord}
use agentic_local_app.Persistence.Store.{Store, save_session, get_session}
use agentic_local_app.Lifecycle.{Manager, Env, managed_field, unknown_field, persist}
use agentic_local_app.Lifecycle.Sessions
use agentic_local_app.Lifecycle.Sessions.{
  SessionUpdate, create_session, transition_session, update_session,
}
use agentic_local_app.Lifecycle.Steps.{
  SessionMoves, StoreMoves, StoreMoves-refl, persist_publish-store, persist-store,
  save_session-StoreMoves, found_session, checked-Moved, neither,
}

-- Updates keep what the manager owns.
set_field-session :
    (u : SessionUpdate) (s : SessionRecord)
    → Sessions.is_managed u ≡ false
    → ((Sessions.set_field u s).session_id ≡ s.session_id)
      × ((Sessions.set_field u s).status ≡ s.status)
set_field-session u s h = ground (arith, h)

pub with_updates-session :
    (us : List SessionUpdate) (s : SessionRecord)
    → any Sessions.is_managed us ≡ false
    → ((Sessions.with_updates us s).session_id ≡ s.session_id)
      × ((Sessions.with_updates us s).status ≡ s.status)
with_updates-session [] s h = (refl, refl)
with_updates-session (u ∷ us) s h =
    let (plain, rest) = neither (Sessions.is_managed u) (any Sessions.is_managed us) h in
    let (i, t) = set_field-session u s plain in
    let (j, v) = with_updates-session us (Sessions.set_field u s) rest in (j ∙ i, v ∙ t)

pub transitioned-session :
    (now : ℕ) (to : SessionState) (us : List SessionUpdate) (s : SessionRecord)
    → any Sessions.is_managed us ≡ false
    → ((Sessions.transitioned now to us s).session_id ≡ s.session_id)
      × ((Sessions.transitioned now to us s).status ≡ to)
transitioned-session now to us s h = ground (arith, (with_updates-session us s h).0)

pub session_refusal-none :
    (s : SessionRecord) (to : SessionState) (us : List SessionUpdate) (st : Store)
    → Sessions.session_refusal s to us st ≡ none
    → (any Sessions.is_managed us ≡ false) × (can_transition session_transitions s.status to ≡ true)
session_refusal-none s to us st h = ground arith

pub moves_to :
    (st : Store) (current next : SessionRecord)
    → get_session current.session_id st ≡ some current
    → next.session_id ≡ current.session_id
    → (next.status ≡ current.status)
      ⊎ (can_transition session_transitions current.status next.status ≡ true)
    → SessionMoves (get_session next.session_id st) (some next)
moves_to st current next found same h = rw (same, found) h

transition_found-Moved :
    (env : Env) (current : SessionRecord) (to : SessionState) (reason : Option ℕ)
    (us : List SessionUpdate) (m : Manager)
    → get_session current.session_id m.store ≡ some current
    → StoreMoves m.store (Sessions.transition_found env current to reason us m).0.store
transition_found-Moved env current to reason us m found =
    elim (Option-cases (Sessions.session_refusal current to us m.store)) [
      | inr (e, p) ↦ rw (p, Sessions.transition_found) (StoreMoves-refl m.store)
      | inl p ↦
          let next : SessionRecord = Sessions.transitioned env.now to us current in
          let (plain, allowed) = session_refusal-none current to us m.store p in
          let (same, status) = transitioned-session env.now to us current plain in
          rw (p, Sessions.transition_found, persist_publish-store)
            (save_session-StoreMoves next m.store
              (moves_to m.store current next found same (inr (rw status allowed))))
    ]

pub transition_session-Moved :
    (env : Env) (id : ℕ) (to : SessionState) (reason : Option ℕ) (us : List SessionUpdate)
    (m : Manager)
    → StoreMoves m.store (transition_session env id to reason us m).0.store
unfolding transition_session
transition_session-Moved env id to reason us m = elim (Option-cases (get_session id m.store)) [
  | inl p ↦ rw (p, transition_session) (StoreMoves-refl m.store)
  | inr (current, p) ↦
      rw (p, transition_session)
        (transition_found-Moved env current to reason us m (found_session id m.store current p))
]

pub update_session-Moved :
    (env : Env) (id : ℕ) (us : List SessionUpdate) (m : Manager)
    → StoreMoves m.store (update_session env id us m).0.store
unfolding update_session
update_session-Moved env id us m = elim (Option-cases (get_session id m.store)) [
  | inl p ↦ rw (p, update_session) (StoreMoves-refl m.store)
  | inr (current, p) ↦
      let next : SessionRecord = record (Sessions.with_updates us current) {
        updated_at = env.now;
      } in
      rw (p, update_session)
        (checked-Moved m _ _ managed_field unknown_field (persist (save_session next) next m)
          (λ plain.
            let (same, status) = with_updates-session us current plain in
            rw persist-store (
              save_session-StoreMoves next m.store (
                moves_to m.store current next (found_session id m.store current p) same
                  (inl status)))))
]
