-- ===== src/Domain/Machines.antt =====
-- What the tables of src/agentic_local_app/domain/transitions.py say together.
use agentic_local_app.Base.{◌≤◌, ◌≡◌, true, List, [], ◌∷◌, arith, is_in, length, Enum}
use agentic_local_app.Domain.States.{ConversationState, PlanState}
use agentic_local_app.Domain.Values.{
  conversation_state_enum, plan_state_enum, task_state_enum, cycle_state_enum,
}
use agentic_local_app.Domain.Transitions.{
  Table, conversation_transitions, active_conversation_states, terminal_conversation_states,
  plan_transitions, in_terminal_plan_states, can_transition, is_terminal,
}

-- The active conversations are exactly those that can be interrupted, and the terminal ones exactly
-- those that the table gives no way out of.
pub conversation_sets :
    (s : ConversationState)
    → (is_in s active_conversation_states
        ≡ can_transition conversation_transitions s ConversationState.interrupted)
      × (is_in s terminal_conversation_states ≡ is_terminal conversation_transitions s)
conversation_sets s = ground arith

-- The states that a machine goes through from `s`, in order.
abbrev pub IsTrace : {S : Type 0} → ⦃e : Enum S⦄ → Table S → S → List S → Type 0
IsTrace table s [] = Unit
IsTrace table s (t ∷ ts) = (can_transition table s t ≡ true) × IsTrace table t ts

-- Where a trace that starts in `s` ends.
abbrev pub end_of : {S : Type 0} → S → List S → S
end_of s [] = s
end_of s (t ∷ ts) = end_of t ts

plan_after :
    (s : PlanState) (ts : List PlanState)
    → in_terminal_plan_states s ≡ true
    → IsTrace plan_transitions s ts
    → length ts ≤ 0
plan_after s [] e h = omega arith
plan_after s (t ∷ ts) e h = ground arith

running_after :
    (ts : List PlanState) → IsTrace plan_transitions PlanState.running ts → length ts ≤ 1
running_after [] h = omega arith
running_after (t ∷ ts) h = ground (arith, plan_after t ts)

-- From any state a plan changes its state at most twice.
pub plan_steps :
    (s : PlanState) (ts : List PlanState) → IsTrace plan_transitions s ts → length ts ≤ 2
plan_steps s [] h = omega arith
plan_steps s (t ∷ ts) h = ground (arith, plan_after t ts, running_after ts)
