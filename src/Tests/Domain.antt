-- ===== src/Tests/Domain.antt =====
-- The tables at concrete states.
use agentic_local_app.Base.{◌≤◌, ◌≡◌, refl, [], ◌∷◌, is_in, length}
use agentic_local_app.Domain.States.{ConversationState, PlanState}
use agentic_local_app.Domain.Values.{conversation_state_enum, plan_state_enum}
use agentic_local_app.Domain.Transitions.{
  conversation_transitions, active_conversation_states, terminal_conversation_states,
  can_transition, is_terminal,
}
use agentic_local_app.Domain.Machines.{conversation_sets, plan_steps}

conversation_sets_example :
    (is_in ConversationState.rotating active_conversation_states
      ≡ can_transition conversation_transitions ConversationState.rotating
          ConversationState.interrupted)
    × (is_in ConversationState.rotating terminal_conversation_states
        ≡ is_terminal conversation_transitions ConversationState.rotating)
conversation_sets_example = conversation_sets ConversationState.rotating

plan_steps_example : length (PlanState.running ∷ PlanState.completed ∷ []) ≤ 2
plan_steps_example =
    plan_steps PlanState.pending (PlanState.running ∷ PlanState.completed ∷ []) (refl, (refl, tt))
