-- ===== src/Workflow/Lifecycle/Prompting.antt =====
-- The methods that create, queue and send a prompt follow the lifecycle.
use codex_telegram_bridge.Prelude.{
  ◌≡◌, is_blank, true, String, List, [], ◌∷◌, string_ord, option_ord, arith, eq_iff,
}
use codex_telegram_bridge.Prelude.Map.{get, get-insert}
use codex_telegram_bridge.Workflow.Types.{
  WorkflowScope, PromptIntentState, awaiting_choice, queued, submitting, PromptIntent, ok,
  CodexWorkflowProjection,
}
use codex_telegram_bridge.Workflow.Prompts.{
  new_intent, validate_scope, same_state, transition_prompt, create_prompt, queue_prompt,
  await_choice, dispatch_head, dispatch_from,
}
use codex_telegram_bridge.Workflow.Cases.{try_cases, if_cases, intent_cases}
use codex_telegram_bridge.Workflow.Lifecycle.{
  may_become, Moves, Evolves-refl, Evolves-put, EvolvesAt,
}

transition-Moves :
    (i k : PromptIntent) (t : PromptIntentState)
    → transition_prompt i t ≡ ok k
    → may_become i.state t ≡ true
    → Moves i k
unfolding transition_prompt
transition-Moves i k t e m = ground arith

pub create_prompt-Evolves :
    (id : String) (scope : WorkflowScope) (p : CodexWorkflowProjection) (j : String)
    → EvolvesAt j p (create_prompt id scope p).1
unfolding create_prompt
create_prompt-Evolves id scope p j =
    if_cases (EvolvesAt j p) (is_blank id) _ _ (λ _. Evolves-refl _)
      λ _. try_cases (EvolvesAt j p) (validate_scope scope) p _ (Evolves-refl _) λ _ _. ground (
        arith,
        get-insert id j (new_intent id scope) p.intents,
        eq_iff id j,
        Evolves-refl (get j p.intents),
      )

queued_edge :
    (i k : PromptIntent) → transition_prompt i queued ≡ ok k → may_become i.state queued ≡ true
unfolding transition_prompt
queued_edge i k e = ground arith

choice_edge :
    (i k : PromptIntent)
    → transition_prompt i awaiting_choice ≡ ok k
    → may_become i.state awaiting_choice ≡ true
unfolding transition_prompt
choice_edge i k e = ground arith

pub queue_prompt-Evolves :
    (id : String) (p : CodexWorkflowProjection) (j : String) → EvolvesAt j p (queue_prompt id p).1
unfolding queue_prompt
queue_prompt-Evolves id p j = intent_cases (EvolvesAt j p) id p _ (Evolves-refl _) λ i e.
    try_cases (EvolvesAt j p) _ p _ (Evolves-refl _)
      λ k t. Evolves-put p id j e (transition-Moves i k queued t (queued_edge i k t))

pub await_choice-Evolves :
    (id : String) (p : CodexWorkflowProjection) (j : String) → EvolvesAt j p (await_choice id p).1
unfolding await_choice
await_choice-Evolves id p j = intent_cases (EvolvesAt j p) id p _ (Evolves-refl _) λ i e.
    try_cases (EvolvesAt j p) _ p _ (Evolves-refl _)
      λ k t. Evolves-put p id j e (transition-Moves i k awaiting_choice t (choice_edge i k t))

submit_Moves :
    (i k : PromptIntent)
    → same_state i.state queued ≡ true
    → transition_prompt i submitting ≡ ok k
    → Moves i k
unfolding transition_prompt
submit_Moves i k q e = ground arith

pub dispatch_from-Evolves :
    (ids : List String) (p : CodexWorkflowProjection) (j : String)
    → EvolvesAt j p (dispatch_from ids p).1
unfolding dispatch_from dispatch_head
dispatch_from-Evolves [] p j = Evolves-refl _
dispatch_from-Evolves (id ∷ ids) p j = intent_cases (EvolvesAt j p) id p _ (Evolves-refl _) λ i e.
    if_cases (EvolvesAt j p) (same_state i.state queued) _ _
      (λ q.
        try_cases (EvolvesAt j p) _ p _ (Evolves-refl _)
          λ k t. Evolves-put p id j e (submit_Moves i k q t))
      (λ _. Evolves-refl _)
