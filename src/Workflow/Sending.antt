-- ===== src/Workflow/Sending.antt =====
-- When a queued prompt is sent, and when it is sent again.
use codex_telegram_bridge.Prelude.{
  ◌≡◌, ◌⊎◌, refl, ap, inl, inr, false, Option, none, some, String, List, [], ◌∷◌, string_ord,
  option_ord, pair_ord, if◌then◌else◌, arith, Option-cases, Bool-cases,
}
use codex_telegram_bridge.Prelude.Map.{get, get-insert_self}
use codex_telegram_bridge.Workflow.Types.{
  WorkflowScope, scope_ord, queued, submitting, uncertain, PromptIntent, absent, unknown,
  reconcile_thread, retry_queue, ok, err, CodexWorkflowProjection, Result, unknown_prompt, Step,
}
use codex_telegram_bridge.Workflow.Prompts.{
  same_state, put_intent, queue_of, dispatch_from, begin_dispatch,
}
use codex_telegram_bridge.Workflow.Delivery.{is_settled, observe_delivery}

-- What is sent from a queue: its head, if that is queued.
abbrev pub dispatched : List String → CodexWorkflowProjection → Result (Option PromptIntent)
dispatched [] p = ok none
dispatched (id ∷ _) p = elim (get id p.intents) [
  | none ↦ err (unknown_prompt id)
  | some i ↦
      if same_state i.state queued then ok (some (record i { state = submitting })) else ok none
]

dispatch_from-queues :
    (ids : List String) (p : CodexWorkflowProjection) → (dispatch_from ids p).1.queues ≡ p.queues
unfolding dispatch_from
dispatch_from-queues ids p = ground arith

-- The prompt `j` after a dispatch from a queue that holds `ids`.
abbrev pub Sends : List String → CodexWorkflowProjection → String → CodexWorkflowProjection → Type 0
Sends ids p j q =
    (get j q.intents ≡ get j p.intents)
    ⊎ ((i : PromptIntent) × (rest : List String) × (ids ≡ j ∷ rest)
        × (get j p.intents ≡ some i)
        × (i.state ≡ queued)
        × (get j q.intents ≡ some (record i { state = submitting })))

head_sent :
    (id : String) (ids : List String) (p : CodexWorkflowProjection) (i : PromptIntent)
    → get id p.intents ≡ some i
    → i.state ≡ queued
    → dispatch_from (id ∷ ids) p ≡ (
      ok (some (record i { state = submitting })),
      put_intent (record i { state = submitting }) id p,
    )
unfolding dispatch_from
head_sent id ids p i e q = ground arith

head_kept :
    (id : String) (ids : List String) (p : CodexWorkflowProjection) (i : PromptIntent)
    → get id p.intents ≡ some i
    → same_state i.state queued ≡ false
    → dispatch_from (id ∷ ids) p ≡ (ok none, p)
unfolding dispatch_from
head_kept id ids p i e q = ground arith

head_missing :
    (id : String) (ids : List String) (p : CodexWorkflowProjection)
    → get id p.intents ≡ none
    → dispatch_from (id ∷ ids) p ≡ (err (unknown_prompt id), p)
unfolding dispatch_from
head_missing id ids p e = ground arith

-- A prompt that was just sent is not sent again: the scope's next dispatch gives nothing and changes
-- nothing.
pub dispatch-dispatch :
    (scope : WorkflowScope) (p : CodexWorkflowProjection) (i : PromptIntent)
    → (begin_dispatch scope p).0 ≡ ok (some i)
    → begin_dispatch scope (begin_dispatch scope p).1 ≡ (ok none, (begin_dispatch scope p).1)
unfolding begin_dispatch
dispatch-dispatch scope p i h =
    rw (dispatch_from-queues (queue_of scope p.queues) p) (sent (queue_of scope p.queues) h)
  where
    sent :
        (ids : List String)
        → (dispatch_from ids p).0 ≡ ok (some i)
        → dispatch_from ids (dispatch_from ids p).1 ≡ (ok none, (dispatch_from ids p).1)
    sent [] e = unfold dispatch_from in cc
    sent (id ∷ ids) e = elim (Option-cases (get id p.intents)) [
      | inl m ↦ cc (ap (λ (x : Step (Option PromptIntent)). x.0) (head_missing id ids p m))
      | inr (x, f) ↦ elim (Bool-cases (same_state x.state queued)) [
        | inr other ↦ rw (head_kept id ids p x f other) (head_kept id ids p x f other)
        | inl hit ↦
            let sent : PromptIntent = record x { state = submitting } in
            rw (head_sent id ids p x f (ground arith)) (
              head_kept id ids (put_intent sent id p) sent (get-insert_self id sent p.intents) refl)
      ]
    ]

observe_unknown :
    (id : String) (i : PromptIntent) (p : CodexWorkflowProjection)
    → get id p.intents ≡ some i
    → is_settled i.state ≡ false
    → observe_delivery id unknown p
      ≡ (ok (reconcile_thread i.scope ∷ []), put_intent (record i { state = uncertain }) id p)
unfolding observe_delivery
observe_unknown id i p e u = ground arith

observe_absent :
    (id : String) (i : PromptIntent) (p : CodexWorkflowProjection)
    → get id p.intents ≡ some i
    → i.state ≡ uncertain
    → observe_delivery id absent p
      ≡ (ok (retry_queue i.scope ∷ []), put_intent (record i { state = queued }) id p)
unfolding observe_delivery
observe_absent id i p e u = ground arith

-- While the delivery of the prompt at the head of its queue is in doubt, nothing is sent from the
-- queue; once its absence is proved, the prompt itself is sent again.
pub doubt_blocks :
    (id : String) (rest : List String) (i : PromptIntent) (p : CodexWorkflowProjection)
    → queue_of i.scope p.queues ≡ id ∷ rest
    → get id p.intents ≡ some i
    → is_settled i.state ≡ false
    → let q = (observe_delivery id unknown p).1 in
      let r = (observe_delivery id absent q).1 in
      (begin_dispatch i.scope q ≡ (ok none, q))
      × ((observe_delivery id absent q).0 ≡ ok (retry_queue i.scope ∷ []))
      × ((begin_dispatch i.scope r).0 ≡ ok (some (record i { state = submitting })))
unfolding begin_dispatch
doubt_blocks id rest i p h e u =
    let doubted : PromptIntent = record i { state = uncertain } in
    let q : CodexWorkflowProjection = put_intent doubted id p in
    let waiting : PromptIntent = record i { state = queued } in
    let in_q : get id q.intents ≡ some doubted = get-insert_self id doubted p.intents in
    rw (observe_unknown id i p e u, observe_absent id doubted q in_q refl, h)
      (
        head_kept id rest q doubted in_q refl,
        refl,
        ap (λ x. x.0)
            (head_sent id rest (put_intent waiting id q) waiting
              (get-insert_self id waiting q.intents) refl),
      )
