-- ===== src/Workflow/Turns.antt =====
-- How the end of a turn reaches its prompts, whichever of its start and end is seen first.
use codex_telegram_bridge.Prelude.{
  ◌≡◌, refl, ◌∙◌, inl, inr, true, false, ◌||◌, none, some, String, List, [], ◌∷◌, ◌==◌, string_ord,
  option_ord, pair_ord, arith, Bool-cases, eq_iff, eq_self, is_blank, Elem, Elem-append_left,
  Elem-append_right,
}
use codex_telegram_bridge.Prelude.Map.{get, insert, get-insert_self, contains}
use codex_telegram_bridge.Workflow.Types.{
  PromptIntentState, started, PromptIntent, TurnTerminalStatus, intent_state, prompt_finished,
  CodexWorkflowProjection,
}
use codex_telegram_bridge.Workflow.Prompts.{put_intent, finish_prompt}
use codex_telegram_bridge.Workflow.Delivery.{
  may_start, observe_turn_started, observe_turn_completed, is_affected, affected_keys, finish_all,
  or_nothing,
}
use codex_telegram_bridge.Workflow.Cases.{
  get-finish_prompt, get-observe_turn_completed, contains-affected_keys,
}
use codex_telegram_bridge.Workflow.Keyed.{IsKeyed, observe_turn_started-IsKeyed}

finish_prompt_reports :
    (id : String) (status : TurnTerminalStatus) (p : CodexWorkflowProjection) (i : PromptIntent)
    (turn_id : String)
    → get id p.intents ≡ some i
    → i.turn_id ≡ some turn_id
    → Elem (prompt_finished id i.scope turn_id status) (or_nothing (finish_prompt id status p).0)
unfolding finish_prompt
finish_prompt_reports id status p i turn_id e t = ground arith

finish_all_reports :
    (ids : List String) (status : TurnTerminalStatus) (p : CodexWorkflowProjection) (j : String)
    (i : PromptIntent) (turn_id : String)
    → contains j ids ≡ true
    → get j p.intents ≡ some i
    → i.turn_id ≡ some turn_id
    → Elem (prompt_finished j i.scope turn_id status) (finish_all ids status p).0
unfolding finish_all
finish_all_reports [] status p j i turn_id h e t = cc
finish_all_reports (id ∷ ids) status p j i turn_id h e t = elim (Bool-cases (id == j)) [
  | inl same ↦
      let id-eq-j : id ≡ j = (eq_iff id j).0 same in
      Elem-append_left _ (or_nothing (finish_prompt id status p).0) _
        (rw id-eq-j (finish_prompt_reports j status p i turn_id e t))
  | inr other ↦ Elem-append_right _ (or_nothing (finish_prompt id status p).0) _ (
      finish_all_reports ids status (finish_prompt id status p).1 j i turn_id (ground arith)
        (rw (get-finish_prompt id status p j, other) e) t)
]

-- `unwrap_or_default` hides no error: as a turn ends, each prompt of its thread that carries the turn
-- and is not terminal is reported as finished with the turn's status, where the prompts have distinct
-- keys and the thread and the turn have names.
pub observe_turn_completed_reports :
    (thread_id turn_id : String) (status : TurnTerminalStatus) (p : CodexWorkflowProjection)
    (j : String) (i : PromptIntent)
    → is_blank thread_id || is_blank turn_id ≡ false
    → IsKeyed p
    → get j p.intents ≡ some i
    → is_affected thread_id turn_id i ≡ true
    → Elem
        (prompt_finished j i.scope turn_id status)
        (observe_turn_completed thread_id turn_id status p).0
unfolding observe_turn_completed get
observe_turn_completed_reports thread_id turn_id status p j i named k e a = rw named (
    finish_all_reports (affected_keys thread_id turn_id p.intents.entries) status _ j i turn_id
      (rw (contains-affected_keys thread_id turn_id j p.intents.entries k, e) a) e
      (ground (arith, eq_iff i.turn_id (some turn_id))))

finish_all-terminal_turns :
    (ids : List String) (status : TurnTerminalStatus) (p : CodexWorkflowProjection)
    → (finish_all ids status p).1.terminal_turns ≡ p.terminal_turns
unfolding finish_all finish_prompt
finish_all-terminal_turns [] status p = refl
finish_all-terminal_turns (id ∷ ids) status p =
    finish_all-terminal_turns ids status (finish_prompt id status p).1 ∙ ground arith

get-terminal_turns :
    (thread_id turn_id : String) (status : TurnTerminalStatus) (p : CodexWorkflowProjection)
    → is_blank thread_id || is_blank turn_id ≡ false
    → get (thread_id, turn_id) (observe_turn_completed thread_id turn_id status p).1.terminal_turns
      ≡ some status
unfolding observe_turn_completed
get-terminal_turns thread_id turn_id status p named = rw named (
    rw
      (finish_all-terminal_turns (affected_keys thread_id turn_id p.intents.entries) status
        (record p { terminal_turns = insert (thread_id, turn_id) status p.terminal_turns }))
      (get-insert_self (thread_id, turn_id) status p.terminal_turns))

abbrev with_turn : PromptIntent → String → PromptIntentState → PromptIntent
with_turn i turn_id state = record i { turn_id = some turn_id; state = state }

started_open :
    (id turn_id : String) (p : CodexWorkflowProjection) (i : PromptIntent)
    → get id p.intents ≡ some i
    → may_start i.state ≡ true
    → is_blank turn_id || is_blank i.scope.thread_id ≡ false
    → get (i.scope.thread_id, turn_id) p.terminal_turns ≡ none
    → (observe_turn_started id turn_id p).1 ≡ put_intent (with_turn i turn_id started) id p
unfolding observe_turn_started
started_open id turn_id p i e m named n = ground arith

started_ended :
    (id turn_id : String) (p : CodexWorkflowProjection) (i : PromptIntent)
    (status : TurnTerminalStatus)
    → get id p.intents ≡ some i
    → may_start i.state ≡ true
    → is_blank turn_id || is_blank i.scope.thread_id ≡ false
    → get (i.scope.thread_id, turn_id) p.terminal_turns ≡ some status
    → (observe_turn_started id turn_id p).1
      ≡ (finish_prompt id status (put_intent (with_turn i turn_id started) id p)).1
unfolding observe_turn_started
started_ended id turn_id p i status e m named n = ground arith

-- A prompt that may start, and has no turn yet, ends in the same state whether the start of its turn is
-- seen before the turn's end or after it: with the turn, and in the state of the turn's status. The
-- prompts have distinct keys, the thread and the turn have names, and the turn's end was not seen
-- before.
pub start-end_commute :
    (id turn_id : String) (status : TurnTerminalStatus) (p : CodexWorkflowProjection)
    (i : PromptIntent)
    → IsKeyed p
    → get id p.intents ≡ some i
    → may_start i.state ≡ true
    → i.turn_id ≡ none
    → is_blank turn_id ≡ false
    → is_blank i.scope.thread_id ≡ false
    → get (i.scope.thread_id, turn_id) p.terminal_turns ≡ none
    → let thread_id = i.scope.thread_id in
      let ended = with_turn i turn_id (intent_state status) in
      let start_first = (observe_turn_started id turn_id p).1 in
      let end_first = (observe_turn_completed thread_id turn_id status p).1 in
      (get id (observe_turn_completed thread_id turn_id status start_first).1.intents ≡ some ended)
      × (get id (observe_turn_started id turn_id end_first).1.intents ≡ some ended)
start-end_commute id turn_id status p i k e m t named_turn named_thread n =
    let thread_id = i.scope.thread_id in
    let start_first : CodexWorkflowProjection = (observe_turn_started id turn_id p).1 in
    let end_first : CodexWorkflowProjection =
      (observe_turn_completed thread_id turn_id status p).1 in
    let named : is_blank thread_id || is_blank turn_id ≡ false = ground arith in
    let named' : is_blank turn_id || is_blank thread_id ≡ false = ground arith in
    let running : get id start_first.intents ≡ some (with_turn i turn_id started) =
      rw (started_open id turn_id p i e m named' n)
        (get-insert_self id (with_turn i turn_id started) p.intents) in
    let waiting : get id end_first.intents ≡ some i =
      rw (get-observe_turn_completed thread_id turn_id status p id named k, e) (ground arith) in
    (
      rw
          (
            get-observe_turn_completed thread_id turn_id status start_first id named
                (observe_turn_started-IsKeyed id turn_id p k),
            running,
          )
          (ground (arith, eq_self thread_id, eq_self turn_id)),
      rw
          (started_ended id turn_id end_first i status waiting m named'
            (get-terminal_turns thread_id turn_id status p named))
          (rw (
            get-finish_prompt id status (put_intent (with_turn i turn_id started) id end_first) id,
            eq_self id,
            get-insert_self id (with_turn i turn_id started) end_first.intents,
          )),
    )
