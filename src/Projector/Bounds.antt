-- ===== src/Projector/Bounds.antt =====
-- rust/crates/engine/src/projector.rs: the bound on the items that a thread keeps.
use codex_telegram_bridge.Projector.Histories.{
  Call, run, IsInvariant, Everywhere, RestoresAs, run-Everywhere,
}
use codex_telegram_bridge.Projector.Reading.{
  merge_from, merge_thread, clear_recoverable_error, clear_if,
}
use codex_telegram_bridge.Projector.Subagents.{project_item_subagents}
use codex_telegram_bridge.Projector.Apply.{
  EventKind, apply_kind, thread_event, status_event, settings_event, turn_started_event,
  turn_updated_event, turn_ended_event, item_event, delta_event, plan_event, goal_event,
  subagent_event, review_event, error_event, other_event, projection,
}
use codex_telegram_bridge.Json.{JsonApi, text_of}
use codex_telegram_bridge.Prelude.Int.{int_ord}
use codex_telegram_bridge.Projector.Types.{ThreadProjection, new_thread}
use codex_telegram_bridge.Projector.Handlers.{
  max_projection_items, drop_front, truncate_items, Clock, project_thread, put_item, project_item,
  count_turn, project_status, project_settings, project_turn_started, project_turn_updated,
  project_turn_ended, project_subagent, project_error,
}
use codex_telegram_bridge.Prelude.Removal.{
  Distinct-remove, contains-retain_keys, Distinct-retain_keys, length-keys,
}
use codex_telegram_bridge.Prelude.Distinct.{length_of_contained}
use codex_telegram_bridge.Prelude.{
  ◌≤◌, String, List, [], ◌∷◌, arith, length, string_ord, nat_ord, pair_ord, option_ord, list_ord,
  ◌≡◌, inl, inr, Option-cases, false, refl, All,
}
use codex_telegram_bridge.Prelude.Map.{
  Map, keys, retain_keys, contains, Distinct, remove, Distinct-insert, empty, get-empty,
}

-- At most 200 items, which stand at most once each, and at most 200 names in their order.
pub record IsBounded {V : Type 0} (p : ThreadProjection V) : Type 0 where
  order_bounded : length p.item_order ≤ max_projection_items
  items_bounded : length p.items.entries ≤ max_projection_items
  items_distinct : Distinct (keys p.items)

module _ {V : Type 0} where
  length-drop_front :
      (order : List String) (items : Map String V)
      → length (drop_front order items).0 ≤ max_projection_items
  unfolding drop_front
  length-drop_front [] items = omega arith
  length-drop_front (x ∷ order) items = ground (arith, length-drop_front order (remove x items))

  Distinct-drop_front :
      (order : List String) (items : Map String V)
      → Distinct (keys items)
      → Distinct (keys (drop_front order items).1)
  unfolding drop_front
  Distinct-drop_front [] items d = d
  Distinct-drop_front (x ∷ order) items d =
      ground (arith, Distinct-drop_front order (remove x items) (Distinct-remove x items d))

  -- Items that are all named by the order are at most as many.
  length-retained :
      (order : List String) (items : Map String V)
      → Distinct (keys items)
      → length (retain_keys (λ id. contains id order) items).entries ≤ length order
  length-retained order items d =
      let kept = retain_keys (λ id. contains id order) items in
      let counted = length-keys kept in
      let fewer =
        length_of_contained (keys kept) order
          (Distinct-retain_keys (λ id. contains id order) items d)
          (λ k m. ground (arith, contains-retain_keys (λ id. contains id order) k items)) in
      omega arith

  pub truncate_items-IsBounded :
      (p : ThreadProjection V) → Distinct (keys p.items) → IsBounded (truncate_items p)
  unfolding truncate_items
  truncate_items-IsBounded p d =
      let short = length-drop_front p.item_order p.items in
      let distinct = Distinct-drop_front p.item_order p.items d in
      let (order, items) = drop_front p.item_order p.items in
      record {
        order_bounded = short;
        items_bounded = ground (arith, length-retained order items distinct);
        items_distinct =
            ground (arith, Distinct-retain_keys (λ id. contains id order) items distinct);
      }

module _ (api : JsonApi) where
  open api use {Value}

  IsBounded-same :
      (p q : ThreadProjection Value)
      → (q.items ≡ p.items) × (q.item_order ≡ p.item_order)
      → IsBounded p
      → IsBounded q
  IsBounded-same p q (same, ordered) b = record {
    order_bounded = rw ordered b.order_bounded;
    items_bounded = rw same b.items_bounded;
    items_distinct = rw same b.items_distinct;
  }

  Distinct-put_item :
      (item : Value) (p : ThreadProjection Value)
      → Distinct (keys p.items)
      → Distinct (keys (put_item api item p).items)
  unfolding put_item
  Distinct-put_item item p d = elim (Option-cases (text_of api "id" item)) [
    | inl e ↦ rw (e, put_item) d
    | inr (id, e) ↦ rw (e, put_item) (Distinct-insert id item p.items d)
  ]

  project_item-IsBounded :
      (clock : Clock) (params : Value) (p : ThreadProjection Value)
      → IsBounded p
      → IsBounded (project_item api clock params p)
  unfolding project_item project_item_subagents
  project_item-IsBounded clock params p b = elim (Option-cases (api.get "item" params)) [
    | inl e ↦ rw (e, project_item) b
    | inr (item, e) ↦
        rw (e, project_item)
          (truncate_items-IsBounded
            (project_item_subagents api clock.second false item (put_item api item p))
            (Distinct-put_item item p b.items_distinct))
  ]

  pub apply_kind-IsBounded :
      (kind : EventKind) (clock : Clock) (params : Value) (p : ThreadProjection Value)
      → IsBounded p
      → IsBounded (apply_kind api kind clock params p).1
  unfolding apply_kind project_thread project_status project_settings project_turn_started
      project_turn_updated project_turn_ended project_subagent project_error clear_if
      clear_recoverable_error count_turn merge_thread merge_from
  apply_kind-IsBounded thread_event clock params p b = IsBounded-same p _ (ground arith) b
  apply_kind-IsBounded status_event clock params p b = IsBounded-same p _ (ground arith) b
  apply_kind-IsBounded settings_event clock params p b = IsBounded-same p _ (ground arith) b
  apply_kind-IsBounded turn_started_event clock params p b = IsBounded-same p _ (ground arith) b
  apply_kind-IsBounded turn_updated_event clock params p b = IsBounded-same p _ (ground arith) b
  apply_kind-IsBounded (turn_ended_event rest) clock params p b =
      IsBounded-same p _ (ground arith) b
  apply_kind-IsBounded item_event clock params p b = project_item-IsBounded clock params p b
  apply_kind-IsBounded delta_event clock params p b = IsBounded-same p _ (ground arith) b
  apply_kind-IsBounded plan_event clock params p b = IsBounded-same p _ (ground arith) b
  apply_kind-IsBounded goal_event clock params p b = IsBounded-same p _ (ground arith) b
  apply_kind-IsBounded subagent_event clock params p b = IsBounded-same p _ (ground arith) b
  apply_kind-IsBounded (review_event rest) clock params p b = IsBounded-same p _ (ground arith) b
  apply_kind-IsBounded error_event clock params p b = IsBounded-same p _ (ground arith) b
  apply_kind-IsBounded other_event clock params p b = IsBounded-same p _ (ground arith) b

  -- The row is a map of items.
  abbrev pub HasItemMap : ThreadProjection Value → Type 0
  HasItemMap p = Distinct (keys p.items)

  IsBounded-IsInvariant : IsInvariant api IsBounded HasItemMap
  unfolding new_thread empty
  IsBounded-IsInvariant = record {
    of_new = λ id generation. record {
      order_bounded = ground arith;
      items_bounded = ground arith;
      items_distinct = tt;
    };
    of_touched = λ p generation at_ms b. IsBounded-same p _ (refl, refl) b;
    of_stamped = λ p started at_ms b. IsBounded-same p _ (refl, refl) b;
    of_event = apply_kind-IsBounded;
    of_row = truncate_items-IsBounded;
  }

  -- Whatever the calls on a projector without threads, every thread has at most 200 items, under
  -- distinct names, and at most 200 names in their order, where each restored row is a map of items.
  pub run-IsBounded :
      (calls : List (Call Value))
      → All (RestoresAs api HasItemMap) calls
      → Everywhere api IsBounded (run api calls empty)
  unfolding projection
  run-IsBounded calls rows =
      run-Everywhere api IsBounded-IsInvariant calls empty rows
        (λ id p e. absurd (ground (arith, get-empty {V = ThreadProjection Value} id)))
