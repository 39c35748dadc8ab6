-- ===== src/Updates/Polling.antt =====
-- rust/crates/cli/src/daemon.rs: the poller of a bot, and which updates it confirms.
use codex_telegram_bridge.Updates.Offsets.{
  UpdateStore, processed_update_exists, record_processed_update,
}
use codex_telegram_bridge.Prelude.Map.{get, Map, insert, remove}
use codex_telegram_bridge.Prelude.Int.{ℤ, saturating_add, pos, int_ord}
use codex_telegram_bridge.Prelude.{
  String, Bool, true, false, Option, some, List, [], ◌∷◌, if◌then◌else◌, has_some, success, failure,
  string_ord, nat_ord, pair_ord, option_ord, list_ord,
}

-- What `spawn_poller` keeps between rounds: the updates that came, each with whether its handler is
-- done, and the offset to poll from.
pub record Poller : Type 0 where
  pub pending : Map ℤ Bool
  pub offset : Option ℤ

-- A round of updates, after the bound on the backlog. What is sent to the dispatcher comes first.
unfoldable pub receive : String → UpdateStore → List ℤ → Poller → List ℤ × Poller
receive bot s [] p = ([], p)
receive bot s (id ∷ ids) p =
    let known = receive bot s ids p in
    let old = receive bot s ids (record p { pending = insert id true p.pending }) in
    let new = receive bot s ids (record p { pending = insert id false p.pending }) in
    if has_some (get id p.pending)
    then known
    else if processed_update_exists bot id s
    then old
    else (id ∷ new.0, new.1)

-- What a handler reports.
unfoldable pub complete : ℤ → Bool → Poller → Poller
complete id handled p =
    if handled
    then (if has_some (get id p.pending)
        then record p { pending = insert id true p.pending }
        else p)
    else record p { pending = remove id p.pending }

abbrev pub done_prefix : List (ℤ × Bool) → List ℤ
done_prefix [] = []
done_prefix ((id, done) ∷ es) = if done then id ∷ done_prefix es else []

abbrev pub confirmed_update_prefix : Map ℤ Bool → List ℤ
confirmed_update_prefix pending = done_prefix pending.entries

-- `clock` has the moment at which each update is recorded.
unfoldable pub confirm_each :
    String → (ℤ → ℤ) → List ℤ → UpdateStore → Poller → UpdateStore × Poller
unfolding record_processed_update
confirm_each bot clock [] s p = (s, p)
confirm_each bot clock (id ∷ ids) s p =
    let recorded = record_processed_update bot id (clock id) s in
    let rest =
      confirm_each bot clock ids recorded.1
        (record { pending = remove id p.pending; offset = some (saturating_add id (pos 1)) }) in
    elim recorded.0 [ failure _ ↦ (recorded.1, p) | success _ ↦ rest ]

unfoldable pub confirm : String → (ℤ → ℤ) → UpdateStore → Poller → UpdateStore × Poller
unfolding confirm_each
confirm bot clock s p = confirm_each bot clock (confirmed_update_prefix p.pending) s p
