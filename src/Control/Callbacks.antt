-- ===== src/Control/Callbacks.antt =====
-- rust/crates/storage-sqlite/src/lib.rs: callbacks, each for one use.
use codex_telegram_bridge.Prelude.{
  ◌≡◌, refl, arith, Bool, true, false, not, ◌&&◌, ◌||◌, if◌then◌else◌, Option, none, some, String,
  ◌==◌, string_ord, option_ord, is_blank, Outcome, success, failure,
}
use codex_telegram_bridge.Prelude.Map.{get, insert, get-insert_self}
use codex_telegram_bridge.Prelude.Int.{ℤ, int_ord, leb_ℤ}
use codex_telegram_bridge.Ports.{PortError, adapter, Done}
use codex_telegram_bridge.Control.Types.{ControlInteraction, ControlCallback, ControlStore}
use codex_telegram_bridge.Control.Interactions.{is_open}

abbrev pub is_blank_key : Option String → Bool
is_blank_key none = false
is_blank_key (some key) = is_blank key

unfoldable pub upsert_control_callback :
    ControlCallback → ControlStore → Outcome PortError Done × ControlStore
upsert_control_callback callback s =
    if is_blank callback.nonce || is_blank callback.action || is_blank_key callback.scope_key
    then (failure (adapter "control callback fields cannot be empty"), s)
    else (success tt, record s { callbacks = insert callback.nonce callback s.callbacks })

-- The condition of the query.
abbrev pub may_consume : ℤ → ℤ → ℤ → ControlCallback → Bool
may_consume user_id chat_id now_ms callback =
    callback.user_id == user_id
    && callback.chat_id == chat_id
    && leb_ℤ now_ms callback.expires_at_ms
    && is_open callback

abbrev pub revision_of : Option ControlInteraction → Option ℤ
revision_of none = none
revision_of (some row) = some row.revision

-- A callback of an interaction counts only for the revision that the interaction has now.
abbrev pub is_of_current : ControlStore → Option String → Option ℤ → Bool
is_of_current s (some scope_key) (some revision) =
    revision_of (get scope_key s.interactions) == some revision
is_of_current s _ _ = true

unfoldable pub consume_row :
    String
    → ℤ
    → ℤ
    → ℤ
    → Option ControlCallback
    → ControlStore
    → Option ControlCallback × ControlStore
consume_row nonce user_id chat_id now_ms none s = (none, s)
consume_row nonce user_id chat_id now_ms (some callback) s =
    let used = record callback { consumed_at_ms = some now_ms } in
    if not (may_consume user_id chat_id now_ms callback)
    then (none, s)
    else if not (is_of_current s callback.scope_key callback.revision)
    then (none, s)
    else (some used, record s { callbacks = insert nonce used s.callbacks })

unfoldable pub consume_control_callback :
    String → ℤ → ℤ → ℤ → ControlStore → Option ControlCallback × ControlStore
unfolding consume_row
consume_control_callback nonce user_id chat_id now_ms s =
    consume_row nonce user_id chat_id now_ms (get nonce s.callbacks) s

-- A callback that is consumed or invalidated, under this nonce.
IsClosed : String → ControlStore → Type 0
IsClosed nonce s =
    (row : ControlCallback) × (get nonce s.callbacks ≡ some row) × (is_open row ≡ false)

closed_refused :
    (nonce : String) (user_id chat_id now_ms : ℤ) (s : ControlStore)
    → IsClosed nonce s
    → consume_control_callback nonce user_id chat_id now_ms s ≡ (none, s)
unfolding IsClosed consume_control_callback consume_row
closed_refused nonce user_id chat_id now_ms s (row, e, h) = rw e (ground arith)

consumed-IsClosed :
    (nonce : String) (user_id chat_id now_ms : ℤ) (o : Option ControlCallback) (s : ControlStore)
    (used : ControlCallback)
    → (consume_row nonce user_id chat_id now_ms o s).0 ≡ some used
    → IsClosed nonce (consume_row nonce user_id chat_id now_ms o s).1
unfolding IsClosed consume_row
consumed-IsClosed nonce user_id chat_id now_ms none s used h = ground arith
consumed-IsClosed nonce user_id chat_id now_ms (some row) s used h = (
  record row { consumed_at_ms = some now_ms },
  ground (arith, get-insert_self nonce (record row { consumed_at_ms = some now_ms }) s.callbacks),
  refl,
)

-- A callback is consumed once: after a use that succeeds, another use of the same nonce, by whom and
-- when ever, gives nothing and changes nothing.
pub consume-consume :
    (nonce : String) (user_id chat_id now_ms user_id' chat_id' now_ms' : ℤ) (s : ControlStore)
    (used : ControlCallback)
    → (consume_control_callback nonce user_id chat_id now_ms s).0 ≡ some used
    → let s' = (consume_control_callback nonce user_id chat_id now_ms s).1 in
      consume_control_callback nonce user_id' chat_id' now_ms' s' ≡ (none, s')
unfolding consume_control_callback
consume-consume nonce user_id chat_id now_ms user_id' chat_id' now_ms' s used h =
    closed_refused nonce user_id' chat_id' now_ms' _
      (consumed-IsClosed nonce user_id chat_id now_ms (get nonce s.callbacks) s used h)
