-- ===== src/Projector/Reading.antt =====
-- rust/crates/engine/src/projector.rs: what is read of an event, and a thread's own fields.
use codex_telegram_bridge.Prelude.{
  Bool, false, not, ◌&&◌, ◌||◌, String, Option, none, some, List, [], ◌∷◌, map, if◌then◌else◌, ◌==◌,
  string_ord, list_ord, nat_ord, or_else, ◌>>=◌, unwrap_or, has_some, is_blank, codes, trim,
  to_ascii_lowercase, contains_text,
}
use codex_telegram_bridge.Json.{JsonApi, text_of, first_text, get_either, texts}
use codex_telegram_bridge.Projector.Types.{ThreadProjection}

abbrev pub keep_if : (String → Bool) → Option String → Option String
keep_if p none = none
keep_if p (some s) = if p s then some s else none

-- `is_some_and` of one of these texts.
abbrev pub is_one_of : List String → Option String → Bool
is_one_of names none = false
is_one_of [] (some s) = false
is_one_of (name ∷ names) (some s) = name == s || is_one_of names (some s)

module _ (api : JsonApi) where
  open api use {Value, get, pointer, as_str, as_array}

  -- The first of the four places that holds a text, unless that is blank.
  unfoldable pub thread_id_from_params : Value → Option String
  thread_id_from_params params =
      keep_if (λ s. not (is_blank s))
        (or_else (text_of api "threadId" params) (
          or_else (pointer "/thread/id" params >>= as_str) (
            or_else (pointer "/turn/threadId" params >>= as_str)
              (pointer "/item/threadId" params >>= as_str))))

  abbrev raw_mode : Value → Option String
  raw_mode value = or_else (as_str value) (text_of api "mode" value)

  -- The trimmed and lowered text is compared, which decides what it is.
  abbrev known_mode : String → Option String
  known_mode raw =
      let mode = map to_ascii_lowercase (trim (codes raw)) in
      if mode == codes "plan"
      then some "plan"
      else if mode == codes "default"
      then some "default"
      else none

  unfoldable pub normalized_mode : Value → Option String
  normalized_mode value = raw_mode value >>= known_mode

  unfoldable pub mode_from_fields : Value → List String → Option String
  unfolding normalized_mode
  mode_from_fields value [] = none
  mode_from_fields value (field ∷ fields) =
      or_else (get field value >>= normalized_mode) (mode_from_fields value fields)

  -- The text of a status, or of its type.
  abbrev pub status_name : Value → Option String
  status_name value = or_else (as_str value) (text_of api "type" value)

  abbrev pub flags_of : Value → List String
  flags_of status = unwrap_or [] (
      get_either api "activeFlags" "active_flags" status >>= λ value.
      as_array value >>= λ values. some (texts api values))

  abbrev pub either_text : String → String → Value → Option String
  either_text a b value = get_either api a b value >>= as_str

  abbrev pub flags_after : Option Value → List String → List String
  flags_after none flags = flags
  flags_after (some status) flags = flags_of status

  unfoldable pub merge_from : Value → ThreadProjection Value → ThreadProjection Value
  unfolding mode_from_fields
  merge_from source p =
      let confirmed = mode_from_fields source ("collaborationMode" ∷ "collaboration_mode" ∷ []) in
      let observed = mode_from_fields source ("observedMode" ∷ "observed_mode" ∷ []) in
      record p {
        title =
            or_else (first_text api ("title" ∷ "name" ∷ "naturalSummary" ∷ "summary" ∷ []) source)
              p.title;
        cwd = or_else (either_text "cwd" "directory" source) p.cwd;
        status = or_else (get "status" source >>= status_name) p.status;
        desired_mode = or_else confirmed p.desired_mode;
        observed_mode = or_else observed (or_else confirmed p.observed_mode);
        model = or_else (text_of api "model" source) p.model;
        effort = or_else (either_text "effort" "reasoningEffort" source) p.effort;
        active_flags = flags_after (get "status" source) p.active_flags;
      }

  unfoldable pub merge_thread : Value → ThreadProjection Value → ThreadProjection Value
  unfolding merge_from
  merge_thread params p = merge_from (unwrap_or params (get "thread" params)) p

-- The text says that the connection comes back.
unfoldable pub recoverable_error_text : String → Bool
recoverable_error_text message =
    let normalized = map to_ascii_lowercase (codes message) in
    contains_text (codes "reconnecting") normalized || contains_text (codes "will retry") normalized

unfoldable pub status_is_healthy : Option String → Bool
status_is_healthy status =
    has_some status && not (is_one_of ("systemError" ∷ "failed" ∷ "error" ∷ []) status)

module _ {V : Type 0} where
  unfoldable pub clear_recoverable_error : ThreadProjection V → ThreadProjection V
  clear_recoverable_error p =
      if p.last_error_recoverable
      then record p { last_error = none; last_error_recoverable = false }
      else p

  unfoldable pub clear_if : Bool → ThreadProjection V → ThreadProjection V
  unfolding clear_recoverable_error
  clear_if healthy p = if healthy then clear_recoverable_error p else p
