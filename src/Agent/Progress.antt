-- ===== src/Agent/Progress.antt =====
-- `agent_progress` of app/api/routes/agent_callbacks.py: an agent's messages, some of which are
-- control signals. `parse` stands for json.loads, which may raise, and `equal` for Python's == of
-- values.
use langgraph_backend.Base.{
  String, Bool, Option, none, some, List, [], ◌∷◌, ◌++◌, ◌==◌, if◌then◌else◌, get_or, or_else,
  ◌>>=◌, any, starts_with,
}
use langgraph_backend.Base.Dict.{lookup, insert}
use langgraph_backend.Texts.{◌<>◌, from, length_of}
use langgraph_backend.Value.{Value, text, array, items, elements, State, truthy, get, as_dict}
use langgraph_backend.GraphRun.{GraphRun}
use langgraph_backend.Mongo.{Collection}
use langgraph_backend.Mongo.Runs.{save}
use langgraph_backend.Approval.{not_found, Response, ok, error}

pub data Report : Type 0 where
  token_updated mcp_started mcp_ended tool_started tool_ended mcp_cleared : Report
  sentinel_ignored progress_stored : Report

-- run.current_step or "_unscoped"
abbrev pub step_key : Option String → String
step_key none = "_unscoped"
step_key (some s) = if s == "" then "_unscoped" else s

-- The text behind the prefix, where the message has it.
abbrev pub behind : String → String → Option String
behind prefix message =
    if starts_with message prefix then some (from (length_of prefix) message) else none

-- list(state.get(key, [])). Only lists are ever stored there, so nothing else is read.
abbrev pub listed : Option Value → Option (List Value)
listed none = some []
listed (some (array vs)) = some (elements vs)
listed (some _) = none

module _ (parse : String → Option Value) (equal : Value → Value → Bool) where
  -- `x in xs`
  abbrev pub is_in : Value → List Value → Bool
  is_in v = any (λ w. equal v w)

  -- xs.remove(x), for an x that is in xs
  unfoldable pub remove_first : Value → List Value → List Value
  remove_first v [] = []
  remove_first v (w ∷ ws) = let rest = remove_first v ws in if equal v w then ws else w ∷ rest

  -- The dict that the message holds behind its prefix.
  abbrev pub parsed_dict : String → String → Option State
  parsed_dict prefix message = do body ← behind prefix message; v ← parse body; as_dict v

  -- `{**(run.state or {}), key: servers}` with d[name] added, where it is given.
  unfoldable pub track : String → String → State → State → Option State
  track key name d state = do
    active ← listed (lookup key state)
    some (
        insert key
          (array (items (if truthy (get name d) then active ++ get name d ∷ [] else active))) state)

  -- The same with one occurrence of d[name] taken away.
  unfoldable pub untrack : String → String → State → State → Option State
  unfolding remove_first
  untrack key name d state = do
    active ← listed (lookup key state)
    let rest = remove_first (get name d) active
    some (insert key (array (items (if is_in (get name d) active then rest else active))) state)

  unfoldable pub token_update : String → String → State → Option (Report × State)
  token_update step message state = do
    body ← behind "__token__:" message
    usage ← parse body
    some (token_updated, insert ("_live_token_usage_" <> step) usage state)

  unfoldable pub tracked :
      String → Report → String → String → String → State → Option (Report × State)
  unfolding track
  tracked prefix report key name message state = do
    d ← parsed_dict prefix message
    s ← track key name d state
    some (report, s)

  unfoldable pub untracked :
      String → Report → String → String → String → State → Option (Report × State)
  unfolding untrack
  untracked prefix report key name message state = do
    d ← parsed_dict prefix message
    s ← untrack key name d state
    some (report, s)

  unfoldable pub cleared_tracking : String → State → Option (Report × State)
  cleared_tracking message state =
      if starts_with message "__mcp_clear__:"
      then some (
        mcp_cleared,
        insert "_active_tools" (array (items []))
            (insert "_active_mcp_servers" (array (items [])) state),
      )
      else none

  -- The control signals, in the order in which they are tried; a malformed one falls through.
  unfoldable pub control : String → String → State → Option (Report × State)
  unfolding token_update tracked untracked cleared_tracking
  control step message state = or_else (token_update step message state) (
      or_else (tracked "__mcp_start__:" mcp_started "_active_mcp_servers" "server" message state) (
        or_else (untracked "__mcp_end__:" mcp_ended "_active_mcp_servers" "server" message state) (
          or_else (tracked "__tool_start__:" tool_started "_active_tools" "tool" message state) (
            or_else (untracked "__tool_end__:" tool_ended "_active_tools" "tool" message state)
              (cleared_tracking message state)))))

  -- The message itself, behind all signals. (The stored value is a list.)
  unfoldable pub append_progress : String → String → State → State
  append_progress step message state =
      let key = "_agent_progress_" <> step in
      insert key (array (items (get_or (listed (lookup key state)) [] ++ text message ∷ []))) state

  module _ (mongo : Collection GraphRun) where
    open mongo use {Store, find_one}

    abbrev pub save_state : GraphRun → State → Store → Store
    save_state run state s = save mongo (record run { state = state }) s

    -- The run's state is written only where the message changes it.
    unfoldable pub report : String → GraphRun → Store → Report × Store
    unfolding control append_progress
    report message run s = elim (control (step_key run.current_step) message run.state) [
      | some (r, state) ↦ (r, save_state run state s)
      | none ↦ if starts_with message "__" then (sentinel_ignored, s) else (
        progress_stored,
        save_state run (append_progress (step_key run.current_step) message run.state) s,
      )
    ]

    unfoldable pub agent_progress : String → String → Store → Response Report × Store
    unfolding report
    agent_progress run_id message s = elim (find_one run_id s) [
      | none ↦ (error not_found, s)
      | some run ↦ let (r, s') = report message run s in (ok r, s')
    ]
