-- ===== src/Recovery.antt =====
-- How a run that stopped is set up to go on: the state that its finished steps and its stored state
-- give, the last of these steps, and the runner. `retry_run` of app/api/routes/workflows.py and
-- `_recover_run` of app/core/container.py share this.
pub mod Cron
pub mod Schedule
pub mod Startup
pub mod Sweep
pub mod Watch
use langgraph_backend.Base.{
  String, Bool, true, false, not, Option, none, some, List, [], ◌∷◌, ◌==◌, ◌&&◌, if◌then◌else◌,
  get_or, or_else, starts_with,
}
use langgraph_backend.Base.Dict.{Dict, lookup, update, set_default}
use langgraph_backend.Value.{Value, null, text, State, is_none, dict_or_empty}
use langgraph_backend.GraphRun.{GraphRun, StepStatus}
use langgraph_backend.Step.{Step}
use langgraph_backend.Approval.{Runner}

-- status in ("finished", "skipped")
abbrev pub is_done : Option StepStatus → Bool
is_done (some StepStatus.finished) = true
is_done (some StepStatus.skipped) = true
is_done _ = false

abbrev pub step_is_done : GraphRun → Step → Bool
step_is_done run s = is_done (lookup s.id run.step_statuses)

-- The stored output of a step, {} where it is missing or no dict.
abbrev pub output_of : GraphRun → String → State
output_of run sid = dict_or_empty (get_or (lookup sid run.step_outputs) null)

-- The outputs of the steps that are done, in the order of the steps.
unfoldable pub accumulate : GraphRun → List Step → State → State
accumulate run [] acc = acc
accumulate run (s ∷ ss) acc =
    accumulate run ss (if step_is_done run s then update acc (output_of run s.id) else acc)

unfoldable pub last_done : GraphRun → List Step → Option String
last_done run [] = none
last_done run (s ∷ ss) = or_else (last_done run ss) (if step_is_done run s then some s.id else none)

-- Internal keys of the stored state are added where the outputs did not give them.
unfoldable pub seed : (String × Value → Bool) → State → State → State
seed keeps [] acc = acc
seed keeps ((k, v) ∷ d) acc = seed keeps d (if keeps (k, v) then set_default k v acc else acc)

abbrev pub is_internal_value : String × Value → Bool
is_internal_value (k, v) = starts_with k "_" && not (is_none v)

abbrev pub request_only : GraphRun → State
request_only run = ("request", text run.user_request) ∷ []

-- What `YamlGraphRunner(definition, …)` makes of a raw definition, where it does not raise; its
-- graph is LangGraph's.
abbrev pub Build : Type 0
Build = State → Option Runner

unfoldable pub build_runner_for_recovery : Build → Dict Runner → GraphRun → Option Runner
build_runner_for_recovery build registry run = elim run.workflow_definition [
  | some definition ↦ or_else (build definition) (lookup run.graph_id registry)
  | none ↦ lookup run.graph_id registry
]

-- LangGraph's `aupdate_state(config, values, as_node)` on the thread of a run: the runner with the
-- new checkpoint, `none` where it raises.
abbrev pub Reseed : Type 0
Reseed = Runner → State → String → Option Runner
