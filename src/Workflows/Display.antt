-- ===== src/Workflows/Display.antt =====
-- How app/api/routes/workflows.py shows a run: its steps, and what it waits for.
pub mod Hidden
use langgraph_backend.Base.{
  String, Bool, true, false, not, Option, none, some, List, [], ◌∷◌, ◌==◌, if◌then◌else◌, get_or,
  or_else, starts_with, keep, map,
}
use langgraph_backend.Base.Dict.{Dict, lookup}
use langgraph_backend.Value.{
  Value, null, object, array, State, entries, elements, truthy, get, dict_or_empty,
}
use langgraph_backend.GraphRun.{GraphRun, Status, StepStatus}
use langgraph_backend.Stream.Settle.{Snapshot}

-- What the display reads of a step's raw definition.
pub record RawStep : Type 0 where
  pub id : String
  pub type : Option String
  pub name : Option String

pub record StepView : Type 0 where
  pub id : String
  pub type : String
  pub name : String
  pub status : StepStatus
  pub input : Option State
  pub output : Option State
  pub summary : Value
  pub error : Value

unfoldable pub step_type_map : Dict String
step_type_map =
    ("llm_structured", "llm")
    ∷ ("llm", "llm")
    ∷ ("mcp", "fetch")
    ∷ ("human_approval", "approval")
    ∷ ("execute", "execute")
    ∷ ("workflow", "workflow")
    ∷ ("cron", "cron")
    ∷ ("http", "http")
    ∷ ("langgraph-agent", "agent")
    ∷ ("claude-agent", "agent")
    ∷ []

abbrev pub shown_type : Option String → String
shown_type type = let t = get_or type "llm" in get_or (lookup t step_type_map) t

-- a or b
abbrev pub value_or : Value → Value → Value
value_or a b = if truthy a then a else b

abbrev pub has_failed : Option StepStatus → Bool
has_failed (some StepStatus.failed) = true
has_failed _ = false

abbrev pub is_failed_run : Status → Bool
is_failed_run Status.failed = true
is_failed_run _ = false

abbrev pub run_error : GraphRun → Value
run_error run = if is_failed_run run.status then get "error" run.state else null

abbrev pub is_shown : String × Value → Bool
is_shown (k, v) = not (starts_with k "__")

abbrev pub non_empty_dict : State → Option State
non_empty_dict [] = none
non_empty_dict (kv ∷ d) = some (kv ∷ d)

-- The stored output of a step; the output of a node is a dict.
abbrev pub output_of : String → GraphRun → State
output_of sid run = dict_or_empty (get_or (lookup sid run.step_outputs) null)

abbrev pub step_error : State → GraphRun → Value
step_error out run =
    value_or (value_or (get "_meta_llm_rejection" out) (get "error" out)) (run_error run)

unfoldable pub build_step : GraphRun → RawStep → StepView
build_step run s =
    let out = output_of s.id run in
    record {
      id = s.id;
      type = shown_type s.type;
      name = get_or s.name s.id;
      status = get_or (lookup s.id run.step_statuses) StepStatus.pending;
      input = lookup s.id run.step_inputs;
      output = non_empty_dict (keep is_shown out);
      summary = get "summary" out;
      error = if has_failed (lookup s.id run.step_statuses) then step_error out run else null;
    }

unfoldable pub build_steps : List RawStep → GraphRun → List StepView
unfolding build_step
build_steps raw_steps run = map (build_step run) raw_steps

-- The value of the first interrupt that is a dict.
unfoldable pub first_dict : List Value → Option State
first_dict [] = none
first_dict (object fs ∷ vs) = some (entries fs)
first_dict (v ∷ vs) = first_dict vs

-- The first item of the shown chunk that is a dict with a dict as its value.
unfoldable pub chunk_payload : List Value → Option State
chunk_payload [] = none
chunk_payload (object fs ∷ vs) = elim (get "value" (entries fs)) [
  | object payload ↦ some (entries payload)
  | _ ↦ chunk_payload vs
]
chunk_payload (v ∷ vs) = chunk_payload vs

abbrev pub stored_payload : GraphRun → Option State
unfolding chunk_payload
stored_payload run = elim (lookup "__interrupt__" run.step_outputs) [
  | some (array vs) ↦ chunk_payload (elements vs)
  | _ ↦ none
]

unfoldable pub task_payload : List (List Value) → Option State
unfolding first_dict
task_payload [] = none
task_payload (intrs ∷ tasks) = or_else (first_dict intrs) (task_payload tasks)

abbrev pub snapshot_payload : Option Snapshot → Option State
unfolding task_payload first_dict
snapshot_payload none = none
snapshot_payload (some snap) = or_else (task_payload snap.tasks) (first_dict snap.interrupts)

abbrev pub is_waiting : Status → Bool
is_waiting Status.waiting_approval = true
is_waiting Status.waiting_agent = true
is_waiting _ = false

-- `_get_interrupt_payload`; the snapshot is `none` without a runner or where it cannot be read.
unfoldable pub get_interrupt_payload : Option Snapshot → GraphRun → State
unfolding task_payload
get_interrupt_payload snap run =
    if is_waiting run.status
    then get_or (or_else (stored_payload run) (snapshot_payload snap)) []
    else []
