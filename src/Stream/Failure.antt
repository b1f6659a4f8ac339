-- ===== src/Stream/Failure.antt =====
-- The `except` branch of `stream_graph_to_pause`: what a stream that raises leaves behind.
use langgraph_backend.Base.{
  String, Bool, Option, none, some, List, [], ◌∷◌, ◌++◌, if◌then◌else◌, get_or, starts_with, keep,
}
use langgraph_backend.Base.Dict.{Dict, lookup, insert, update, has_key}
use langgraph_backend.Value.{Value, null, text, State, truthy, get, record_of}
use langgraph_backend.GraphRun.{GraphRun, Status, StepStatus, is_running}
use langgraph_backend.Mongo.{Collection}
use langgraph_backend.Guards.{World, persist}
use langgraph_backend.Stream.{Effect, close_conversations, cleanup_pvc, cleanup_agents}
use langgraph_backend.Stream.Overlay.{merge_out_of_band_state}

-- next((sid for sid, st in step_statuses.items() if st == "running"), None)
unfoldable pub running_step : Dict StepStatus → Option String
running_step [] = none
running_step ((sid, st) ∷ d) = let rest = running_step d in if is_running st then some sid else rest

abbrev pub error_output : String → Value
error_output message = record_of (("error", text message) ∷ [])

-- A step that was running is shown as failed with the error.
unfoldable pub fail_running : String → String → State → GraphRun → GraphRun
fail_running message sid current run = record run {
  step_inputs = insert sid current run.step_inputs;
  step_statuses = insert sid StepStatus.failed run.step_statuses;
  step_outputs = insert sid (error_output message) run.step_outputs;
}

-- A step that captured its failure is shown as failed; an output that it has is kept.
unfoldable pub fail_captured : String → String → State → GraphRun → GraphRun
fail_captured message sid current run = record run {
  step_inputs = insert sid current run.step_inputs;
  step_statuses = insert sid StepStatus.failed run.step_statuses;
  step_outputs =
      if truthy (get_or (lookup sid run.step_outputs) null)
      then run.step_outputs
      else insert sid (error_output message) run.step_outputs;
}

abbrev pub captured_by : Value → State → GraphRun → String → GraphRun
captured_by (text sid) current run message =
    if has_key sid run.step_statuses then fail_captured message sid current run else run
captured_by _ current run message = run

-- The attribution of the failure to a step, where there is one.
unfoldable pub attribute : String → State → GraphRun → GraphRun
unfolding running_step fail_running fail_captured
attribute message current run = elim (running_step run.step_statuses) [
  | some sid ↦ fail_running message sid current run
  | none ↦ captured_by (get "__failed_step__" current) current run message
]

abbrev pub is_internal : String × Value → Bool
is_internal (k, v) = starts_with k "_"

-- {**current_state, **mid_run, **checkpoint, "error": error_msg}
unfoldable pub failed_state : String → State → State → State → State
failed_state message current mid_run checkpoint =
    insert "error" (text message) (update (update current (keep is_internal mid_run)) checkpoint)

abbrev pub stored_state : Option GraphRun → Option State
stored_state none = none
stored_state (some run) = some run.state

module _ (mongo : Collection GraphRun) where
  -- `checkpoint` is {} where the snapshot cannot be read.
  unfoldable pub failed_run : String → State → State → World mongo → GraphRun
  unfolding attribute failed_state
  failed_run message current checkpoint w =
      let run = attribute message current w.run in
      record run {
        status = Status.failed;
        state =
            merge_out_of_band_state (stored_state (mongo.find_one run.id w.stored))
              (failed_state message current run.state checkpoint);
        current_step = none;
      }

  -- The whole branch; `leases` tells whether there is a repository of PVC leases.
  unfoldable pub on_exception :
      Bool → String → State → State → World mongo → World mongo × List Effect
  unfolding failed_run
  on_exception leases message current checkpoint w = (
    persist mongo (failed_run message current checkpoint w) w,
    close_conversations current
        ∷ ((if leases then cleanup_pvc w.run.id ∷ [] else []) ++ cleanup_agents w.run.id ∷ []),
  )
