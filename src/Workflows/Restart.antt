-- ===== src/Workflows/Restart.antt =====
-- `retry_run` and `restart_from_step` of app/api/routes/workflows.py: a run goes on behind the steps
-- that are done, or from a chosen step.
pub mod Statuses
pub mod Seeds
pub mod Runs
use langgraph_backend.Base.{
  String, Bool, true, false, not, Option, none, some, List, [], ◌∷◌, ◌==◌, ◌&&◌, ◌||◌,
  if◌then◌else◌, or_else, starts_with, any, is_some,
}
use langgraph_backend.Base.Dict.{Dict, lookup, insert, remove, set_default}
use langgraph_backend.Value.{Value, null, text, State}
use langgraph_backend.GraphRun.{GraphRun, Status, StepStatus}
use langgraph_backend.Mongo.{Collection}
use langgraph_backend.Mongo.Runs.{save}
use langgraph_backend.Step.{Step}
use langgraph_backend.Stream.{Input, initial, nothing, terminate_container}
use langgraph_backend.Recovery.{
  Build, Reseed, build_runner_for_recovery, accumulate, last_done, seed, is_internal_value,
  request_only, step_is_done, output_of,
}
use langgraph_backend.Approval.{
  Runner, HttpError, not_found, conflict, internal, Response, ok, error, Container,
}
use langgraph_backend.Workflows.Display.{has_failed}
use langgraph_backend.Workflows.Tasks.{Task, retry_graph}
use langgraph_backend.Workflows.Routes.{Reply, refused}

abbrev pub is_visit_counts : String → Bool
is_visit_counts k = k == "_visit_counts"

abbrev pub retry_keeps : String × Value → Bool
retry_keeps (k, v) = is_internal_value (k, v) && not (is_visit_counts k)

unfoldable pub retry_state : List Step → GraphRun → State
unfolding accumulate seed
retry_state steps run = seed retry_keeps run.state (accumulate run steps (request_only run))

-- The first failed step and all behind it are pending again.
unfoldable pub reset_failed : Bool → List Step → Dict StepStatus → Dict StepStatus
reset_failed found [] statuses = statuses
reset_failed found (s ∷ ss) statuses =
    let found' = found || has_failed (lookup s.id statuses) in
    reset_failed found' ss (if found' then insert s.id StepStatus.pending statuses else statuses)

unfoldable pub retried : List Step → GraphRun → GraphRun
unfolding retry_state reset_failed
retried steps run = record run {
  step_statuses = reset_failed false steps run.step_statuses;
  status = Status.running;
  current_step = none;
  state = retry_state steps run;
}

-- The steps ahead of the chosen one, and those from it on.
unfoldable pub steps_before : String → List Step → List Step
steps_before id [] = []
steps_before id (s ∷ ss) = let rest = steps_before id ss in if s.id == id then [] else s ∷ rest

unfoldable pub steps_from : String → List Step → List Step
steps_from id [] = []
steps_from id (s ∷ ss) = let rest = steps_from id ss in if s.id == id then s ∷ ss else rest

abbrev pub restart_keeps : String × Value → Bool
restart_keeps (k, v) = starts_with k "_" && not (is_visit_counts k)

abbrev pub not_counts : String × Value → Bool
not_counts (k, v) = not (is_visit_counts k)

-- What the done steps among `steps` add to the state.
unfoldable pub add_outputs : GraphRun → List Step → State → State
unfolding seed
add_outputs run [] acc = acc
add_outputs run (s ∷ ss) acc =
    add_outputs run ss
      (if step_is_done run s then seed not_counts (output_of run s.id) acc else acc)

-- Keys of one attempt, which would suppress the next attempt's notifications.
unfoldable pub drop_transient : State → State
drop_transient acc =
    remove "_pending_question"
      (remove "_slack_ask_context_channel" (remove "_slack_ask_context_ts" acc))

unfoldable pub restart_state : String → List Step → GraphRun → State
unfolding seed add_outputs drop_transient steps_before
restart_state id steps run =
    drop_transient
      (add_outputs run (steps_before id steps) (seed restart_keeps run.state (request_only run)))

abbrev pub reset_step : Step → GraphRun → GraphRun
reset_step s run = record run {
  step_statuses = insert s.id StepStatus.pending run.step_statuses;
  step_inputs = remove s.id run.step_inputs;
  step_outputs = remove s.id run.step_outputs;
}

unfoldable pub reset_steps : List Step → GraphRun → GraphRun
reset_steps [] run = run
reset_steps (s ∷ ss) run = reset_steps ss (reset_step s run)

unfoldable pub restarted : String → List Step → GraphRun → GraphRun
unfolding restart_state reset_steps steps_from
restarted id steps run = record (reset_steps (steps_from id steps) run) {
  current_step = none;
  agent_url = none;
  status = Status.running;
  state = restart_state id steps run;
}

-- The runner with the checkpoint set behind the last step that is done, and the input of the
-- stream; `none` where LangGraph refuses the checkpoint.
unfoldable pub resume_point : Reseed → Option String → State → Runner → Option (Runner × Input)
resume_point reseed none acc runner = some (runner, initial acc)
resume_point reseed (some id) acc runner = elim (reseed runner acc id) [
  | none ↦ none
  | some seeded ↦ some (seeded, nothing)
]

abbrev pub is_failed : Status → Bool
is_failed Status.failed = true
is_failed _ = false

-- status in ("cancelled", "rejected"), or "running"
abbrev pub refuses_restart : Status → Bool
refuses_restart Status.cancelled = true
refuses_restart Status.rejected = true
refuses_restart Status.running = true
refuses_restart _ = false

module _ (mongo : Collection GraphRun) (build : Build) (reseed : Reseed) where
  open mongo use {find_one}

  -- The runner of the stored run is live, and the stream is left to the task.
  abbrev pub relaunched : GraphRun → Runner → Input → Container mongo → Reply mongo
  relaunched run runner input c = record {
    response = ok run;
    container = record c { live_runners = insert run.id runner c.live_runners };
    task = some (retry_graph runner run input);
    effects = [];
  }

  -- `retry_run` of a failed run with a runner: the checkpoint is set before anything is stored.
  unfoldable pub retry_with : GraphRun → Runner → Container mongo → Reply mongo
  unfolding retried resume_point
  retry_with run runner c =
      elim (resume_point reseed (last_done run runner.steps) (retry_state runner.steps run)
        runner) [
          | none ↦ refused mongo internal c
          | some (seeded, input) ↦
              let run' = retried runner.steps run in
              relaunched run' seeded input (record c { runs = save mongo run' c.runs })
        ]

  unfoldable pub retry_run : String → Container mongo → Reply mongo
  unfolding retry_with
  retry_run run_id c = elim (find_one run_id c.runs) [
    | none ↦ refused mongo not_found c
    | some run ↦
        if is_failed run.status
        then (elim (build_runner_for_recovery build c.registry run) [
          | none ↦ refused mongo conflict c
          | some runner ↦ retry_with run runner c
        ])
        else refused mongo conflict c
  ]

  -- `restart_from_step` with a runner that has the step: the run is stored before the checkpoint is
  -- set.
  unfoldable pub restart_with : String → GraphRun → Runner → Container mongo → Reply mongo
  unfolding restarted resume_point steps_before
  restart_with id run runner c =
      let run' = restarted id runner.steps run in
      let stored = record c {
        runs = save mongo run' c.runs;
        live_runners = remove run.id c.live_runners;
      } in
      elim (resume_point reseed (last_done run (steps_before id runner.steps))
        (restart_state id runner.steps run) runner) [
          | none ↦ record {
            response = error internal;
            container = stored;
            task = none;
            effects = terminate_container run.id ∷ [];
          }
          | some (seeded, input) ↦ record (relaunched run' seeded input stored) {
            effects = terminate_container run.id ∷ [];
          }
        ]

  unfoldable pub restart_from_step : String → String → Container mongo → Reply mongo
  unfolding restart_with
  restart_from_step id run_id c = elim (find_one run_id c.runs) [
    | none ↦ refused mongo not_found c
    | some run ↦
        if refuses_restart run.status
        then refused mongo conflict c
        else (elim (build_runner_for_recovery build c.registry run) [
          | none ↦ refused mongo conflict c
          | some runner ↦
              if any (λ s. s.id == id) runner.steps
              then restart_with id run runner c
              else refused mongo conflict c
        ])
  ]
