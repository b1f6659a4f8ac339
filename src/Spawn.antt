-- ===== src/Spawn.antt =====
-- The `workflow` node of app/infrastructure/orchestration/yaml_graph.py, which starts a run of
-- another workflow and goes on without waiting for it. `registry` is missing where it was not
-- injected; it gives the steps of a workflow.
pub mod Laws
use langgraph_backend.Base.{String, Option, none, some, List, [], ◌∷◌, map, get_or}
use langgraph_backend.Texts.{◌<>◌}
use langgraph_backend.Value.{text, State, record_of}
use langgraph_backend.GraphRun.{GraphRun, StepStatus, new_run}
use langgraph_backend.Mongo.{Collection}
use langgraph_backend.Mongo.Runs.{create}
use langgraph_backend.Step.{Step, Outcome}
use langgraph_backend.Node.{Render, one, error_record}

abbrev pub Registry : Type 0
Registry = Option (String → Option (List Step))

abbrev pub spawn_key : Step → String
spawn_key step = get_or step.output_key (step.id <> "_result")

-- The run of the child, with the id that was drawn for it.
unfoldable pub child_run : Render → String → Step → List Step → State → GraphRun
child_run render id step child_steps state =
    new_run id step.workflow_id (render step.input_template state)
      (map (λ s. (s.id, StepStatus.pending)) child_steps)

abbrev pub started_output : Step → String → Outcome
started_output step id = one (spawn_key step) (
    record_of (
      ("child_run_id", text id)
      ∷ ("workflow_id", text step.workflow_id)
      ∷ ("status", text "started")
      ∷ []))

module _ (mongo : Collection GraphRun) where
  open mongo use {Store}

  -- What the node returns, what is stored then, and the run that streams in the background.
  unfoldable pub workflow_node :
      Render → Registry → String → Step → State → Store → Outcome × Store × Option GraphRun
  unfolding child_run
  workflow_node render none id step state s =
      (one (spawn_key step) (error_record "workflow step not configured"), s, none)
  workflow_node render (some registry) id step state s = elim (registry step.workflow_id) [
    | none ↦ (
      one (spawn_key step) (error_record ("workflow '" <> step.workflow_id <> "' not found")),
      s,
      none,
    )
    | some child_steps ↦
        let child = child_run render id step child_steps state in
        elim (create mongo child s) [
          | none ↦ (one (spawn_key step) (error_record "duplicate key"), s, none)
          | some s' ↦ (started_output step id, s', some child)
        ]
  ]
