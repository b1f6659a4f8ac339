-- ===== src/Recovery/Cron.antt =====
-- The job of a cron step in app/core/container.py, `_make_cron_job`: a run that is started on
-- schedule and streamed to its first pause. An exception ends the job where it is raised.
use langgraph_backend.Base.{String, Option, none, some, List, [], ◌∷◌, if◌then◌else◌}
use langgraph_backend.Base.Dict.{Dict, lookup, insert, remove}
use langgraph_backend.Value.{text, State, record_of}
use langgraph_backend.Texts.{replace}
use langgraph_backend.GraphRun.{GraphRun, new_run, is_terminal}
use langgraph_backend.Mongo.{Collection}
use langgraph_backend.Mongo.Runs.{create}
use langgraph_backend.Definition.{WorkflowDefinition, to_raw_dict}
use langgraph_backend.Guards.{World}
use langgraph_backend.Recovery.{Build}
use langgraph_backend.Stream.{initial, Effect}
use langgraph_backend.Stream.Whole.{stream_graph_to_pause}
use langgraph_backend.Approval.{Runner, Container}
use langgraph_backend.Workflows.Tasks.{init_step_statuses}
use langgraph_backend.Stream.Notices.{Outlet}

-- The times of the start, as ISO text and as a date.
unfoldable pub scheduled_request : String → String → String → String
unfolding replace
scheduled_request now date template = replace "{date}" date (replace "{now}" now template)

-- The runner of the latest definition with its snapshot, or that of the registry where no backend is
-- configured; `none` where there is none, or it cannot be built.
unfoldable pub cron_runner :
    Build
    → Option (String → Option WorkflowDefinition)
    → String
    → Dict Runner
    → Option (Runner × Option State)
unfolding to_raw_dict
cron_runner build none workflow_id registry = elim (lookup workflow_id registry) [
  | none ↦ none
  | some runner ↦ some (runner, none)
]
cron_runner build (some definition_of) workflow_id registry = elim (definition_of workflow_id) [
  | none ↦ none
  | some d ↦ elim (build (to_raw_dict d)) [
    | none ↦ none
    | some runner ↦ some (runner, some (to_raw_dict d))
  ]
]

abbrev pub cron_run : String → String → String → Option State → GraphRun
cron_run thread_id workflow_id request snapshot =
    record (new_run thread_id workflow_id request []) { workflow_definition = snapshot }

abbrev pub trigger_state : String → String → State
trigger_state request now =
    ("request", text request)
    ∷ ("trigger_info", record_of (("triggered_at", text now) ∷ ("type", text "cron") ∷ []))
    ∷ []

module _ (mongo : Collection GraphRun) where
  -- The stream of a run that was stored, with every step pending.
  abbrev pub cron_world : Runner → GraphRun → mongo.Store → World mongo
  cron_world runner run runs = record {
    run = record run { step_statuses = init_step_statuses runner };
    stored = runs;
  }

  abbrev pub cron_stream :
      Outlet → String → Runner → GraphRun → mongo.Store → World mongo × List Effect
  cron_stream outlet now runner run runs =
      stream_graph_to_pause mongo outlet runner.steps runner.graph
        (initial (trigger_state run.user_request now)) runner.values (cron_world runner run runs)

  abbrev pub released : String → World mongo → Container mongo → Container mongo
  released thread_id w c = record c {
    runs = w.stored;
    live_runners =
        if is_terminal w.run.status then remove thread_id c.live_runners else c.live_runners;
  }

  -- The runner is live before the run is stored.
  unfoldable pub launch_cron :
      Outlet → String → Runner → GraphRun → Container mongo → Container mongo × List Effect
  unfolding stream_graph_to_pause
  launch_cron outlet now runner run c =
      let live = record c { live_runners = insert run.id runner c.live_runners } in
      elim (create mongo run c.runs) [
        | none ↦ (live, [])
        | some runs ↦
            let (w, effects) = cron_stream outlet now runner run runs in
            (released run.id w live, effects)
      ]

  unfoldable pub cron_job :
      Build
      → Option (String → Option WorkflowDefinition)
      → Outlet
      → String
      → String
      → String
      → String
      → String
      → Container mongo
      → Container mongo × List Effect
  unfolding cron_runner launch_cron
  cron_job build backend outlet thread_id now date workflow_id template c =
      elim (cron_runner build backend workflow_id c.registry) [
        | none ↦ (c, [])
        | some (runner, snapshot) ↦
            launch_cron outlet now runner
              (cron_run thread_id workflow_id (scheduled_request now date template) snapshot) c
      ]
