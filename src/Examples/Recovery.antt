-- ===== src/Examples/Recovery.antt =====
-- The recovery, the watcher, and the definitions of workflows on concrete collections.
use langgraph_backend.Base.{◌≡◌, refl, true, false, none, some, [], ◌∷◌}
use langgraph_backend.Base.Dict.{lookup}
use langgraph_backend.Mongo.{Collection}
use langgraph_backend.Mongo.Memory.{memory}
use langgraph_backend.Definition.{WorkflowDefinition}
use langgraph_backend.Approval.{Runner, Container, ok}
use langgraph_backend.Recovery.{Build, Reseed}
use langgraph_backend.Recovery.Startup.{Outside, recover_run}
use langgraph_backend.Recovery.Startup.Settled.{is_settled, recover_run_settles}
use langgraph_backend.Recovery.Watch.{watch_waiting_agents, watch_spares}
use langgraph_backend.Workflows.Definitions.{
  DefinitionRequest, definition_of, Catalog, get_workflow, create_workflow,
}
use langgraph_backend.Workflows.Definitions.Cycle.{create-get}
use langgraph_backend.Examples.{db, steps, draft_state, pausing, waiting_run, holding}
use langgraph_backend.Examples.Workflows.{holding-IsKeyed}

abbrev pub runner : Runner
runner = record { steps = steps; graph = pausing; values = draft_state }

abbrev pub make_runner : Build
make_runner definition = some runner

abbrev refuse : Reseed
refuse r values as_node = none

abbrev down : Outside
down = record { is_alive = λ url. false; snapshot = λ id. none; refires = λ r input. false }

abbrev pub container : Container db
container = record { runs = holding waiting_run; live_runners = []; registry = ("wf", runner) ∷ [] }

recover_run_settles_example :
    is_settled db make_runner refuse down waiting_run
      (recover_run db make_runner refuse down waiting_run container).container
    ≡ true
recover_run_settles_example = recover_run_settles db make_runner refuse down waiting_run container

watch_spares_example :
    db.find_one "run-1" (watch_waiting_agents db (λ url. false) (holding waiting_run))
    ≡ some waiting_run
unfolding memory holding lookup
watch_spares_example =
    watch_spares db (λ url. false) "run-1" waiting_run (holding waiting_run)
      (holding-IsKeyed waiting_run) refl refl

abbrev definitions : Collection WorkflowDefinition
definitions = memory WorkflowDefinition

abbrev body : DefinitionRequest
body = record {
  id = "wf-2";
  name = "Fix";
  description = "";
  steps = [];
  ui = [];
  use_meta_llm = true;
}

unfoldable empty : definitions.Store
unfolding memory
empty = []

abbrev catalog : Catalog definitions make_runner
catalog = record { workflow_backend = some empty; registry = [] }

create-get_example :
    let (response, c') = create_workflow definitions make_runner body catalog in
    (response ≡ ok (some (definition_of body)))
    × ((get_workflow definitions make_runner "wf-2" c').0 ≡ ok (some (definition_of body)))
    × (lookup "wf-2" c'.registry ≡ some runner)
unfolding memory empty lookup
create-get_example = create-get definitions make_runner body empty runner catalog refl refl refl
