-- ===== src/Spawn/Laws.antt =====
-- What a started child is.
use langgraph_backend.Base.{String, ◌≡◌, refl, Option, some, List, ◌==◌, if◌then◌else◌}
use langgraph_backend.Value.{State}
use langgraph_backend.GraphRun.{GraphRun, Status}
use langgraph_backend.Mongo.{Collection}
use langgraph_backend.Mongo.Runs.{create}
use langgraph_backend.Step.{Step}
use langgraph_backend.Node.{Render}
use langgraph_backend.Spawn.{child_run, workflow_node, started_output}

-- Where the registry knows the workflow and the drawn id is free, the child is stored under its id,
-- running, and streams in the background; the node answers that it started; and no other stored
-- run, the parent's included, changes.
pub workflow_node_starts :
    (mongo : Collection GraphRun) (render : Render) (registry : String → Option (List Step))
    (id : String) (step : Step) (state : State) (child_steps : List Step) (s s' : mongo.Store)
    (j : String)
    → registry step.workflow_id ≡ some child_steps
    → create mongo (child_run render id step child_steps state) s ≡ some s'
    → let child = child_run render id step child_steps state in
      (workflow_node mongo render (some registry) id step state s
        ≡ (started_output step id, s', some child))
      × (child.status ≡ Status.running)
      × (mongo.find_one j s' ≡ (if id == j then some child else mongo.find_one j s))
unfolding workflow_node child_run
workflow_node_starts mongo render registry id step state child_steps s s' j f c = (
  rw (f, workflow_node) (rw c refl),
  refl,
  mongo.find-insert id (child_run render id step child_steps state) s s' c j,
)
