-- ===== src/Workflows/Definitions.antt =====
-- The routes of app/api/routes/workflows.py that keep the workflow definitions, and `refresh_runner`
-- of app/core/container.py, which they call, without its cron triggers (Recovery/Schedule.antt).
pub mod Cycle
use langgraph_backend.Base.{String, Bool, true, false, Option, none, some, List, [], if◌then◌else◌}
use langgraph_backend.Base.Dict.{Dict, insert, remove}
use langgraph_backend.Value.{State}
use langgraph_backend.Mongo.{Collection}
use langgraph_backend.Definition.{WorkflowDefinition, to_raw_dict}
use langgraph_backend.Definition.Backend.{get, create, update, delete}
use langgraph_backend.Recovery.{Build}
use langgraph_backend.Approval.{
  Runner, HttpError, forbidden, not_found, conflict, internal, not_implemented, Response, ok, error,
}

-- The body of a request; an update takes its id from the path.
pub record DefinitionRequest : Type 0 where
  pub id : String
  pub name : String
  pub description : String
  pub steps : List State
  pub ui : State
  pub use_meta_llm : Bool

abbrev pub definition_of : DefinitionRequest → WorkflowDefinition
definition_of body = record {
  id = body.id;
  name = body.name;
  description = body.description;
  steps = body.steps;
  ui = body.ui;
  readonly = false;
  use_meta_llm = body.use_meta_llm;
}

module _ (mongo : Collection WorkflowDefinition) (build : Build) where
  -- The definitions, where a backend is configured, and the runners of the registry.
  pub record Catalog : Type 0 where
    pub workflow_backend : Option mongo.Store
    pub registry : Dict Runner

  -- The body of an answer; a deletion has none.
  abbrev pub Answer : Type 0
  Answer = Response (Option WorkflowDefinition) × Catalog

  -- `none` where the runner cannot be built.
  unfoldable pub refresh_runner : String → mongo.Store → Dict Runner → Option (Dict Runner)
  unfolding get to_raw_dict
  refresh_runner workflow_id s registry = elim (get mongo workflow_id s) [
    | none ↦ some (remove workflow_id registry)
    | some d ↦ elim (build (to_raw_dict d)) [
      | none ↦ none
      | some runner ↦ some (insert workflow_id runner registry)
    ]
  ]

  -- The definitions are written, then the runner is refreshed.
  unfoldable pub refreshed : Option WorkflowDefinition → String → mongo.Store → Dict Runner → Answer
  unfolding refresh_runner
  refreshed body workflow_id s registry = elim (refresh_runner workflow_id s registry) [
    | none ↦ (error internal, record { workflow_backend = some s; registry = registry })
    | some registry' ↦ (ok body, record { workflow_backend = some s; registry = registry' })
  ]

  unfoldable pub get_workflow : String → Catalog → Answer
  unfolding get
  get_workflow workflow_id c = elim c.workflow_backend [
    | none ↦ (error not_implemented, c)
    | some s ↦ elim (get mongo workflow_id s) [
      | none ↦ (error not_found, c)
      | some d ↦ (ok (some d), c)
    ]
  ]

  unfoldable pub create_workflow : DefinitionRequest → Catalog → Answer
  unfolding get create refreshed
  create_workflow body c = elim c.workflow_backend [
    | none ↦ (error not_implemented, c)
    | some s ↦ elim (get mongo body.id s) [
      | some existing ↦ (error conflict, c)
      | none ↦
          let d = definition_of body in refreshed (some d) body.id (create mongo d s) c.registry
    ]
  ]

  -- What `update_workflow` and `delete_workflow` share: the definition is there and may be changed.
  unfoldable pub change : (WorkflowDefinition → mongo.Store → Answer) → String → Catalog → Answer
  unfolding get
  change body workflow_id c = elim c.workflow_backend [
    | none ↦ (error not_implemented, c)
    | some s ↦ elim (get mongo workflow_id s) [
      | none ↦ (error not_found, c)
      | some existing ↦ if existing.readonly then (error forbidden, c) else body existing s
    ]
  ]

  unfoldable pub update_workflow : String → DefinitionRequest → Catalog → Answer
  unfolding change update refreshed
  update_workflow workflow_id body c =
      let d = definition_of (record body { id = workflow_id }) in
      change
        (λ existing s. refreshed (some d) workflow_id (update mongo workflow_id d s) c.registry)
        workflow_id c

  unfoldable pub delete_workflow : String → Catalog → Answer
  unfolding change delete refreshed
  delete_workflow workflow_id c =
      change (λ existing s. refreshed none workflow_id (delete mongo workflow_id s) c.registry)
        workflow_id c
