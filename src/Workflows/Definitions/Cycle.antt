-- ===== src/Workflows/Definitions/Cycle.antt =====
-- The life of a workflow definition: it is created, read, and deleted.
use langgraph_backend.Base.{String, ◌≡◌, refl, true, none, some, arith, eq_iff}
use langgraph_backend.Base.Dict.{Dict, lookup, lookup-inserted}
use langgraph_backend.Mongo.{Collection}
use langgraph_backend.Definition.{WorkflowDefinition, to_raw_dict}
use langgraph_backend.Definition.Backend.{get, create}
use langgraph_backend.Recovery.{Build}
use langgraph_backend.Approval.{Runner, forbidden, ok, error}
use langgraph_backend.Workflows.Definitions.{
  DefinitionRequest, definition_of, Catalog, refresh_runner, refreshed, change, get_workflow,
  create_workflow, update_workflow, delete_workflow,
}

module _ (mongo : Collection WorkflowDefinition) (build : Build) where
  find-created :
      (d : WorkflowDefinition) (s : mongo.Store) → mongo.find_one d.id (create mongo d s) ≡ some d
  unfolding create
  find-created d s = ground (arith, mongo.find-replace d.id d s d.id, eq_iff d.id d.id)

  -- A definition with a new id, from which a runner can be built, is stored; reading it then gives it
  -- back, and the registry has its runner.
  pub create-get :
      (body : DefinitionRequest) (s : mongo.Store) (runner : Runner) (c : Catalog mongo build)
      → c.workflow_backend ≡ some s
      → mongo.find_one body.id s ≡ none
      → build (to_raw_dict (definition_of body)) ≡ some runner
      → let (response, c') = create_workflow mongo build body c in
        (response ≡ ok (some (definition_of body)))
        × ((get_workflow mongo build body.id c').0 ≡ ok (some (definition_of body)))
        × (lookup body.id c'.registry ≡ some runner)
  unfolding create_workflow get_workflow refreshed refresh_runner get
  create-get body s runner c b f r =
      let d = definition_of body in
      rw (b, create_workflow)
        (rw f (
          rw (find-created d s, refreshed, refresh_runner)
            (rw (r, refreshed, refresh_runner)
              (
                refl,
                rw (find-created d s, get_workflow) refl,
                lookup-inserted body.id runner c.registry,
              ))))

  -- A definition that is read-only is neither updated nor deleted: both are answered 403, and the
  -- definitions and the registry are as they were.
  pub readonly_kept :
      (workflow_id : String) (body : DefinitionRequest) (s : mongo.Store)
      (existing : WorkflowDefinition) (registry : Dict Runner)
      → mongo.find_one workflow_id s ≡ some existing
      → existing.readonly ≡ true
      → let c : Catalog mongo build = record { workflow_backend = some s; registry = registry } in
        (update_workflow mongo build workflow_id body c ≡ (error forbidden, c))
        × (delete_workflow mongo build workflow_id c ≡ (error forbidden, c))
  unfolding update_workflow delete_workflow change get
  readonly_kept workflow_id body s existing registry f r =
      (rw (f, update_workflow, change) (rw r refl), rw (f, delete_workflow, change) (rw r refl))
