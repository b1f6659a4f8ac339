-- ===== src/Definition/Backend.antt =====
-- `MongoWorkflowBackend` of app/infrastructure/persistence/workflow_backend.py, which stores the
-- workflow definitions. A document is the definition itself: `_to_doc` and `_from_doc` only rename
-- `id` to `_id` and back.
use langgraph_backend.Base.{String, true, Option, List}
use langgraph_backend.Mongo.{Collection}
use langgraph_backend.Definition.{WorkflowDefinition}

module _ (mongo : Collection WorkflowDefinition) where
  open mongo use {Store}

  unfoldable pub list : Store → List WorkflowDefinition
  list = mongo.find (λ d. true)

  unfoldable pub get : String → Store → Option WorkflowDefinition
  get workflow_id = mongo.find_one workflow_id

  unfoldable pub create : WorkflowDefinition → Store → Store
  create d = mongo.replace_one d.id d

  unfoldable pub update : String → WorkflowDefinition → Store → Store
  update workflow_id d = mongo.replace_one workflow_id (record d { id = workflow_id })

  unfoldable pub delete : String → Store → Store
  delete workflow_id = mongo.delete_one workflow_id
