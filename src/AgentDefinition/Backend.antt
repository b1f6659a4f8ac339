-- ===== src/AgentDefinition/Backend.antt =====
-- `MongoAgentBackend` of app/infrastructure/persistence/agent_backend.py, which stores the
-- definitions of agents. A document is the definition itself: `_to_doc` and `_from_doc` only rename
-- `id` to `_id` and back.
use langgraph_backend.Base.{String, true, Option, List}
use langgraph_backend.Mongo.{Collection}
use langgraph_backend.AgentDefinition.{AgentDefinition}

module _ (mongo : Collection AgentDefinition) where
  open mongo use {Store}

  unfoldable pub list : Store → List AgentDefinition
  list = mongo.find (λ d. true)

  unfoldable pub get : String → Store → Option AgentDefinition
  get agent_id = mongo.find_one agent_id

  unfoldable pub create : AgentDefinition → Store → Store
  create d = mongo.replace_one d.id d

  unfoldable pub update : String → AgentDefinition → Store → Store
  update agent_id d = mongo.replace_one agent_id (record d { id = agent_id })

  unfoldable pub delete : String → Store → Store
  delete agent_id = mongo.delete_one agent_id
