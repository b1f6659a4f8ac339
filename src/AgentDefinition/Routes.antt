-- ===== src/AgentDefinition/Routes.antt =====
-- app/api/routes/agents.py: the routes on the definitions of agents. Files has those on the files of
-- their S3 addons.
pub mod Files
pub mod Update
use langgraph_backend.Base.{
  String, ◌≡◌, refl, true, not, Option, none, some, List, [], ◌==◌, ◌||◌, if◌then◌else◌, get_or,
  starts_with, arith, eq_iff,
}
use langgraph_backend.Base.Dict.{lookup}
use langgraph_backend.Value.{text, State}
use langgraph_backend.Texts.{replace, strip}
use langgraph_backend.GraphRun.{GraphRun}
use langgraph_backend.Mongo.{Collection}
use langgraph_backend.AgentDefinition.{AgentDefinition, AgentAddon, is_runtime, s3_addon}
use langgraph_backend.AgentDefinition.Backend.{list, get, create, update, delete}
use langgraph_backend.Approval.{
  bad_request, not_found, conflict, internal, not_implemented, Response, ok, error,
}

-- The body of a request; `addons` is none where they are omitted, which a creation reads as [].
pub record AgentRequest : Type 0 where
  pub id : String
  pub name : String
  pub description : Option String
  pub default_runtime : String
  pub agent_input : State
  pub image : Option String
  pub helm_chart : Option String
  pub helm_values : State
  pub addons : Option (List State)

-- pydantic's validation of addons; `none` where it raises.
abbrev pub Validate : Type 0
Validate = List State → Option (List AgentAddon)

-- The model refuses an unknown runtime. The time for health checks is its default, 300 seconds.
unfoldable pub agent_of : String → AgentRequest → List AgentAddon → Option AgentDefinition
agent_of agent_id body addons =
    if is_runtime body.default_runtime
    then some record {
      id = agent_id;
      name = body.name;
      description = body.description;
      default_runtime = body.default_runtime;
      agent_input = body.agent_input;
      image = body.image;
      health_timeout = 300;
      helm_chart = body.helm_chart;
      helm_values = body.helm_values;
      addons = addons;
    }
    else none

module _ (mongo : Collection AgentDefinition) (validate : Validate) where
  open mongo use {Store, find_one}

  -- The body of an answer, and the agents, where a backend is configured.
  abbrev pub Answer : Type 0
  Answer = Response AgentDefinition × Option Store

  unfoldable pub list_agents : Option Store → Response (List AgentDefinition)
  unfolding list
  list_agents none = error not_implemented
  list_agents (some s) = ok (list mongo s)

  unfoldable pub get_agent : String → Option Store → Answer
  unfolding get
  get_agent agent_id none = (error not_implemented, none)
  get_agent agent_id (some s) = elim (get mongo agent_id s) [
    | none ↦ (error not_found, some s)
    | some d ↦ (ok d, some s)
  ]

  -- A definition that was validated is stored; an exception is a 500.
  abbrev pub stored : (AgentDefinition → Store) → Option AgentDefinition → Store → Answer
  stored put none s = (error internal, some s)
  stored put (some d) s = (ok d, some (put d))

  abbrev pub validated : String → AgentRequest → Option (List AgentAddon) → Option AgentDefinition
  validated agent_id body none = none
  validated agent_id body (some addons) = agent_of agent_id body addons

  unfoldable pub create_agent : AgentRequest → Option Store → Answer
  unfolding get create agent_of
  create_agent body none = (error not_implemented, none)
  create_agent body (some s) = elim (get mongo body.id s) [
    | some d ↦ (error conflict, some s)
    | none ↦
        stored (λ d. create mongo d s) (validated body.id body (validate (get_or body.addons []))) s
  ]

  -- Addons that are omitted are those of before.
  abbrev pub kept_addons : AgentDefinition → AgentRequest → Option (List AgentAddon)
  kept_addons existing body = elim body.addons [
    | none ↦ some existing.addons
    | some addons ↦ validate addons
  ]

  unfoldable pub update_agent : String → AgentRequest → Option Store → Answer
  unfolding get update agent_of
  update_agent agent_id body none = (error not_implemented, none)
  update_agent agent_id body (some s) = elim (get mongo agent_id s) [
    | none ↦ (error not_found, some s)
    | some existing ↦
        stored (λ d. update mongo agent_id d s)
          (validated agent_id body (kept_addons existing body)) s
  ]

  unfoldable pub delete_agent : String → Option Store → Response {0} Unit × Option Store
  unfolding get delete
  delete_agent agent_id none = (error not_implemented, none)
  delete_agent agent_id (some s) = elim (get mongo agent_id s) [
    | none ↦ (error not_found, some s)
    | some d ↦ (ok tt, some (delete mongo agent_id s))
  ]

  unfoldable pub get_agent_addons : String → Option Store → Response (List AgentAddon)
  unfolding get
  get_agent_addons agent_id none = error not_implemented
  get_agent_addons agent_id (some s) = elim (get mongo agent_id s) [
    | none ↦ error not_found
    | some d ↦ ok d.addons
  ]

  unfoldable pub update_agent_addons : String → List State → Option Store → Answer
  unfolding get update
  update_agent_addons agent_id addons none = (error not_implemented, none)
  update_agent_addons agent_id addons (some s) = elim (get mongo agent_id s) [
    | none ↦ (error not_found, some s)
    | some existing ↦ elim (validate addons) [
      | none ↦ (error internal, some s)
      | some valid ↦
          let d = record existing { id = agent_id; addons = valid } in
          (ok d, some (update mongo agent_id d s))
    ]
  ]
