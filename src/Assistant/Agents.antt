-- ===== src/Assistant/Agents.antt =====
-- The tools of app/infrastructure/orchestration/default_workflow.py on the definitions of agents.
use langgraph_backend.Base.{
  String, Option, none, some, [], ◌∷◌, ◌==◌, if◌then◌else◌, map, get_or, or_else,
}
use langgraph_backend.Value.{State}
use langgraph_backend.Texts.{◌<>◌, joined}
use langgraph_backend.Mongo.{Collection}
use langgraph_backend.AgentDefinition.{AgentDefinition, is_runtime}
use langgraph_backend.AgentDefinition.Backend.{list, get, create, update, delete}
use langgraph_backend.Executor.Judge.{Cases}
use langgraph_backend.Assistant.{Entry, Resolved, resolved, unresolved, resolve_id, no_agent}
use langgraph_backend.Assistant.Workflows.{quoted}

-- `json.loads` of an agent's input: the text of its error, a value that is no object, or an object.
pub data InputJson : Type 0 where
  invalid : String → InputJson
  no_object : InputJson
  input : State → InputJson

pub data AgentReply : Type 0 where
  told : String → AgentReply
  shown : AgentDefinition → AgentReply

abbrev pub bad_runtime : String → String
bad_runtime s = quoted "Invalid default_runtime " s ". Must be one of: local, docker, k8s."

abbrev pub entry_of : AgentDefinition → Entry
entry_of a = record { id = a.id; name = a.name }

-- `a.description or "(no description)"`
abbrev pub description_of : AgentDefinition → String
description_of a = let s = get_or a.description "" in if s == "" then "(no description)" else s

abbrev pub agent_line : AgentDefinition → String
agent_line a = "- **" <> (a.id <> ("** (" <> (a.name <> ("): " <> description_of a))))

abbrev pub new_agent : String → String → String → String → State → AgentDefinition
new_agent agent_id name description default_runtime agent_input = record {
  id = agent_id;
  name = name;
  description = some description;
  default_runtime = default_runtime;
  agent_input = agent_input;
  image = none;
  health_timeout = 300;
  helm_chart = none;
  helm_values = [];
  addons = [];
}

-- What an update gives; `none` keeps.
pub record AgentChange : Type 0 where
  pub name : Option String
  pub description : Option String
  pub default_runtime : Option String
  pub agent_input : Option InputJson

-- The changed definition, or the message of the first argument that is refused.
pub data Changed : Type 0 where
  changed : AgentDefinition → Changed
  refused : String → Changed

abbrev pub with_input : Option InputJson → AgentDefinition → Changed
with_input none a = changed a
with_input (some (invalid message)) a = refused ("Invalid agent_input_json: " <> message)
with_input (some no_object) a = refused "agent_input_json must be a JSON object."
with_input (some (input d)) a = changed (record a { agent_input = d })

unfoldable pub changed_agent : AgentChange → AgentDefinition → Changed
changed_agent change a =
    let named = record a {
      name = get_or change.name a.name;
      description = or_else change.description a.description;
    } in
    elim change.default_runtime [
      | none ↦ with_input change.agent_input named
      | some runtime ↦
          if is_runtime runtime
          then with_input change.agent_input (record named { default_runtime = runtime })
          else refused (bad_runtime runtime)
    ]

module _ (mongo : Collection AgentDefinition) (python : Cases) where
  open mongo use {Store}

  -- The agents, where a backend is configured, with what the tool answers.
  abbrev pub Told : Type 0
  Told = AgentReply × Option Store

  abbrev pub unconfigured : Told
  unconfigured = (told "Agent backend not configured.", none)

  unfoldable pub resolve_agent_id : String → Store → Resolved
  unfolding list resolve_id
  resolve_agent_id query s =
      let entries = map entry_of (list mongo s) in
      resolve_id python (no_agent query entries) query entries

  unfoldable pub list_agents : Option Store → Told
  unfolding list joined
  list_agents none = unconfigured
  list_agents (some s) = elim (list mongo s) [
    | [] ↦ (told "No agents found.", some s)
    | a ∷ agents ↦ (told (joined "\n" (map agent_line (a ∷ agents))), some s)
  ]

  unfoldable pub get_agent : String → Option Store → Told
  unfolding resolve_agent_id get
  get_agent query none = unconfigured
  get_agent query (some s) = elim (resolve_agent_id query s) [
    | unresolved message ↦ (told message, some s)
    | resolved id ↦ elim (get mongo id s) [
      | none ↦ (told (quoted "Agent " id " not found."), some s)
      | some a ↦ (shown a, some s)
    ]
  ]

  unfoldable pub create_agent : String → String → String → String → InputJson → Option Store → Told
  unfolding get create
  create_agent agent_id name description default_runtime json none = unconfigured
  create_agent agent_id name description default_runtime json (some s) = elim json [
    | invalid message ↦ (told ("Invalid agent_input_json: " <> message), some s)
    | no_object ↦ (told "agent_input_json must be a JSON object.", some s)
    | input d ↦
        if is_runtime default_runtime
        then (elim (get mongo agent_id s) [
          | some a ↦ (
            told (quoted "Agent " agent_id " already exists. Use update_agent to modify it."),
            some s,
          )
          | none ↦ (
            told (quoted "Agent " agent_id " created."),
            some (create mongo (new_agent agent_id name description default_runtime d) s),
          )
        ])
        else (told (bad_runtime default_runtime), some s)
  ]

  unfoldable pub update_agent : String → AgentChange → Option Store → Told
  unfolding resolve_agent_id get update changed_agent
  update_agent query change none = unconfigured
  update_agent query change (some s) = elim (resolve_agent_id query s) [
    | unresolved message ↦ (told message, some s)
    | resolved id ↦ elim (get mongo id s) [
      | none ↦ (told (quoted "Agent " id " not found."), some s)
      | some a ↦ elim (changed_agent change a) [
        | refused message ↦ (told message, some s)
        | changed b ↦ (told (quoted "Agent " id " updated."), some (update mongo id b s))
      ]
    ]
  ]

  unfoldable pub delete_agent : String → Option Store → Told
  unfolding get delete
  delete_agent agent_id none = unconfigured
  delete_agent agent_id (some s) = elim (get mongo agent_id s) [
    | none ↦ (
      told (quoted "Agent " agent_id " not found. Use list_agents to see available agents."),
      some s,
    )
    | some a ↦ (told (quoted "Agent " agent_id " deleted."), some (delete mongo agent_id s))
  ]
