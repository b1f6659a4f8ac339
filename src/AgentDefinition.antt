-- ===== src/AgentDefinition.antt =====
-- app/domain/models/agent_addon.py and app/domain/models/agent_definition.py: the definition of an
-- agent and its addons, without timestamps.
pub mod Backend
pub mod Routes
use langgraph_backend.Base.{
  ℕ, String, Bool, Option, none, some, List, [], ◌∷◌, if◌then◌else◌, any, ◌==◌, ◌||◌,
}
use langgraph_backend.Base.Dict.{Dict}
use langgraph_backend.Value.{State}

pub data AgentAddon : Type 0 where
  -- each server, or tool, with whether it is enabled
  mcp tools : Dict Bool → AgentAddon
  -- a bucket and a path
  s3 : String → String → AgentAddon

pub record AgentDefinition : Type 0 where
  pub id : String
  pub name : String
  pub description : Option String
  pub default_runtime : String
  pub agent_input : State
  pub image : Option String
  pub health_timeout : ℕ
  pub helm_chart : Option String
  pub helm_values : State
  pub addons : List AgentAddon

-- Literal["local", "docker", "k8s"]
abbrev pub is_runtime : String → Bool
is_runtime s = s == "local" || s == "docker" || s == "k8s"

-- {name for name, enabled in d.items() if enabled}
unfoldable pub enabled_names : Dict Bool → List String
enabled_names [] = []
enabled_names ((name, enabled) ∷ d) =
    let rest = enabled_names d in if enabled then name ∷ rest else rest

-- name in names
abbrev pub is_in : String → List String → Bool
is_in name = any (λ n. n == name)

unfoldable pub mcp_addon : List AgentAddon → Option (Dict Bool)
mcp_addon [] = none
mcp_addon (AgentAddon.mcp servers ∷ addons) = some servers
mcp_addon (a ∷ addons) = mcp_addon addons

unfoldable pub s3_addon : List AgentAddon → Option (String × String)
s3_addon [] = none
s3_addon (AgentAddon.s3 bucket path ∷ addons) = some (bucket, path)
s3_addon (a ∷ addons) = s3_addon addons

unfoldable pub tools_addon : List AgentAddon → Option (Dict Bool)
tools_addon [] = none
tools_addon (AgentAddon.tools names ∷ addons) = some names
tools_addon (a ∷ addons) = tools_addon addons

-- The names that an addon enables; none without the addon.
unfoldable pub enabled_by : Option (Dict Bool) → List String
unfolding enabled_names
enabled_by none = []
enabled_by (some names) = enabled_names names
