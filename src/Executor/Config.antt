-- ===== src/Executor/Config.antt =====
-- `_build_agent_config` of app/steps/agent_executor.py: what an agent in a container is started with.
-- The texts of an agent's input and of the state (prompt, provider, project) are texts where they
-- are given.
pub mod Credentials
use langgraph_backend.Base.{
  String, Bool, true, false, not, Option, none, some, List, [], ◌∷◌, ◌++◌, ◌==◌, ◌&&◌,
  if◌then◌else◌, get_or, map,
}
use langgraph_backend.Base.Dict.{Dict, lookup, insert, remove, set_default}
use langgraph_backend.Texts.{◌<>◌, replace, strip, lstrip}
use langgraph_backend.Step.{text_or}
use langgraph_backend.Value.{Value, null, text, State, truthy, get}
use langgraph_backend.AgentDefinition.{
  AgentDefinition, is_in, mcp_addon, s3_addon, tools_addon, enabled_by,
}
use langgraph_backend.Executor.{AgentStep, Source, from_config, given, unset}

pub record McpIntegration : Type 0 where
  pub name : String
  pub transport : String
  pub command : String
  pub args : List String
  pub url : String
  pub api_key : String
  pub env : Dict String

-- What the configuration gives: "" where a text is not set.
pub record Settings : Type 0 where
  pub llm_provider : String
  -- the base URL and the name of the key's variable, of an integration
  pub get_llm_integration : String → Option (String × String)
  -- of each integration, the name of its key's variable and the key
  pub llm_keys : Dict String
  pub forwardable_config : Dict String
  pub mcp_integrations : List McpIntegration
  pub mcp_jira_jira_url : String
  pub mcp_jira_username : String
  pub mcp_jira_api_token : String
  pub mcp_github_api_key : String
  pub meta_llm_provider : String
  pub meta_llm_model : String

pub record AgentConfig : Type 0 where
  pub system_prompt : Value
  pub model : Value
  pub tools : Value
  pub mcp_servers : List McpIntegration
  pub credentials : Dict String
  pub tool_access : Dict Bool
  pub extra : State
  pub env_vars : Dict String
  pub expected_output_fields : List String

unfoldable pub compression_instructions : Dict String
compression_instructions =
    (
      "lite",
      "Be concise. Drop filler words (just/really/basically/actually/simply). Fragments OK. Skip pleasantries and hedging.",
    )
    ∷ (
      "full",
      "Respond terse like a smart caveman. Drop: articles (a/an/the), filler words, pleasantries, hedging. Fragments OK. Use short synonyms (big not extensive, fix not 'implement a solution for'). Technical terms exact. Code blocks unchanged. Pattern: [thing] [action] [reason]. [next step].",
    )
    ∷ (
      "ultra",
      "Maximum compression. Single words / symbols where possible. No articles, no filler, no fluff. Abbreviate freely. Code blocks exact and unchanged.",
    )
    ∷ []

unfoldable pub known_tools : List String
known_tools = "github" ∷ "jira" ∷ "graphify" ∷ []

unfoldable pub tool_credential_keys : Dict (List String)
tool_credential_keys =
    ("github", "MCP_GITHUB_API_KEY" ∷ "GITHUB_TOKEN" ∷ [])
    ∷ ("jira", "MCP_JIRA_API_TOKEN" ∷ "JIRA_API_TOKEN" ∷ "JIRA_URL" ∷ "JIRA_USERNAME" ∷ [])
    ∷ []

abbrev pub text_of : Value → String
text_of (text s) = s
text_of _ = ""

-- extra["llm_base_url"] and extra["llm_api_key_env"]
abbrev pub with_provider : Settings → String → State → State
with_provider settings name extra =
    if name == "" then extra else elim (settings.get_llm_integration name) [
      | none ↦ extra
      | some (base_url, key_env) ↦
          insert "llm_api_key_env" (text key_env) (insert "llm_base_url" (text base_url) extra)
    ]

abbrev pub with_s3 : Option (String × String) → String → State → State → State
with_s3 none run_id state extra = extra
with_s3 (some (bucket, path)) run_id state extra =
    insert "s3_path"
      (text (
        replace "{project_id}" (text_of (get "project_id" state))
          (replace "{workflow_id}" run_id path)))
      (insert "s3_bucket" (text bucket) extra)

unfoldable pub extra_of : Settings → AgentDefinition → String → State → State
unfolding s3_addon replace
extra_of settings def run_id state =
    let provider =
      text_or (some (text_of (get "llm_provider" def.agent_input))) settings.llm_provider in
    with_s3 (s3_addon def.addons) run_id state (with_provider settings provider def.agent_input)

-- `prefix` before a prompt, which may be missing.
abbrev pub prefixed : String → Value → Value
prefixed prefix prompt =
    if prefix == ""
    then prompt
    else if truthy prompt
    then text (prefix <> ("\n\n" <> text_of prompt))
    else text prefix

unfoldable pub field_lines : List String → String
field_lines [] = ""
field_lines (k ∷ []) = "- " <> k
field_lines (k ∷ j ∷ ks) = "- " <> (k <> ("\n" <> field_lines (j ∷ ks)))

abbrev pub protocol : List String → String
protocol keys =
    "\n\n## Output Protocol\n\nYour output MUST include these fields (YAML or JSON — the orchestrator extracts either format):\n\n"
    <> field_lines keys

-- The output protocol behind a prompt, where the step expects fields.
abbrev pub with_protocol : List String → Value → Value
with_protocol [] prompt = prompt
with_protocol (k ∷ ks) prompt =
    if truthy prompt
    then text (text_of prompt <> protocol (k ∷ ks))
    else text (lstrip (protocol (k ∷ ks)))

-- The instruction of the compression level, then the agent's prompt, then the output protocol.
unfoldable pub system_prompt_of : AgentStep → AgentDefinition → Value
unfolding field_lines compression_instructions
system_prompt_of step def =
    let level =
      text_or step.compression_level (text_of (get "compression_level" def.agent_input)) in
    with_protocol (map (λ kv. kv.0) step.output_mapping) (
      prefixed (get_or (lookup level compression_instructions) "")
        (get "system_prompt" def.agent_input))

-- The servers that the MCP addon enables; none without the addon.
unfoldable pub enabled_mcp : List String → List McpIntegration → List McpIntegration
enabled_mcp names [] = []
enabled_mcp names (m ∷ ms) =
    let rest = enabled_mcp names ms in if is_in m.name names then m ∷ rest else rest

-- The keys of the LLM integrations that are set, then what else may be forwarded.
unfoldable pub add_llm_keys : Dict String → Dict String → Dict String
add_llm_keys [] creds = creds
add_llm_keys ((env, key) ∷ keys) creds =
    add_llm_keys keys (if key == "" then creds else insert env key creds)

unfoldable pub add_missing : Dict String → Dict String → Dict String
add_missing [] creds = creds
add_missing ((name, v) ∷ config) creds = add_missing config (set_default name v creds)

unfoldable pub resolved_credentials : Settings → Dict String
unfolding add_llm_keys add_missing
resolved_credentials settings =
    add_missing settings.forwardable_config (add_llm_keys settings.llm_keys [])

unfoldable pub remove_all : List String → Dict String → Dict String
remove_all [] creds = creds
remove_all (k ∷ ks) creds = remove_all ks (remove k creds)

-- The credentials of the tools that are not enabled are taken out.
unfoldable pub gate_tools : List String → Dict (List String) → Dict String → Dict String
unfolding remove_all
gate_tools enabled [] creds = creds
gate_tools enabled ((tool, keys) ∷ tools) creds =
    gate_tools enabled tools (if is_in tool enabled then creds else remove_all keys creds)

-- if val and not credentials.get(key): credentials[key] = val
abbrev pub fill : String → String → Dict String → Dict String
fill key val creds =
    if not (val == "") && get_or (lookup key creds) "" == "" then insert key val creds else creds

abbrev pub fill_jira : Settings → Dict String → Dict String
fill_jira settings creds = fill "JIRA_API_TOKEN" settings.mcp_jira_api_token (
    fill "JIRA_USERNAME" settings.mcp_jira_username
      (fill "JIRA_URL" settings.mcp_jira_jira_url creds))

abbrev pub fill_github : Settings → Dict String → Dict String
fill_github settings creds = fill "GITHUB_TOKEN" settings.mcp_github_api_key creds

-- An enabled tool gets its full set.
unfoldable pub complete_tools : Settings → List String → Dict String → Dict String
complete_tools settings enabled creds =
    let with_jira = if is_in "jira" enabled then fill_jira settings creds else creds in
    if is_in "github" enabled then fill_github settings with_jira else with_jira

unfoldable pub credentials_of : Settings → List String → Dict String
unfolding resolved_credentials gate_tools complete_tools tool_credential_keys
credentials_of settings enabled =
    complete_tools settings enabled
      (gate_tools enabled tool_credential_keys (resolved_credentials settings))

abbrev pub add_env : Dict String → String → Source → Dict String → Dict String
add_env config name (from_config key) env =
    let v = get_or (lookup key config) "" in if v == "" then env else insert name v env
add_env config name (given v) env = insert name v env
add_env config name unset env = env

unfoldable pub step_env : Dict String → List (String × Source) → Dict String → Dict String
unfolding strip
step_env config [] env = env
step_env config ((raw, source) ∷ entries) env =
    let name = strip raw in
    step_env config entries (if name == "" then env else add_env config name source env)

abbrev pub set_if_given : String → String → Dict String → Dict String
set_if_given name v env = if v == "" then env else insert name v env

unfoldable pub env_vars_of : Settings → AgentStep → Dict String
unfolding step_env
env_vars_of settings step = set_if_given "META_LLM_MODEL" settings.meta_llm_model (
    set_if_given "META_LLM_PROVIDER" settings.meta_llm_provider
      (step_env settings.forwardable_config step.env_vars []))

unfoldable pub build_agent_config :
    Settings → AgentDefinition → AgentStep → String → State → AgentConfig
unfolding system_prompt_of extra_of enabled_mcp credentials_of env_vars_of known_tools
build_agent_config settings def step run_id state =
    let enabled = enabled_by (tools_addon def.addons) in
    record {
      system_prompt = system_prompt_of step def;
      model = get "model" def.agent_input;
      tools = get "tools" def.agent_input;
      mcp_servers = enabled_mcp (enabled_by (mcp_addon def.addons)) settings.mcp_integrations;
      credentials = credentials_of settings enabled;
      tool_access = map (λ tool. (tool, is_in tool enabled)) known_tools;
      extra = extra_of settings def run_id state;
      env_vars = env_vars_of settings step;
      expected_output_fields = map (λ kv. kv.0) step.output_mapping;
    }
