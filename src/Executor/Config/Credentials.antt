-- ===== src/Executor/Config/Credentials.antt =====
-- Which credentials an agent is started with.
use langgraph_backend.Base.{
  String, ◌≡◌, refl, ◌∙◌, Bool, true, false, not, Option, none, List, [], ◌∷◌, ◌==◌, ◌&&◌, ◌||◌,
  if◌then◌else◌, arith, eq_iff, Bool-cases, inl, inr,
}
use langgraph_backend.Base.Dict.{Dict, lookup, remove, lookup-insert, lookup-remove}
use langgraph_backend.Value.{State}
use langgraph_backend.AgentDefinition.{AgentDefinition, is_in, enabled_by, tools_addon}
use langgraph_backend.Executor.{AgentStep}
use langgraph_backend.Executor.Config.{
  Settings, tool_credential_keys, resolved_credentials, remove_all, gate_tools, fill, fill_jira,
  fill_github, complete_tools, credentials_of, build_agent_config,
}

lookup-remove_all :
    (ks : List String) (k : String) (creds : Dict String)
    → lookup k (remove_all ks creds) ≡ (if is_in k ks then none else lookup k creds)
unfolding remove_all
lookup-remove_all [] k creds = refl
lookup-remove_all (j ∷ ks) k creds =
    ground (arith, lookup-remove_all ks k (remove j creds), lookup-remove j k creds)

lookup-fill :
    (key val k : String) (creds : Dict String)
    → (key == k) ≡ false
    → lookup k (fill key val creds) ≡ lookup k creds
lookup-fill key val k creds h = ground (arith, lookup-insert key k val creds)

-- The keys that only an enabled tool may have.
abbrev pub is_github_key : String → Bool
is_github_key k = is_in k ("MCP_GITHUB_API_KEY" ∷ "GITHUB_TOKEN" ∷ [])

abbrev pub is_jira_key : String → Bool
is_jira_key k =
    is_in k ("MCP_JIRA_API_TOKEN" ∷ "JIRA_API_TOKEN" ∷ "JIRA_URL" ∷ "JIRA_USERNAME" ∷ [])

abbrev pub is_withheld : List String → String → Bool
is_withheld enabled k =
    (is_github_key k && not (is_in "github" enabled))
    || (is_jira_key k && not (is_in "jira" enabled))

lookup-gate :
    (b : Bool) (ks : List String) (k : String) (creds : Dict String)
    → lookup k (if b then creds else remove_all ks creds)
      ≡ (if is_in k ks && not b then none else lookup k creds)
lookup-gate b ks k creds = ground (arith, lookup-remove_all ks k creds)

merge_tests :
    (o r : Option String) (g j m n : Bool)
    → o ≡ (if g && not m then none else r)
    → (if j && not n then none else o) ≡ (if (g && not m) || (j && not n) then none else r)
merge_tests o r g j m n h = ground arith

lookup-gated :
    (enabled : List String) (creds : Dict String) (k : String)
    → lookup k (gate_tools enabled tool_credential_keys creds)
      ≡ (if is_withheld enabled k then none else lookup k creds)
unfolding gate_tools tool_credential_keys
lookup-gated enabled creds k =
    let github = "MCP_GITHUB_API_KEY" ∷ "GITHUB_TOKEN" ∷ [] in
    let jira = "MCP_JIRA_API_TOKEN" ∷ "JIRA_API_TOKEN" ∷ "JIRA_URL" ∷ "JIRA_USERNAME" ∷ [] in
    lookup-gate (is_in "jira" enabled) jira k
      (if is_in "github" enabled then creds else remove_all github creds)
    ∙ merge_tests (lookup k (if is_in "github" enabled then creds else remove_all github creds))
        (lookup k creds) (is_in k github) (is_in k jira) (is_in "github" enabled)
        (is_in "jira" enabled) (lookup-gate (is_in "github" enabled) github k creds)

keys_disjoint : (k : String) → (is_github_key k && is_jira_key k) ≡ false
keys_disjoint k = elim (Bool-cases ("MCP_GITHUB_API_KEY" == k)) [
  | inl e ↦ rw⁻¹ ((eq_iff "MCP_GITHUB_API_KEY" k).0 e) refl
  | inr e ↦ elim (Bool-cases ("GITHUB_TOKEN" == k)) [
    | inl f ↦ rw⁻¹ ((eq_iff "GITHUB_TOKEN" k).0 f) refl
    | inr f ↦ rw (e, f) refl
  ]
]

lookup-fill_jira :
    (settings : Settings) (creds : Dict String) (k : String)
    → is_jira_key k ≡ false
    → lookup k (fill_jira settings creds) ≡ lookup k creds
lookup-fill_jira settings creds k h =
    let url = fill "JIRA_URL" settings.mcp_jira_jira_url creds in
    let user = fill "JIRA_USERNAME" settings.mcp_jira_username url in
    lookup-fill "JIRA_API_TOKEN" settings.mcp_jira_api_token k user (ground arith)
    ∙ lookup-fill "JIRA_USERNAME" settings.mcp_jira_username k url (ground arith)
    ∙ lookup-fill "JIRA_URL" settings.mcp_jira_jira_url k creds (ground arith)

-- A tool's own keys are all that its completion sets.
lookup-complete_tools :
    (settings : Settings) (enabled : List String) (creds : Dict String) (k : String)
    → (is_jira_key k && is_in "jira" enabled) ≡ false
    → (is_github_key k && is_in "github" enabled) ≡ false
    → lookup k (complete_tools settings enabled creds) ≡ lookup k creds
unfolding complete_tools
lookup-complete_tools settings enabled creds k j g =
    with_github (if is_in "jira" enabled then fill_jira settings creds else creds) ∙ with_jira
  where
    with_jira :
        lookup k (if is_in "jira" enabled then fill_jira settings creds else creds) ≡ lookup k creds
    with_jira = elim (Bool-cases (is_in "jira" enabled)) [
      | inl e ↦ rw e (lookup-fill_jira settings creds k (ground arith))
      | inr e ↦ rw e refl
    ]

    with_github :
        (d : Dict String)
        → lookup k (if is_in "github" enabled then fill_github settings d else d) ≡ lookup k d
    with_github d = elim (Bool-cases (is_in "github" enabled)) [
      | inl e ↦ rw e (lookup-fill "GITHUB_TOKEN" settings.mcp_github_api_key k d (ground arith))
      | inr e ↦ rw e refl
    ]

no_tool : (g j m n : Bool) → (g || j) ≡ false → ((g && not m) || (j && not n)) ≡ false
no_tool g j m n h = ground arith

-- In the configuration that is sent to an agent whose tools addon does not enable a tool, or that has
-- no such addon, the field `credentials` has none of the tool's keys. That is said of this field
-- alone: the environment, the MCP servers and the extra fields are not restricted.
pub credentials_withheld :
    (settings : Settings) (def : AgentDefinition) (step : AgentStep) (run_id : String)
    (state : State) (k : String)
    → is_withheld (enabled_by (tools_addon def.addons)) k ≡ true
    → lookup k (build_agent_config settings def step run_id state).credentials ≡ none
unfolding build_agent_config credentials_of
credentials_withheld settings def step run_id state k w =
    let enabled = enabled_by (tools_addon def.addons) in
    let creds = gate_tools enabled tool_credential_keys (resolved_credentials settings) in
    lookup-complete_tools settings enabled creds k (ground (arith, keys_disjoint k))
      (ground (arith, keys_disjoint k))
    ∙ lookup-gated enabled (resolved_credentials settings) k
    ∙ rw w refl

-- A credential that belongs to no tool reaches every agent as the configuration resolves it.
pub credentials_kept :
    (settings : Settings) (def : AgentDefinition) (step : AgentStep) (run_id : String)
    (state : State) (k : String)
    → (is_github_key k || is_jira_key k) ≡ false
    → lookup k (build_agent_config settings def step run_id state).credentials
      ≡ lookup k (resolved_credentials settings)
unfolding build_agent_config credentials_of
credentials_kept settings def step run_id state k n =
    let enabled = enabled_by (tools_addon def.addons) in
    let creds = gate_tools enabled tool_credential_keys (resolved_credentials settings) in
    lookup-complete_tools settings enabled creds k (ground arith) (ground arith)
    ∙ lookup-gated enabled (resolved_credentials settings) k
    ∙ rw
        (no_tool (is_github_key k) (is_jira_key k) (is_in "github" enabled) (is_in "jira" enabled)
          n)
        refl
