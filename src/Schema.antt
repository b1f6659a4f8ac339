-- ===== src/Schema.antt =====
-- `_build_state_schema` of app/infrastructure/orchestration/yaml_graph.py: the fields that the state
-- of a graph has. LangGraph drops a key that a node returns and that the schema lacks.
pub mod Laws
use langgraph_backend.Base.{
  String, Bool, true, false, not, Option, none, some, List, [], ◌∷◌, ◌++◌, map, ◌==◌, ◌&&◌,
  if◌then◌else◌, is_some,
}
use langgraph_backend.Base.Dict.{Dict, insert, has_key}
use langgraph_backend.Texts.{◌<>◌}
use langgraph_backend.Step.{Step, StepType, is_agent}

-- How LangGraph joins the writes of a field: `plain` is its default, the others are the reducers.
pub data Reducer : Type 0 where
  plain merged last summed : Reducer

abbrev pub Declarations : Type 0
Declarations = List (String × Reducer)

-- fields[k] = …, for each in turn
unfoldable pub declare_all : Declarations → Dict Reducer → Dict Reducer
declare_all [] d = d
declare_all ((k, r) ∷ more) d = declare_all more (insert k r d)

unfoldable pub standard_fields : Declarations
standard_fields =
    ("request", plain)
    ∷ ("approved", plain)
    ∷ ("reject_reason", plain)
    ∷ ("approval_history", plain)
    ∷ ("_conv_map", merged)
    ∷ ("_visit_counts", merged)
    ∷ ("_slack_thread_ts", last)
    ∷ ("_slack_channel", last)
    ∷ ("_slack_approver_id", last)
    ∷ ("_slack_ask_context_ts", last)
    ∷ ("_slack_ask_context_channel", last)
    ∷ ("__failed_step__", last)
    ∷ ("_meta_llm_rejection", last)
    ∷ ("_meta_llm_result", last)
    ∷ ("error", last)
    ∷ ("_judge_token_usage", summed)
    ∷ []

unfoldable pub final_fields : Declarations
final_fields = ("_agent_url", plain) ∷ ("_clarification_answers", plain) ∷ []

abbrev pub optional : Option String → Declarations
optional none = []
optional (some k) = (k, plain) ∷ []

abbrev pub when : Bool → Declarations → Declarations
when true ds = ds
when false ds = []

abbrev pub non_empty : Option String → Bool
non_empty none = false
non_empty (some s) = not (s == "")

-- The values of `output_mapping`.
abbrev pub mapped_keys : Dict String → Declarations
mapped_keys [] = []
mapped_keys ((k, v) ∷ m) = (v, plain) ∷ mapped_keys m

-- What an agent step declares beyond its `output_key`.
unfoldable pub agent_fields : Step → Declarations
agent_fields step =
    when (not (is_some step.output_key)) (mapped_keys step.output_mapping)
    ++ when (non_empty step.slack_input_key) (optional step.slack_input_key)
    ++ ("_agent_token_usage_" <> step.id, summed)
      ∷ ("_meta_token_usage_" <> step.id, summed)
      ∷ ("_agent_progress_" <> step.id, plain)
      ∷ ("_live_token_usage_" <> step.id, plain)
      ∷ []

-- What a step declares by its type.
unfoldable pub typed_fields : Step → StepType → Declarations
unfolding agent_fields
typed_fields step StepType.llm_structured = map (λ o. (o.name, plain)) step.output
typed_fields step StepType.http = ("trigger_payload", plain) ∷ []
typed_fields step StepType.cron = ("trigger_info", plain) ∷ []
typed_fields step StepType.human_approval = optional step.output_key
typed_fields step StepType.mcp = ("_mcp_output_" <> step.id, plain) ∷ []
typed_fields step StepType.execute = ("_openhands_conv_" <> step.id, plain) ∷ []
typed_fields step StepType.langgraph_agent = agent_fields step
typed_fields step StepType.claude_agent = agent_fields step
typed_fields step _ = []

abbrev pub step_fields : Step → Declarations
step_fields step = optional step.output_key ++ typed_fields step step.type

abbrev pub all_step_fields : List Step → Declarations
all_step_fields [] = []
all_step_fields (s ∷ steps) = step_fields s ++ all_step_fields steps

unfoldable pub build_state_schema : List Step → Dict Reducer
build_state_schema steps =
    declare_all (standard_fields ++ (all_step_fields steps ++ final_fields)) []
