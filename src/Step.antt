-- ===== src/Step.antt =====
-- The steps of a workflow definition, as app/infrastructure/orchestration/yaml_graph.py reads them
-- from the YAML dicts. A key that is absent is `none` or []; values have the types that the class's
-- documentation gives.
use langgraph_backend.Base.{
  ℕ, String, Bool, true, false, Option, none, some, List, [], ◌==◌, if◌then◌else◌,
}
use langgraph_backend.Base.Dict.{Dict}
use langgraph_backend.Value.{Value, null}

pub data StepType : Type 0 where
  llm_structured langgraph_agent claude_agent llm mcp ask_context human_approval : StepType
  execute workflow cron http http_call python parallel join switch : StepType
  -- a text that names no type
  unknown : StepType

-- The `when` of a route: absent, given as null, or a condition.
pub data When : Type 0 where
  absent null_given : When
  condition : String → When

pub record Route : Type 0 where
  pub when : When
  pub next : String
  -- None where absent
  pub wait_seconds : Value

pub record OutputField : Type 0 where
  pub name : String
  pub type : String

pub record Step : Type 0 where
  pub id : String
  pub type : StepType
  pub when : Option String
  pub output_key : Option String
  pub next : Option String
  pub routes : List Route
  pub targets : List String
  pub max_loops : Option ℕ
  pub output : List OutputField
  pub fail_if_false : List String
  pub output_mapping : Dict String
  pub slack_input_key : Option String
  pub tool : String
  pub tool_input : Dict String
  pub questions_key : Option String
  pub questions : List String
  pub interrupt_payload : Dict String
  pub conversation_id : Option String
  pub stop_on_failure : Bool
  pub workflow_id : String
  pub ignore_http_errors : Bool
  pub max_parallel : Option ℕ
  pub failure_policy : String
  pub system_prompt : String
  pub user_template : String
  pub repo_template : String
  pub instructions_template : String
  pub branch_template : Option String
  pub input_template : String
  pub url : String
  pub method : String
  pub headers : Dict String
  pub body : Value
  pub code : String
  pub max_iterations : Option ℕ

-- A step with every option absent; texts that have a default when absent hold that.
abbrev pub plain_step : String → StepType → Step
plain_step id type = record {
  id = id;
  type = type;
  when = none;
  output_key = none;
  next = none;
  routes = [];
  targets = [];
  max_loops = none;
  output = [];
  fail_if_false = [];
  output_mapping = [];
  slack_input_key = none;
  tool = "";
  tool_input = [];
  questions_key = none;
  questions = [];
  interrupt_payload = [];
  conversation_id = none;
  stop_on_failure = false;
  workflow_id = "";
  ignore_http_errors = false;
  max_parallel = none;
  failure_policy = "and";
  system_prompt = "";
  user_template = "{request}";
  repo_template = "{repo}";
  instructions_template = "{plan}";
  branch_template = none;
  input_template = "{request}";
  url = "";
  method = "GET";
  headers = [];
  body = null;
  code = "";
  max_iterations = none;
}

-- type in ("langgraph-agent", "claude-agent")
abbrev pub is_agent : StepType → Bool
is_agent StepType.langgraph_agent = true
is_agent StepType.claude_agent = true
is_agent _ = false

-- `x or default` for an optional text: "" counts as absent.
abbrev pub text_or : Option String → String → String
text_or none d = d
text_or (some s) d = if s == "" then d else s

-- The update of a node's return, or the text of what it raises.
pub data Outcome : Type 0 where
  returned : Dict Value → Outcome
  raised : String → Outcome
