-- ===== src/Examples/Executor.antt =====
-- Agent steps on concrete agents, polls and outputs.
use langgraph_backend.Base.{
  ◌≡◌, refl, ◌∷◌, Bool, true, false, none, some, List, [], ◌∷◌, inr, arith,
}
use langgraph_backend.Base.Dict.{lookup}
use langgraph_backend.Base.Int.{pos}
use langgraph_backend.Value.{Value, null, text, int, State, record_of}
use langgraph_backend.Mongo.{Collection}
use langgraph_backend.Mongo.Memory.{memory}
use langgraph_backend.AgentDefinition.{AgentDefinition, enabled_by, tools_addon}
use langgraph_backend.Executor.{AgentStep}
use langgraph_backend.Executor.Judge.{Verdict}
use langgraph_backend.Executor.Poll.{Poll, unreachable, answered, Polling, poll_loop}
use langgraph_backend.Executor.Poll.Ends.{is_waiting, losses, poll_loop_ends}
use langgraph_backend.Executor.Output.{Parsers, deliver}
use langgraph_backend.Executor.Config.{Settings, build_agent_config}
use langgraph_backend.Executor.Config.Credentials.{credentials_withheld}
use langgraph_backend.Executor.Start.{Runtime}
use langgraph_backend.Executor.Whole.{Host, Stores}
use langgraph_backend.Executor.Whole.Outcomes.{is_returned, deliver_refuses}
use langgraph_backend.Examples.{db, fresh_run, holding}

abbrev tasks : Collection State
tasks = memory State

abbrev task : State
task = ("status", text "running") ∷ ("loop_count", int (pos 2)) ∷ []

unfoldable holding_task : tasks.Store
unfolding memory
holding_task = ("t-1", task) ∷ []

abbrev planner : AgentStep
planner = record {
  id = "plan";
  agent_id = "planner";
  runtime_override = none;
  input_mapping = [];
  output_mapping = ("plan", "plan") ∷ [];
  output_key = none;
  success_criteria = none;
  fail_criteria = none;
  compression_level = none;
  env_vars = [];
}

abbrev agent : AgentDefinition
agent = record {
  id = "planner";
  name = "Planner";
  description = none;
  default_runtime = "local";
  agent_input = [];
  image = none;
  health_timeout = 300;
  helm_chart = none;
  helm_values = [];
  addons = [];
}

abbrev never : List Value → Bool
never outputs = false

unfoldable start_of : Polling db tasks
unfolding holding holding_task
start_of = record {
  raw_output = record_of [];
  loop_count = 0;
  stored_runs = holding fresh_run;
  stored_tasks = holding_task;
}

abbrev polls : List Poll
polls = unreachable ∷ answered "working" [] ∷ answered "idle" [] ∷ []

poll_loop_ends_example :
    is_waiting (poll_loop db tasks never 2 "t-1" "run-1" "plan" polls start_of) ≡ false
unfolding losses start_of
poll_loop_ends_example =
    poll_loop_ends db tasks never 2 "t-1" "run-1" "plan" polls start_of (omega arith) (omega arith)

abbrev settings : Settings
settings = record {
  llm_provider = "";
  get_llm_integration = λ name. none;
  llm_keys = [];
  forwardable_config = ("GITHUB_TOKEN", "secret") ∷ [];
  mcp_integrations = [];
  mcp_jira_jira_url = "";
  mcp_jira_username = "";
  mcp_jira_api_token = "";
  mcp_github_api_key = "secret";
  meta_llm_provider = "";
  meta_llm_model = "";
}

credentials_withheld_example :
    lookup "GITHUB_TOKEN" (build_agent_config settings agent planner "run-1" []).credentials ≡ none
unfolding tools_addon enabled_by
credentials_withheld_example =
    credentials_withheld settings agent planner "run-1" [] "GITHUB_TOKEN" refl

abbrev poor : Verdict
poor = record { passed = false; reason = "no plan"; usage = null }

abbrev prose : State
prose = ("result", text "Jira is down") ∷ []

deliver_refuses_example : is_returned (deliver planner none false prose) ≡ false
unfolding lookup
deliver_refuses_example =
    deliver_refuses planner none false prose
      (inr (("plan", "plan"), [], refl, refl, (refl, tt), refl))

abbrev python : Parsers
python = record { json_loads = λ s. none; safe_load = λ s. none; fence = λ s. none; str = λ v. "" }

abbrev runtime : Runtime
runtime = record {
  warm_url = none;
  is_healthy = λ url. false;
  has_container_for_run = false;
  task_url = none;
  known_url = none;
  spawn = some "http://agent";
  accepts_start = λ url. false;
  keeps_lease = false;
  keeps_warm = false;
  parks = false;
}

abbrev host : Host python db tasks
host = record {
  definition = some agent;
  previous = none;
  run_local_agent = λ input. some (("plan", text "do it") ∷ []);
  runtime = runtime;
  polls = λ url. polls;
  recovered = never;
  judge = λ input raw. poor;
  answers = [];
  max_loops = 2;
  use_meta_llm = true;
  task_key = "t-1";
  run_id = "run-1";
}

unfoldable stores : Stores python db tasks
unfolding holding holding_task
stores = record { stored_runs = holding fresh_run; stored_tasks = holding_task }
