-- ===== src/GraphRun.antt =====
-- app/domain/models/graph_run.py: a run of a workflow and its routing journal.
-- The clock is not modelled: `ts`, `created_at`, `updated_at`, `started_at` and so `touch` are left
-- out, and so are the fields that no modelled operation reads (`trace_data`, `langsmith_run_id`).
use langgraph_backend.Base.{ℕ, String, Bool, true, false, Option, none, List, []}
use langgraph_backend.Base.Dict.{Dict}
use langgraph_backend.Value.{Value, State}

pub data Status : Type 0 where
  running waiting_approval waiting_agent completed failed cancelled rejected : Status

pub data StepStatus : Type 0 where
  pending running finished skipped failed waiting_clarification waiting_approval : StepStatus

pub data EventKind : Type 0 where
  route node_start : EventKind

pub record RoutingEvent : Type 0 where
  pub event : EventKind
  pub node : String
  pub target : String
  pub condition : String
  pub iteration : ℕ

-- `wait_seconds` is a float, by its bits.
pub record WaitingTransition : Type 0 where
  pub source : String
  pub target : String
  pub wait_seconds : ℕ

pub record GraphRun : Type 0 where
  pub id : String
  pub graph_id : String
  pub user_request : String
  pub status : Status
  pub parent_run_id : Option String
  pub agent_url : Option String
  -- the raw definition that the run was started with
  pub workflow_definition : Option State
  pub state : State
  pub current_step : Option String
  pub step_statuses : Dict StepStatus
  pub step_inputs : Dict State
  pub step_outputs : Dict Value
  pub waiting_transition : Option WaitingTransition
  pub routing_log : List RoutingEvent

-- status == "waiting_approval"
abbrev pub is_waiting_approval : Status → Bool
is_waiting_approval Status.waiting_approval = true
is_waiting_approval _ = false

-- status in ("completed", "failed", "cancelled", "rejected")
abbrev pub is_terminal : Status → Bool
is_terminal Status.completed = true
is_terminal Status.failed = true
is_terminal Status.cancelled = true
is_terminal Status.rejected = true
is_terminal _ = false

-- status in ("running", "waiting_approval", "waiting_agent")
abbrev pub is_incomplete : Status → Bool
is_incomplete Status.running = true
is_incomplete Status.waiting_approval = true
is_incomplete Status.waiting_agent = true
is_incomplete _ = false

abbrev pub is_running : StepStatus → Bool
is_running StepStatus.running = true
is_running _ = false

-- A new run with the model's defaults.
abbrev pub new_run : String → String → String → Dict StepStatus → GraphRun
new_run id graph_id user_request step_statuses = record {
  id = id;
  graph_id = graph_id;
  user_request = user_request;
  status = Status.running;
  parent_run_id = none;
  agent_url = none;
  workflow_definition = none;
  state = [];
  current_step = none;
  step_statuses = step_statuses;
  step_inputs = [];
  step_outputs = [];
  waiting_transition = none;
  routing_log = [];
}
