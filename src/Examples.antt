-- ===== src/Examples.antt =====
-- Concrete workflows, runs and collections on which the theorems are applied.
pub mod Repository
pub mod Streams
pub mod Nodes
pub mod Routing
pub mod Agents
pub mod Workflows
pub mod Executor
pub mod Recovery
pub mod Webhook
pub mod Auth
pub mod Tracing
pub mod Notify
pub mod Notices
pub mod Assistant
pub mod Slack
use langgraph_backend.Base.{ℕ, String, Bool, true, false, Option, none, some, List, [], ◌∷◌}
use langgraph_backend.Base.Dict.{Dict}
use langgraph_backend.Value.{Value, null, text, flag, State, record_of}
use langgraph_backend.GraphRun.{GraphRun, Status, StepStatus, new_run}
use langgraph_backend.Mongo.{Collection}
use langgraph_backend.Mongo.Memory.{memory}
use langgraph_backend.Step.{Step, StepType, plain_step}
use langgraph_backend.Guards.{World}
use langgraph_backend.Stream.{Event, started, produced, Input}
use langgraph_backend.Stream.Settle.{Snapshot}
use langgraph_backend.Stream.Notices.{Outlet}
use langgraph_backend.Stream.Whole.{End, ended, failed, Graph}

abbrev pub db : Collection GraphRun
db = memory GraphRun

abbrev pub draft : Step
draft = plain_step "draft" StepType.llm

abbrev pub review : Step
review = plain_step "review" StepType.human_approval

abbrev pub steps : List Step
steps = draft ∷ review ∷ []

abbrev pub fresh_run : GraphRun
fresh_run =
    new_run "run-1" "wf" "fix it"
      (("draft", StepStatus.pending) ∷ ("review", StepStatus.pending) ∷ [])

-- The run while a person is asked.
abbrev pub waiting_run : GraphRun
waiting_run = record fresh_run {
  status = Status.waiting_approval;
  current_step = some "review";
  step_statuses = ("draft", StepStatus.finished) ∷ ("review", StepStatus.running) ∷ [];
}

-- A collection with one run.
unfoldable pub holding : GraphRun → db.Store
unfolding memory
holding run = (run.id, run) ∷ []

-- A collection with two.
unfoldable pub holding_both : GraphRun → GraphRun → db.Store
unfolding memory
holding_both one other = (one.id, one) ∷ (other.id, other) ∷ []

abbrev pub world_of : GraphRun → World db
world_of run = record { run = run; stored = holding run }

-- An outlet whose messages are all posted.
abbrev pub outlet : Outlet
outlet = record {
  leases = false;
  settings = record { bot_token = "xoxb"; approvals_channel = "C1" };
  base_url = "http://app";
  raw_step = λ ss id. some (("notify", record_of (("channel", text "C1") ∷ [])) ∷ []);
  post = λ notice.
      some (record_of (("ok", flag true) ∷ ("ts", text "1.5") ∷ ("channel", text "C1") ∷ []));
}

abbrev pub draft_state : State
draft_state = ("request", text "fix it") ∷ ("draft", text "a plan") ∷ []

-- The graph drafts, then pauses before the approval.
abbrev pub pause : Snapshot
pause = record {
  values = draft_state;
  next = "review" ∷ [];
  tasks = (record_of (("plan", text "a plan") ∷ []) ∷ []) ∷ [];
  interrupts = [];
}

abbrev pub draft_events : List Event
draft_events =
    started "draft" []
    ∷ produced "draft" (record_of (("draft", text "a plan") ∷ []))
    ∷ started "review" draft_state
    ∷ []

abbrev pub pausing : Graph
pausing input = (draft_events, ended pause)
