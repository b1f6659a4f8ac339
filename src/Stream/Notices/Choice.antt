-- ===== src/Stream/Notices/Choice.antt =====
-- What is due when a stream has ended: the message or the notification at the end of
-- `stream_graph_to_pause` of app/infrastructure/orchestration/yaml_graph.py, and of `_stream_graph`
-- of app/api/routes/workflows.py, and the keys under which its thread is kept.
use langgraph_backend.Base.{
  String, Bool, not, Option, none, some, List, [], ◌∷◌, ◌==◌, ◌&&◌, ◌||◌, if◌then◌else◌,
}
use langgraph_backend.Base.Dict.{insert}
use langgraph_backend.Value.{
  Value, null, text, object, entries, State, get, is_text, truthy, list_or_empty,
}
use langgraph_backend.GraphRun.{GraphRun, is_waiting_approval}
use langgraph_backend.Step.{Step}
use langgraph_backend.Stream.Settle.{Snapshot, active_interrupt_type}

pub record SlackSettings : Type 0 where
  pub bot_token : String
  pub approvals_channel : String

-- What is sent: the message of a step's template, questions in a thread or in a channel, or the
-- notification of an approval.
pub data Notice : Type 0 where
  addon_message : String → String → State → List Value → Notice
  thread_message : String → Value → Value → List Value → Notice
  root_message : String → String → List Value → State → Notice
  approval_message : State → State → Notice

-- What a stream reaches outside of the store: whether the checkpointer leases a thread, Slack's
-- settings, the base URL, the raw dict of a step of a runner by its id, and what comes back for a
-- message, `none` where it was not sent.
pub record Outlet : Type 0 where
  pub leases : Bool
  pub settings : SlackSettings
  pub base_url : String
  pub raw_step : List Step → String → Option State
  pub post : Notice → Option Value

-- A stream that is started without a base URL.
abbrev pub silent : Outlet → Outlet
silent outlet = record outlet { base_url = "" }

abbrev pub option_text : String → State → String
option_text key step = elim (get key step) [ text s ↦ s | _ ↦ "" ]

-- `step.get(key) or default`
abbrev pub option_or : String → State → String → String
option_or key step default = if option_text key step == "" then default else option_text key step

-- The questions of the last interrupt that asks for context.
unfoldable pub last_asked : List Value → List Value → List Value
last_asked questions [] = questions
last_asked questions (object fs ∷ vs) =
    last_asked
      (if is_text "ask_context" (get "type" (entries fs))
        then list_or_empty (get "questions" (entries fs))
        else questions)
      vs
last_asked questions (v ∷ vs) = last_asked questions vs

unfoldable pub task_asked : List Value → List (List Value) → List Value
unfolding last_asked
task_asked questions [] = questions
task_asked questions (interrupts ∷ tasks) = task_asked (last_asked questions interrupts) tasks

unfoldable pub snapshot_asked : Snapshot → List Value
unfolding task_asked last_asked
snapshot_asked snap = elim (task_asked [] snap.tasks) [
  | [] ↦ last_asked [] snap.interrupts
  | q ∷ qs ↦ q ∷ qs
]

-- An ask_context step, or one with Slack's addon.
abbrev pub uses_slack : State → Bool
uses_slack step = is_text "ask_context" (get "type" step) || truthy (get "slack_notifications" step)

-- The state of a template, with the step's channel.
abbrev pub template_state : State → State → State
template_state step values =
    if option_text "slack_channel" step == ""
    then values
    else insert "slack_channel" (text (option_text "slack_channel" step)) values

unfoldable pub question_notice : String → String → State → State → List Value → Option Notice
question_notice token channel step values [] = none
question_notice token channel step values (q ∷ qs) =
    let ts = get "_slack_ask_context_ts" values in
    let thread_channel = get "_slack_ask_context_channel" values in
    some (
      if not (option_text "slack_payload" step == "")
      then addon_message token (option_text "slack_payload" step) (template_state step values)
          (q ∷ qs)
      else if truthy ts && truthy thread_channel
      then thread_message token thread_channel ts (q ∷ qs)
      else root_message token channel (q ∷ qs) values)

-- Of a step without Slack: the notification of its approval, where the step has one.
abbrev pub approval_notice : State → State → Option Notice
approval_notice step values = elim (get "notify" step) [
  | object fs ↦ if truthy (object fs) then some (approval_message (entries fs) values) else none
  | _ ↦ none
]

unfoldable pub notice_of : SlackSettings → State → Snapshot → Option Notice
unfolding question_notice snapshot_asked
notice_of settings step snap =
    let token = option_or "slack_token" step settings.bot_token in
    let channel = option_or "slack_channel" step settings.approvals_channel in
    if uses_slack step
    then (if token == "" || channel == ""
        then none
        else question_notice token channel step snap.values (snapshot_asked snap))
    else approval_notice step snap.values

-- The keys under which the thread of a message is kept.
abbrev pub thread_keys : Notice → Option (String × String)
thread_keys (root_message token channel questions values) =
    some ("_slack_ask_context_ts", "_slack_ask_context_channel")
thread_keys (approval_message notify values) = some ("_slack_thread_ts", "_slack_channel")
thread_keys _ = none

-- The time stamp and the channel of an answer that says it is fine.
unfoldable pub posted_at : Option Value → Option (Value × Value)
posted_at (some (object fs)) =
    let ts = get "ts" (entries fs) in
    let channel = get "channel" (entries fs) in
    if truthy (get "ok" (entries fs)) && truthy ts && truthy channel
    then some (ts, channel)
    else none
posted_at _ = none

abbrev pub is_agent_type : State → Bool
is_agent_type step =
    is_text "langgraph-agent" (get "type" step) || is_text "claude-agent" (get "type" step)

-- The questions of a step whose stream the workflow routes started: there are no options of a step.
unfoldable pub graph_question : SlackSettings → State → List Value → Option Notice
graph_question settings values [] = none
graph_question settings values (q ∷ qs) =
    let ts = get "_slack_ask_context_ts" values in
    let thread_channel = get "_slack_ask_context_channel" values in
    some (
      if truthy ts && truthy thread_channel
      then thread_message settings.bot_token thread_channel ts (q ∷ qs)
      else root_message settings.bot_token settings.approvals_channel (q ∷ qs) values)

-- An agent's step that asks for context uses Slack too, with its addon or without.
unfoldable pub graph_notice_of : SlackSettings → State → Snapshot → Option Notice
unfolding graph_question snapshot_asked active_interrupt_type
graph_notice_of settings step snap =
    if uses_slack step
      || (is_agent_type step && is_text "ask_context" (active_interrupt_type snap null))
    then (if settings.bot_token == "" || settings.approvals_channel == ""
        then none
        else graph_question settings snap.values (snapshot_asked snap))
    else approval_notice step snap.values

-- What is due when a stream has ended: nothing, unless the run waits for a person at a known step
-- and the base URL is given. The notice of a step is given.
unfoldable pub due_notice :
    String
    → (String → Option State)
    → (State → Snapshot → Option Notice)
    → Snapshot
    → GraphRun
    → Option Notice
due_notice base_url step_of notice snap run =
    if is_waiting_approval run.status && not (base_url == "")
    then (elim run.current_step [
      | none ↦ none
      | some id ↦ elim (step_of id) [ none ↦ none | some step ↦ notice step snap ]
    ])
    else none
