-- ===== src/Slack/Events.antt =====
-- `slack_events` of app/api/routes/callbacks.py: a reply in the thread of a run's questions. The
-- questions of an interrupt are a list, or missing.
use langgraph_backend.Base.{
  ℕ, String, Bool, not, Option, none, some, List, [], ◌∷◌, ◌==◌, ◌||◌, if◌then◌else◌, leb, nat_eq,
  length,
}
use langgraph_backend.Value.{
  Value, null, array, object, entries, elements, State, get, is_text, truthy, record_of,
  list_or_empty, dict_or_empty,
}
use langgraph_backend.GraphRun.{GraphRun}
use langgraph_backend.Mongo.{Collection}
use langgraph_backend.Mongo.Runs.{find_by_ask_context_ts}
use langgraph_backend.Texts.{strip}
use langgraph_backend.Webhook.{text_in}
use langgraph_backend.Stream.Settle.{Snapshot}
use langgraph_backend.Approval.{Runner, bad_request, forbidden, internal, ok, Container, runner_of}
use langgraph_backend.Slack.{
  Slack, SlackRequest, Handled, ignored, refused, resume_context, is_accepted,
}
use langgraph_backend.Slack.Answers.{parse_slack_answers}

abbrev pub is_ask_context : State → Bool
is_ask_context value = is_text "ask_context" (get "type" value)

-- The questions of the first interrupt that asks for context; None without one.
unfoldable pub asked : List Value → Value
asked [] = null
asked (object fs ∷ vs) =
    let rest = asked vs in
    if is_ask_context (entries fs) then get "questions" (entries fs) else rest
asked (v ∷ vs) = asked vs

-- Of the tasks, those of the first with a list.
unfoldable pub asked_by_tasks : List (List Value) → Option (List Value)
unfolding asked
asked_by_tasks [] = none
asked_by_tasks (interrupts ∷ tasks) =
    let rest = asked_by_tasks tasks in
    elim (asked interrupts) [ array qs ↦ some (elements qs) | _ ↦ rest ]

abbrev at_least_one : ℕ → ℕ
at_least_one n = if leb n 1 then 1 else n

abbrev pub snapshot_questions : Option Snapshot → ℕ
unfolding asked asked_by_tasks
snapshot_questions none = 1
snapshot_questions (some snap) = elim (asked_by_tasks snap.tasks) [
  | some qs ↦ at_least_one (length qs)
  | none ↦ elim (asked snap.interrupts) [ array qs ↦ at_least_one (length (elements qs)) | _ ↦ 1 ]
]

-- The chunk of the interrupt in the stored run: the first item that asks something.
unfoldable pub stored_questions : List Value → ℕ
stored_questions [] = 1
stored_questions (object fs ∷ items) =
    let rest = stored_questions items in
    elim (get "value" (entries fs)) [
      | object vs ↦
          let questions = list_or_empty (get "questions" (entries vs)) in
          if is_ask_context (entries vs)
          then (elim questions [ [] ↦ rest | q ∷ qs ↦ length (q ∷ qs) ])
          else rest
      | _ ↦ rest
    ]
stored_questions (v ∷ items) = stored_questions items

unfoldable pub count_questions : Option Snapshot → GraphRun → ℕ
unfolding snapshot_questions stored_questions
count_questions snap run =
    let n = snapshot_questions snap in
    if nat_eq n 1
    then stored_questions (list_or_empty (get "__interrupt__" run.step_outputs))
    else n

-- A reply in a thread, of no edit and of no bot: the thread.
unfoldable pub reply_thread : State → Option String
reply_thread event =
    let thread_ts = text_in "thread_ts" event in
    if not (is_text "message" (get "type" event))
      || truthy (get "subtype" event)
      || truthy (get "bot_id" event)
      || thread_ts == ""
      || is_text thread_ts (get "ts" event)
    then none
    else some thread_ts

module _ (mongo : Collection GraphRun) (slack : Slack) (decimal : ℕ → String)
    (splitlines : String → List String) (aget_state : Runner → Option Snapshot) where
  unfoldable pub on_reply : State → GraphRun → Container mongo → Handled
  unfolding count_questions parse_slack_answers strip
  on_reply event run c = elim (runner_of mongo run run.id c) [
    | none ↦ ignored
    | some runner ↦
        let n = count_questions (aget_state runner) run in
        let answers = parse_slack_answers decimal splitlines (strip (text_in "text" event)) n in
        record { response = ok (record_of []); tasks = resume_context run runner answers ∷ [] }
  ]

  unfoldable pub on_body : State → Container mongo → Handled
  unfolding reply_thread find_by_ask_context_ts on_reply
  on_body body c =
      let event = dict_or_empty (get "event" body) in
      if is_text "url_verification" (get "type" body)
      then record {
        response = ok (record_of (("challenge", get "challenge" body) ∷ []));
        tasks = [];
      }
      else if not (is_text "event_callback" (get "type" body))
      then ignored
      else (elim (reply_thread event) [
        | none ↦ ignored
        | some thread_ts ↦ elim (find_by_ask_context_ts mongo thread_ts c.runs) [
          | none ↦ ignored
          | some run ↦ on_reply event run c
        ]
      ])

  unfoldable pub slack_events : ℕ → SlackRequest → Container mongo → Handled
  unfolding is_accepted on_body
  slack_events now request c =
      if is_accepted slack now request
      then (elim (slack.python.json_loads request.body) [
        | none ↦ refused bad_request
        | some (object fs) ↦ on_body (entries fs) c
        | some v ↦ refused internal
      ])
      else refused forbidden
