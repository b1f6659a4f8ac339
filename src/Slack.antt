-- ===== src/Slack.antt =====
-- The endpoints of app/api/routes/callbacks.py that Slack calls: clicks of buttons, and replies in a
-- thread. Here: the signature, and `slack_interactive`. The texts and dicts that Slack documents are
-- such; any other value at their keys reads as one that is missing.
pub mod Answers
pub mod Events
pub mod Resume
pub mod Signed
pub mod Tasks
use langgraph_backend.Base.{
  ℕ, ◌+◌, ◌-◌, String, Bool, true, false, Option, none, some, List, [], ◌∷◌, ◌==◌, ◌||◌,
  if◌then◌else◌, ltb, get_or,
}
use langgraph_backend.Base.Dict.{Dict}
use langgraph_backend.Value.{
  Value, text, flag, array, nil, cons, object, entries, State, get, dict_or_empty, list_or_empty,
  record_of,
}
use langgraph_backend.Texts.{◌<>◌}
use langgraph_backend.GraphRun.{GraphRun}
use langgraph_backend.Webhook.{Python, text_in}
use langgraph_backend.Approval.{
  Runner, Approver, HttpError, bad_request, forbidden, internal, Response, ok, error,
}

-- What Python and Starlette give, and the settings. Times are seconds since 1970, as
-- floats, by their bits: `seconds` is `float` of a text, also "nan" and "inf", and `is_far` is
-- `abs(a - b) > 300`, which is false where one of them is no number; `decode` is that of UTF-8; `form_payload` the form's field
-- "payload", "" where it is missing. `none` is an exception.
pub record Slack : Type 0 where
  pub python : Python
  pub seconds : String → Option ℕ
  pub is_far : ℕ → ℕ → Bool
  pub decode : String → Option String
  pub form_payload : String → String
  pub signing_secret : String
  pub bot_token : String

pub record SlackRequest : Type 0 where
  pub timestamp : String
  pub signature : String
  pub body : String

-- What FastAPI runs behind the response, in order.
pub data Task : Type 0 where
  reply_in_thread : String → String → String → Task
  approve_task : Approver → String → Task
  reject_task : Approver → String → Task
  resume_context : GraphRun → Runner → Dict String → Task

pub record Handled : Type 0 where
  pub response : Response Value
  pub tasks : List Task

abbrev pub refused : HttpError → Handled
refused e = record { response = error e; tasks = [] }

abbrev pub ignored : Handled
ignored = record { response = ok (record_of []); tasks = [] }

abbrev pub slack_approver : String → String → Approver
slack_approver user_id user_name = record {
  slack_id = user_id;
  name = user_name;
  id = user_id;
  source = "slack";
}

-- A rejection names no Slack id to tag.
abbrev pub slack_rejecter : String → String → Approver
slack_rejecter user_id user_name = record (slack_approver user_id user_name) { slack_id = "" }

module _ (slack : Slack) where
  abbrev pub signature_of : String → String → String
  signature_of timestamp body =
      "v0=" <> slack.python.hexdigest slack.signing_secret ("v0:" <> (timestamp <> (":" <> body)))

  unfoldable pub verify_slack_signature : ℕ → SlackRequest → Bool
  verify_slack_signature now request = elim (slack.seconds request.timestamp) [
    | none ↦ false
    | some sent ↦ if slack.is_far now sent then false else (elim (slack.decode request.body) [
      | none ↦ false
      | some body ↦
          get_or
            (slack.python.compare_digest (signature_of request.timestamp body) request.signature)
            false
    ])
  ]

  -- Without a secret every request counts as Slack's.
  unfoldable pub is_accepted : ℕ → SlackRequest → Bool
  unfolding verify_slack_signature
  is_accepted now request = slack.signing_secret == "" || verify_slack_signature now request

  abbrev pub dict_of : String → State → State
  dict_of key d = dict_or_empty (get key d)

  abbrev pub shown_name : State → String
  shown_name user = if text_in "name" user == "" then "someone" else text_in "name" user

  -- payload["message"]["ts"] or payload["container"]["message_ts"]
  abbrev pub message_ts : State → String
  message_ts payload =
      let ts = text_in "ts" (dict_of "message" payload) in
      if ts == "" then text_in "message_ts" (dict_of "container" payload) else ts

  abbrev pub update_text : Bool → String → String
  update_text approved name =
      if approved then "✅ Approved by " <> name else "🚫 Rejected by " <> name

  -- The reply comes ahead of the decision, which may take as long as the next node.
  abbrev pub thread_reply : State → String → List Task → List Task
  thread_reply payload s tasks =
      let channel = text_in "id" (dict_of "channel" payload) in
      let ts = message_ts payload in
      if slack.bot_token == "" || channel == "" || ts == ""
      then tasks
      else reply_in_thread channel ts s ∷ tasks

  abbrev pub replacement : String → Value
  replacement s = record_of (
      ("replace_original", flag true)
      ∷ ("text", text s)
      ∷ (
        "blocks",
        array (
            cons
              (record_of (
                ("type", text "section")
                ∷ ("text", record_of (("type", text "mrkdwn") ∷ ("text", text s) ∷ []))
                ∷ []))
              nil),
      )
      ∷ [])

  abbrev pub decide : Bool → String → State → Handled
  decide approved run_id payload =
      let user = dict_of "user" payload in
      let name = shown_name user in
      let s = update_text approved name in
      let task =
        if approved
        then approve_task (slack_approver (text_in "id" user) name) run_id
        else reject_task (slack_rejecter (text_in "id" user) name) run_id in
      record { response = ok (replacement s); tasks = thread_reply payload s (task ∷ []) }

  unfoldable pub on_action : State → State → Handled
  on_action payload action =
      let run_id = text_in "value" action in
      let action_id = text_in "action_id" action in
      if run_id == ""
      then refused bad_request
      else if action_id == "approve"
      then decide true run_id payload
      else if action_id == "reject"
      then decide false run_id payload
      else ignored

  -- The first action of a payload; one that is no dict raises.
  unfoldable pub on_payload : Option Value → Handled
  unfolding on_action
  on_payload none = refused bad_request
  on_payload (some (object fs)) = elim (list_or_empty (get "actions" (entries fs))) [
    | [] ↦ ignored
    | object action ∷ actions ↦ on_action (entries fs) (entries action)
    | action ∷ actions ↦ refused internal
  ]
  on_payload (some payload) = refused internal

  unfoldable pub slack_interactive : ℕ → SlackRequest → Handled
  unfolding is_accepted on_payload
  slack_interactive now request =
      if is_accepted now request
      then on_payload (slack.python.json_loads (slack.form_payload request.body))
      else refused forbidden
