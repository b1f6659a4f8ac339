-- ===== src/Slack/Signed.antt =====
-- What Slack did not sign has no effect.
use langgraph_backend.Base.{ℕ, String, ◌≡◌, false, Option, some, List}
use langgraph_backend.Mongo.{Collection}
use langgraph_backend.GraphRun.{GraphRun}
use langgraph_backend.Stream.Settle.{Snapshot}
use langgraph_backend.Approval.{Runner, Container}
use langgraph_backend.Slack.{Slack, SlackRequest, Handled, signature_of, slack_interactive}
use langgraph_backend.Slack.Events.{slack_events}

-- The signature is that of the body at a time that Python does not find to be more than 300 seconds
-- away.
pub record IsSigned (slack : Slack) (now : ℕ) (request : SlackRequest) : Type 0 where
  pub sent : ℕ
  pub body : String
  pub sent_at : slack.seconds request.timestamp ≡ some sent
  pub recent : slack.is_far now sent ≡ false
  pub decoded : slack.decode request.body ≡ some body
  pub signed : signature_of slack request.timestamp body ≡ request.signature

pub data Endpoint : Type 0 where
  interactive events : Endpoint

module _ (mongo : Collection GraphRun) (slack : Slack) (decimal : ℕ → String)
    (splitlines : String → List String) (aget_state : Runner → Option Snapshot) where
  abbrev pub respond : Endpoint → ℕ → SlackRequest → Container mongo → Handled
  respond interactive now request c = slack_interactive slack now request
  respond events now request c =
      slack_events mongo slack decimal splitlines aget_state now request c
