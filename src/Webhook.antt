-- ===== src/Webhook.antt =====
-- app/api/routes/webhooks.py with app/infrastructure/triggers/webhook_validator.py: a run that an
-- authenticated HTTP request starts. HMAC-SHA256 and `hmac.compare_digest` are given; secrets and
-- tokens are texts. A missing header is "".
pub mod Run
use langgraph_backend.Base.{
  String, ◌≡◌, refl, Bool, true, false, not, Option, none, some, List, [], ◌∷◌, ◌==◌, ◌&&◌,
  if◌then◌else◌, is_some, starts_with, arith, eq_iff, Option-cases, Bool-cases, inl, inr,
}
use langgraph_backend.Base.Dict.{Dict, lookup, insert}
use langgraph_backend.Value.{Value, text, object, State, entries, is_text, get, truthy, record_of}
use langgraph_backend.Texts.{strip, from, length_of}
use langgraph_backend.GraphRun.{GraphRun, new_run}
use langgraph_backend.Mongo.{Collection}
use langgraph_backend.Mongo.Runs.{create}
use langgraph_backend.Definition.{WorkflowDefinition, to_raw_dict}
use langgraph_backend.Guards.{World}
use langgraph_backend.Recovery.{Build}
use langgraph_backend.Stream.{initial, Effect}
use langgraph_backend.Stream.Whole.{stream_graph_to_pause}
use langgraph_backend.Approval.{
  Runner, HttpError, forbidden, not_found, internal, unavailable, Response, ok, error, Container,
  close,
}
use langgraph_backend.Workflows.Tasks.{init_step_statuses}

pub record WebhookRequest : Type 0 where
  pub body : String
  pub authorization : String
  pub signature : String

-- What Python gives: HMAC-SHA256 of a body by a secret, as hexadecimal text; the comparison, `none`
-- where it raises; and JSON.
pub record Python : Type 0 where
  pub hexdigest : String → String → String
  pub compare_digest : String → String → Option Bool
  pub json_loads : String → Option Value
  pub json_dumps : Value → String

unfoldable pub removeprefix : String → String → String
unfolding from length_of
removeprefix prefix s = if starts_with s prefix then from (length_of prefix) s else s

abbrev pub text_in : String → State → String
text_in key step = elim (get key step) [ text s ↦ s | _ ↦ "" ]

unfoldable pub provided_token : WebhookRequest → String
unfolding strip removeprefix
provided_token request = strip (removeprefix "Bearer " request.authorization)

-- next((s for s in steps if s.get("type") == "http"), None) or {}
unfoldable pub http_step : List State → State
http_step [] = []
http_step (s ∷ ss) = let rest = http_step ss in if is_text "http" (get "type" s) then s else rest

abbrev pub secret_of : String → State → String
secret_of configured step =
    if text_in "webhook_secret" step == "" then configured else text_in "webhook_secret" step

module _ (python : Python) where
  -- `none` where the comparison holds, else the refusal.
  abbrev pub compared : String → String → Option HttpError
  compared s t = elim (python.compare_digest s t) [
    | none ↦ some internal
    | some same ↦ if same then none else some forbidden
  ]

  unfoldable pub authenticate_bearer : WebhookRequest → State → Option HttpError
  unfolding provided_token
  authenticate_bearer request step =
      if text_in "bearer_token" step == ""
      then some unavailable
      else compared (provided_token request) (text_in "bearer_token" step)

  abbrev pub validate_webhook_signature : String → String → String → Option HttpError
  validate_webhook_signature body signature secret =
      compared (python.hexdigest secret body) signature

  unfoldable pub authenticate_hmac : String → WebhookRequest → State → Option HttpError
  authenticate_hmac configured request step =
      if secret_of configured step == ""
      then some unavailable
      else if request.signature == ""
      then some forbidden
      else validate_webhook_signature request.body request.signature (secret_of configured step)

  unfoldable pub authenticate : String → WebhookRequest → State → Option HttpError
  unfolding authenticate_bearer authenticate_hmac
  authenticate configured request step =
      if is_text "bearer" (get "auth_mode" step)
      then authenticate_bearer request step
      else authenticate_hmac configured request step

  -- The request carries the token of its workflow, or the digest of its body by its secret.
  unfoldable pub is_authentic : String → WebhookRequest → State → Bool
  unfolding provided_token
  is_authentic configured request step =
      if is_text "bearer" (get "auth_mode" step)
      then not (text_in "bearer_token" step == "")
        && provided_token request == text_in "bearer_token" step
      else not (secret_of configured step == "")
        && python.hexdigest (secret_of configured step) request.body == request.signature

  compared_equal :
      (s t : String)
      → ((s t : String) → python.compare_digest s t ≡ some true → s ≡ t)
      → compared s t ≡ none
      → s ≡ t
  compared_equal s t sound h = elim (Option-cases (python.compare_digest s t)) [
    | inl e ↦ ground arith
    | inr (same, e) ↦ elim (Bool-cases same) [
      | inl b ↦ sound s t (ground arith)
      | inr b ↦ ground arith
    ]
  ]

  pub authenticate-is_authentic :
      (configured : String) (request : WebhookRequest) (step : State)
      → ((s t : String) → python.compare_digest s t ≡ some true → s ≡ t)
      → authenticate configured request step ≡ none
      → is_authentic configured request step ≡ true
  unfolding authenticate is_authentic authenticate_bearer authenticate_hmac
  authenticate-is_authentic configured request step sound h =
      elim (Bool-cases (is_text "bearer" (get "auth_mode" step))) [
        | inl b ↦ ground (
          arith,
          compared_equal (provided_token request) (text_in "bearer_token" step) sound,
          eq_iff (provided_token request) (text_in "bearer_token" step),
        )
        | inr b ↦
            let digest = python.hexdigest (secret_of configured step) request.body in
            ground (
              arith,
              compared_equal digest request.signature sound,
              eq_iff digest request.signature,
            )
      ]
