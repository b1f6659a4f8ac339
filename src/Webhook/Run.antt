-- ===== src/Webhook/Run.antt =====
-- The route `receive_webhook` of app/api/routes/webhooks.py and the run behind it,
-- `_execute_webhook_run`.
use langgraph_backend.Base.{
  String, ◌≡◌, refl, Bool, true, false, Option, none, some, List, [], ◌∷◌, ◌==◌, if◌then◌else◌,
  is_some, arith, Option-cases, inl, inr,
}
use langgraph_backend.Base.Dict.{Dict, lookup, insert}
use langgraph_backend.Value.{Value, text, object, State, entries, get, truthy, record_of}
use langgraph_backend.GraphRun.{GraphRun, new_run}
use langgraph_backend.Mongo.{Collection}
use langgraph_backend.Mongo.Runs.{create}
use langgraph_backend.Definition.{WorkflowDefinition, to_raw_dict}
use langgraph_backend.Recovery.{Build}
use langgraph_backend.Stream.{initial, Effect}
use langgraph_backend.Stream.Whole.{stream_graph_to_pause}
use langgraph_backend.Approval.{
  Runner, HttpError, not_found, internal, Response, ok, error, Container, close,
}
use langgraph_backend.Workflows.Tasks.{init_step_statuses}
use langgraph_backend.Webhook.{
  WebhookRequest, Python, http_step, authenticate, is_authentic, authenticate-is_authentic,
}
use langgraph_backend.Stream.Notices.{Outlet}

-- What the workflow gives: its runner, the snapshot of its definition, and its raw steps.
pub data Found : Type 0 where
  missing broken : Found
  found : Runner → Option State → List State → Found

-- The raw steps of a registry's runner are given.
unfoldable pub find_workflow :
    Build
    → (Runner → List State)
    → Option (String → Option WorkflowDefinition)
    → String
    → Dict Runner
    → Found
unfolding to_raw_dict
find_workflow build raw_steps none workflow_id registry = elim (lookup workflow_id registry) [
  | none ↦ missing
  | some runner ↦ found runner none (raw_steps runner)
]
find_workflow build raw_steps (some definition_of) workflow_id registry =
    elim (definition_of workflow_id) [
      | none ↦ missing
      | some d ↦ elim (build (to_raw_dict d)) [
        | none ↦ broken
        | some runner ↦ found runner (some (to_raw_dict d)) d.steps
      ]
    ]

-- A body that is no JSON is kept as it is.
abbrev pub payload_of : Option Value → String → Value
payload_of none body = record_of (("raw", text body) ∷ [])
payload_of (some payload) body = payload

-- The text of the request, else the payload as JSON; `none` where it is no text, which the run's
-- model refuses.
abbrev pub requested : (Value → String) → Value → Value → Option String
requested dumps payload (text s) = some (if s == "" then dumps payload else s)
requested dumps payload v = if truthy v then none else some (dumps payload)

abbrev pub user_request : (Value → String) → Value → Option String
user_request dumps (object fs) = requested dumps (object fs) (get "request" (entries fs))
user_request dumps payload = some (dumps payload)

abbrev pub is_ok : Response GraphRun → Bool
is_ok (ok run) = true
is_ok (error e) = false

module _ (mongo : Collection GraphRun) where
  -- The task streams the run, with the payload.
  pub record Received : Type 0 where
    pub response : Response GraphRun
    pub container : Container mongo
    pub task : Option (Runner × GraphRun × Value)

  abbrev pub denied : HttpError → Container mongo → Received
  denied e c = record { response = error e; container = c; task = none }

  unfoldable pub launch_webhook :
      String → String → Runner → Option State → Value → Option String → Container mongo → Received
  launch_webhook thread_id workflow_id runner snapshot payload asked c =
      let live = record c { live_runners = insert thread_id runner c.live_runners } in
      elim asked [
        | none ↦ denied internal live
        | some ask ↦
            let run = record (new_run thread_id workflow_id ask []) {
              workflow_definition = snapshot;
            } in
            elim (create mongo run c.runs) [
              | none ↦ denied internal live
              | some runs ↦ record {
                response = ok run;
                container = record live { runs = runs };
                task = some (runner, run, payload);
              }
            ]
      ]

  unfoldable pub admit :
      Python → String → String → String → WebhookRequest → Found → Container mongo → Received
  unfolding authenticate http_step launch_webhook
  admit python configured thread_id workflow_id request missing c = denied not_found c
  admit python configured thread_id workflow_id request broken c = denied internal c
  admit python configured thread_id workflow_id request (found runner snapshot steps) c =
      elim (authenticate python configured request (http_step steps)) [
        | some e ↦ denied e c
        | none ↦
            let payload = payload_of (python.json_loads request.body) request.body in
            launch_webhook thread_id workflow_id runner snapshot payload
              (user_request python.json_dumps payload) c
      ]

  unfoldable pub receive_webhook :
      Build
      → (Runner → List State)
      → Option (String → Option WorkflowDefinition)
      → Python
      → String
      → String
      → String
      → WebhookRequest
      → Container mongo
      → Received
  unfolding admit find_workflow
  receive_webhook build raw_steps backend python configured thread_id workflow_id request c =
      admit python configured thread_id workflow_id request
        (find_workflow build raw_steps backend workflow_id c.registry) c

  unfoldable pub execute_webhook_run :
      Outlet → Runner → GraphRun → Value → Container mongo → Container mongo × List Effect
  unfolding stream_graph_to_pause close
  execute_webhook_run outlet runner run payload c =
      let (w, effects) =
        stream_graph_to_pause mongo outlet runner.steps runner.graph
          (initial (("request", text run.user_request) ∷ ("trigger_payload", payload) ∷ []))
          runner.values
          (record {
            run = record run { step_statuses = init_step_statuses runner };
            stored = c.runs;
          }) in
      ((close mongo run.id w c).1, effects)

  -- Where a comparison that holds is one of equal texts, a request for a workflow that is there,
  -- without the workflow's token or without the digest of its body by the workflow's secret, is
  -- answered with an error, starts nothing, and leaves the stored runs, the live runners and the
  -- registry as they were.
  pub receive_webhook_denied :
      (build : Build) (raw_steps : Runner → List State)
      (backend : Option (String → Option WorkflowDefinition)) (python : Python)
      (configured thread_id workflow_id : String) (request : WebhookRequest) (c : Container mongo)
      (runner : Runner) (snapshot : Option State) (steps : List State)
      → ((s t : String) → python.compare_digest s t ≡ some true → s ≡ t)
      → find_workflow build raw_steps backend workflow_id c.registry ≡ found runner snapshot steps
      → is_authentic python configured request (http_step steps) ≡ false
      → let r =
          receive_webhook build raw_steps backend python configured thread_id workflow_id request
            c in
        (is_ok r.response ≡ false) × (r.container ≡ c) × (is_some r.task ≡ false)
  unfolding receive_webhook admit
  receive_webhook_denied build raw_steps backend python configured thread_id workflow_id request c
        runner snapshot steps sound f n =
      rw (f, receive_webhook)
        (elim (Option-cases (authenticate python configured request (http_step steps))) [
          | inl e ↦ absurd (
              ground (
                arith,
                authenticate-is_authentic python configured request (http_step steps) sound e,
              ))
          | inr (denial, e) ↦ rw (e, admit) (refl, refl, refl)
        ])
