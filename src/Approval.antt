-- ===== src/Approval.antt =====
-- `_do_approve` and `_do_reject` of app/api/routes/callbacks.py: the answer of a person resumes a
-- paused run. Of the application's container they use the stored runs, the live runners and the
-- registry of workflows.
pub mod Laws
pub mod Endpoints
use langgraph_backend.Base.{
  ℕ, String, Bool, true, false, not, Option, none, some, List, [], ◌∷◌, ◌==◌, if◌then◌else◌,
  or_else,
}
use langgraph_backend.Base.Dict.{Dict, lookup, insert, remove}
use langgraph_backend.Value.{Value, null, flag, text, State, record_of}
use langgraph_backend.GraphRun.{GraphRun, Status, StepStatus, is_terminal}
use langgraph_backend.Mongo.{Collection}
use langgraph_backend.Mongo.Runs.{claim_for_resume}
use langgraph_backend.Step.{Step}
use langgraph_backend.Guards.{World, persist}
use langgraph_backend.Stream.{Input, resume, Effect, patch_checkpoint}
use langgraph_backend.Stream.Whole.{Graph, stream_graph_to_pause}
use langgraph_backend.Stream.Notices.{Outlet, silent}

-- A runner: its steps, what its graph does with an input, and the values of its checkpoint.
pub record Runner : Type 0 where
  pub steps : List Step
  pub graph : Graph
  pub values : State

-- The `HTTPException`s, by their status codes 400, 403, 404, 408, 409, 501 and 503; 500 is
-- any other exception.
pub data HttpError : Type 0 where
  bad_request forbidden not_found request_timeout conflict internal not_implemented unavailable :
      HttpError

pub data Response {ℓ} (A : Type ℓ) : Type ℓ where
  ok : A → Response A
  error : HttpError → Response A

-- Who decided, as the callers pass it: "" where it is not known.
pub record Approver : Type 0 where
  pub slack_id : String
  pub name : String
  pub id : String
  pub source : String

-- `x or None`
abbrev pub text_or_none : String → Value
text_or_none s = if s == "" then null else text s

-- The decision that the approval node is resumed with; `decided_at` is the clock's text.
abbrev pub approve_decision : Approver → String → Value
approve_decision a decided_at = record_of (
    ("approved", flag true)
    ∷ ("approver_name", text_or_none a.name)
    ∷ ("approver_id", text_or_none a.id)
    ∷ ("approver_source", text_or_none a.source)
    ∷ ("decided_at", text decided_at)
    ∷ [])

abbrev pub reject_decision : Value → Approver → String → Value
reject_decision reason a decided_at = record_of (
    ("approved", flag false)
    ∷ ("reason", reason)
    ∷ ("approver_name", text_or_none a.name)
    ∷ ("approver_id", text_or_none a.id)
    ∷ ("approver_source", text_or_none a.source)
    ∷ ("decided_at", text decided_at)
    ∷ [])

-- What a claim that failed is answered.
abbrev pub refusal : Option GraphRun → HttpError
refusal none = not_found
refusal (some run) = conflict

-- The approver's Slack id, which is written to the checkpoint and to the run's state.
abbrev pub with_slack_id : Approver → State → State
with_slack_id a state =
    if a.slack_id == "" then state else insert "_slack_approver_id" (text a.slack_id) state

-- What is done before the stream to the values of the checkpoint, and to the run's state.
abbrev pub approver_known : Approver → Runner → Runner
approver_known a runner = record runner { values = with_slack_id a runner.values }

abbrev pub with_approver : Approver → GraphRun → GraphRun
with_approver a run = record run { state = with_slack_id a run.state }

module _ (mongo : Collection GraphRun) where
  open mongo use {Store, find_one}

  pub record Container : Type 0 where
    pub runs : Store
    pub live_runners : Dict Runner
    pub registry : Dict Runner

  -- container.live_runners.get(run_id) or container.yaml_graph_registry.get(run.graph_id)
  abbrev pub runner_of : GraphRun → String → Container → Option Runner
  runner_of run run_id c = or_else (lookup run_id c.live_runners) (lookup run.graph_id c.registry)

  -- The step that waited is shown as finished at once.
  unfoldable pub finish_step : GraphRun → Store → World mongo
  finish_step run s = elim run.current_step [
    | none ↦ record { run = run; stored = s }
    | some id ↦
        persist mongo
          (record run { step_statuses = insert id StepStatus.finished run.step_statuses })
          (record { run = run; stored = s })
  ]

  -- stream_graph_to_pause(runner, run, …, Command(resume=decision))
  abbrev pub resumed : Outlet → Runner → Value → World mongo → World mongo
  resumed outlet runner decision w =
      (stream_graph_to_pause mongo outlet runner.steps runner.graph (resume decision) runner.values
        w).0

  -- The live runner of a run that is over is dropped.
  unfoldable pub close : String → World mongo → Container → Response Status × Container
  close run_id w c = (
    ok w.run.status,
    record c {
      runs = w.stored;
      live_runners =
          if is_terminal w.run.status then remove run_id c.live_runners else c.live_runners;
    },
  )

  -- A rejected run that ran to its end is rejected, not completed.
  unfoldable pub mark_rejected : World mongo → World mongo
  mark_rejected w = elim w.run.status [
    | Status.completed ↦ persist mongo (record w.run { status = Status.rejected }) w
    | _ ↦ w
  ]

  -- The body behind the claim, with what is done to the run before and after the stream.
  unfoldable pub resume_claimed :
      Outlet
      → (Runner → Runner)
      → (GraphRun → GraphRun)
      → (World mongo → World mongo)
      → Value
      → String
      → Option GraphRun
      → Container
      → Response Status × Container
  unfolding finish_step close
  resume_claimed outlet known prepared after decision run_id none c =
      (error (refusal (find_one run_id c.runs)), c)
  resume_claimed outlet known prepared after decision run_id (some run) c =
      elim (runner_of run run_id c) [
        | none ↦ (error not_found, c)
        | some runner ↦
            close run_id
              (after (
                resumed (silent outlet) (known runner) decision
                  (finish_step (prepared run) c.runs)))
              c
      ]

  unfoldable pub do_approve :
      Outlet → Approver → String → String → Container → Response Status × Container
  unfolding resume_claimed
  do_approve outlet approver decided_at run_id c =
      let (claim, runs) = claim_for_resume mongo run_id c.runs in
      resume_claimed outlet (approver_known approver) (with_approver approver) (λ w. w)
        (approve_decision approver decided_at) run_id claim (record c { runs = runs })

  unfoldable pub do_reject :
      Outlet → Value → Approver → String → String → Container → Response Status × Container
  unfolding resume_claimed mark_rejected
  do_reject outlet reason approver decided_at run_id c =
      let (claim, runs) = claim_for_resume mongo run_id c.runs in
      resume_claimed outlet (λ runner. runner) (λ run. run) mark_rejected
        (reject_decision reason approver decided_at) run_id claim (record c { runs = runs })
