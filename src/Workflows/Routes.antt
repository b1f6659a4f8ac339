-- ===== src/Workflows/Routes.antt =====
-- The routes of app/api/routes/workflows.py that start, answer, end and delete runs. A route gives
-- its answer, the run that it shows, what it leaves in the container, the task that runs behind it,
-- and what it does elsewhere.
pub mod Overwrites
use langgraph_backend.Base.{
  String, Bool, true, false, Option, none, some, List, [], ◌∷◌, if◌then◌else◌,
}
use langgraph_backend.Base.Dict.{lookup, insert, remove}
use langgraph_backend.Value.{Value, text, State, get}
use langgraph_backend.GraphRun.{GraphRun, Status, new_run}
use langgraph_backend.Mongo.{Collection}
use langgraph_backend.Mongo.Runs.{create, save, claim_for_resume}
use langgraph_backend.Definition.{WorkflowDefinition, to_raw_dict}
use langgraph_backend.Recovery.{Build}
use langgraph_backend.Stream.{Effect, cleanup_agents}
use langgraph_backend.Approval.{
  Runner, HttpError, not_found, conflict, internal, Response, ok, error, Container, refusal,
  finish_step,
}
use langgraph_backend.Workflows.Display.{value_or}
use langgraph_backend.Workflows.Tasks.{Task, execute_graph, resume_approved, resume_rejected}

pub record RunRequest : Type 0 where
  pub workflow_id : String
  pub user_request : String

abbrev pub approver_name : State → Value
approver_name claims =
    value_or (value_or (get "name" claims) (get "preferred_username" claims)) (get "email" claims)

abbrev pub approver_id : State → Value
approver_id claims = get "sub" claims

-- status in ("running", "waiting_agent")
abbrev pub is_active : Status → Bool
is_active Status.running = true
is_active Status.waiting_agent = true
is_active _ = false

abbrev pub approval_task : Value → State → Runner → GraphRun → Task
approval_task corrections claims runner run =
    resume_approved runner run corrections (approver_name claims) (approver_id claims)

abbrev pub rejection_task : Value → State → Runner → GraphRun → Task
rejection_task reason claims runner run =
    resume_rejected runner run reason (approver_name claims) (approver_id claims)

unfoldable pub terminated : GraphRun → GraphRun
terminated run = record run {
  status = Status.failed;
  state = insert "error" (text "Terminated by user") run.state;
}

module _ (mongo : Collection GraphRun) where
  open mongo use {find_one}

  pub record Reply : Type 0 where
    pub response : Response GraphRun
    pub container : Container mongo
    pub task : Option Task
    pub effects : List Effect

  abbrev pub refused : HttpError → Container mongo → Reply
  refused e c = record { response = error e; container = c; task = none; effects = [] }

  -- The registry's runner may be of a newer definition, so it serves only runs without a snapshot.
  unfoldable pub get_runner_for_run : GraphRun → Container mongo → Option Runner
  get_runner_for_run run c = elim (lookup run.id c.live_runners) [
    | some runner ↦ some runner
    | none ↦ elim run.workflow_definition [
      | none ↦ lookup run.graph_id c.registry
      | some definition ↦ none
    ]
  ]

  -- The runner is live before the run is stored; `snapshot` is the raw definition.
  unfoldable pub launch : String → RunRequest → Runner → Option State → Container mongo → Reply
  launch thread_id body runner snapshot c =
      let run = record (new_run thread_id body.workflow_id body.user_request []) {
        workflow_definition = snapshot;
      } in
      let live = record c { live_runners = insert thread_id runner c.live_runners } in
      elim (create mongo run c.runs) [
        | none ↦ refused internal live
        | some runs ↦ record {
          response = ok run;
          container = record live { runs = runs };
          task = some (execute_graph runner run);
          effects = [];
        }
      ]

  -- `backend` gives the definitions, where one is configured; `thread_id` is the drawn id.
  unfoldable pub start_run :
      Build
      → Option (String → Option WorkflowDefinition)
      → String
      → RunRequest
      → Container mongo
      → Reply
  unfolding launch to_raw_dict
  start_run build none thread_id body c = elim (lookup body.workflow_id c.registry) [
    | none ↦ refused not_found c
    | some runner ↦ launch thread_id body runner none c
  ]
  start_run build (some definition_of) thread_id body c = elim (definition_of body.workflow_id) [
    | none ↦ refused not_found c
    | some d ↦ elim (build (to_raw_dict d)) [
      | none ↦ refused internal c
      | some runner ↦ launch thread_id body runner (some (to_raw_dict d)) c
    ]
  ]

  -- What `approve_run` and `reject_run` share: `claim` is the run that was claimed, if any, and
  -- `task` what resumes it.
  unfoldable pub answer_run :
      (Runner → GraphRun → Task) → String → Option GraphRun → Container mongo → Reply
  unfolding get_runner_for_run finish_step
  answer_run task run_id none c = refused (refusal (find_one run_id c.runs)) c
  answer_run task run_id (some run) c = elim (get_runner_for_run run c) [
    | none ↦ refused not_found c
    | some runner ↦
        let w = finish_step mongo run c.runs in
        record {
          response = ok w.run;
          container = record c { runs = w.stored };
          task = some (task runner w.run);
          effects = [];
        }
  ]

  unfoldable pub approve_run : Value → State → String → Container mongo → Reply
  unfolding answer_run
  approve_run corrections claims run_id c =
      let (claim, runs) = claim_for_resume mongo run_id c.runs in
      answer_run (approval_task corrections claims) run_id claim (record c { runs = runs })

  unfoldable pub reject_run : Value → State → String → Container mongo → Reply
  unfolding answer_run
  reject_run reason claims run_id c =
      let (claim, runs) = claim_for_resume mongo run_id c.runs in
      answer_run (rejection_task reason claims) run_id claim (record c { runs = runs })

  -- The run that is answered is the one that was found.
  unfoldable pub delete_run : String → Container mongo → Reply
  delete_run run_id c = elim (find_one run_id c.runs) [
    | none ↦ refused not_found c
    | some run ↦ record {
      response = ok run;
      container = record c {
        runs = mongo.delete_one run_id c.runs;
        live_runners = remove run_id c.live_runners;
      };
      task = none;
      effects = cleanup_agents run_id ∷ [];
    }
  ]

  unfoldable pub terminate_run : String → Container mongo → Reply
  unfolding terminated
  terminate_run run_id c = elim (find_one run_id c.runs) [
    | none ↦ refused not_found c
    | some run ↦
        if is_active run.status
        then record {
          response = ok (terminated run);
          container = record c {
            runs = save mongo (terminated run) c.runs;
            live_runners = remove run_id c.live_runners;
          };
          task = none;
          effects = cleanup_agents run_id ∷ [];
        }
        else refused conflict c
  ]
