-- ===== src/Workflows/Requests.antt =====
-- Requests to the routes of app/api/routes/workflows.py, one after the other, and the containers that they lead to.
pub mod Stores
pub mod Preserved
pub mod Final
use langgraph_backend.Base.{
  String, ◌≡◌, ◌≢◌, refl, sym, ◌∙◌, Bool, true, false, Option, none, some, ◌==◌, if◌then◌else◌,
  arith, eq_iff, Option-cases, Bool-cases, inl, inr,
}
use langgraph_backend.Base.Dict.{lookup}
use langgraph_backend.Value.{Value, State}
use langgraph_backend.GraphRun.{GraphRun, Status, is_waiting_approval}
use langgraph_backend.Mongo.{Collection}
use langgraph_backend.Mongo.Runs.{create, save, claim_for_resume}
use langgraph_backend.Mongo.Claim.{find-claim, claim_for_resume_lem}
use langgraph_backend.Definition.{WorkflowDefinition, to_raw_dict}
use langgraph_backend.Recovery.{Build, Reseed, build_runner_for_recovery, last_done}
use langgraph_backend.Approval.{Runner, Container, finish_step}
use langgraph_backend.Workflows.Tasks.{Task}
use langgraph_backend.Workflows.Routes.{
  RunRequest, Reply, get_runner_for_run, launch, start_run, answer_run, approve_run, reject_run,
  delete_run, terminate_run, terminated, is_active,
}
use langgraph_backend.Workflows.Restart.{
  retry_run, retry_with, restart_from_step, restart_with, retried, restarted, reset_steps,
  resume_point, retry_state, restart_state, is_failed, refuses_restart, steps_before, steps_from,
}

-- A request, with the id that is drawn for a new run.
pub data Request : Type 0 where
  start : String → RunRequest → Request
  approve reject : Value → State → String → Request
  terminate retry delete : String → Request
  restart : String → String → Request

abbrev pub deletes : String → Request → Bool
deletes run_id (delete id) = id == run_id
deletes run_id _ = false

-- status in ("cancelled", "rejected")
abbrev pub is_final : Status → Bool
is_final Status.cancelled = true
is_final Status.rejected = true
is_final _ = false

module _ (mongo : Collection GraphRun) (build : Build) (reseed : Reseed)
    (backend : Option (String → Option WorkflowDefinition)) where
  open mongo use {Store, find_one}

  unfoldable pub handle : Request → Container mongo → Reply mongo
  unfolding start_run approve_run reject_run terminate_run delete_run retry_run restart_from_step
  handle (start thread_id body) c = start_run mongo build backend thread_id body c
  handle (approve corrections claims run_id) c = approve_run mongo corrections claims run_id c
  handle (reject reason claims run_id) c = reject_run mongo reason claims run_id c
  handle (terminate run_id) c = terminate_run mongo run_id c
  handle (retry run_id) c = retry_run mongo build reseed run_id c
  handle (delete run_id) c = delete_run mongo run_id c
  handle (restart id run_id) c = restart_from_step mongo build reseed id run_id c

  -- The containers that requests lead to, none of which deletes the run.
  pub data Reached (run_id : String) (c : Container mongo) : Container mongo → Type 0 where
    here : Reached run_id c c
    next :
        {d : Container mongo}
        → Reached run_id c d
        → (r : Request) → deletes run_id r ≡ false
        → Reached run_id c (handle r d).container
