-- ===== src/Workflows/Restart/Runs.antt =====
-- A retry as a whole.
use langgraph_backend.Base.{String, ◌≡◌, refl, ap, true, false, some}
use langgraph_backend.Base.Dict.{lookup, lookup-inserted}
use langgraph_backend.GraphRun.{GraphRun, Status}
use langgraph_backend.Mongo.{Collection}
use langgraph_backend.Mongo.Runs.{find-save}
use langgraph_backend.Stream.{Input}
use langgraph_backend.Recovery.{Build, Reseed, build_runner_for_recovery, last_done}
use langgraph_backend.Approval.{Runner, Container, ok}
use langgraph_backend.Workflows.Tasks.{retry_graph}
use langgraph_backend.Workflows.Restart.{
  is_failed, retry_run, retry_with, retried, retry_state, resume_point,
}
use langgraph_backend.Workflows.Restart.Statuses.{any_failed, retried_none_failed}

failed_status : {s : Status} → s ≡ Status.failed → is_failed s ≡ true
failed_status h = ap is_failed h

-- A retry of a failed run, with a runner and a checkpoint that LangGraph accepts, stores the run as
-- running with no failed step, makes that runner live, and leaves the run to be streamed from the
-- checkpoint.
pub retry_run_lem :
    (mongo : Collection GraphRun) (build : Build) (reseed : Reseed) (run_id : String)
    (run : GraphRun) (runner seeded : Runner) (input : Input) (c : Container mongo)
    → mongo.find_one run_id c.runs ≡ some run
    → run.status ≡ Status.failed
    → build_runner_for_recovery build c.registry run ≡ some runner
    → resume_point reseed (last_done run runner.steps) (retry_state runner.steps run) runner
      ≡ some (seeded, input)
    → let reply = retry_run mongo build reseed run_id c in
      let run' = retried runner.steps run in
      (reply.response ≡ ok run')
      × (mongo.find_one run.id reply.container.runs ≡ some run')
      × (lookup run.id reply.container.live_runners ≡ some seeded)
      × (reply.task ≡ some (retry_graph seeded run' input))
      × (run'.status ≡ Status.running)
      × (any_failed runner.steps run'.step_statuses ≡ false)
unfolding retry_run retry_with retried
retry_run_lem mongo build reseed run_id run runner seeded input c f s b p =
    rw (f, retry_run)
      (rw (failed_status s) (
        rw b (
          rw (p, retry_with)
            (
              refl,
              find-save mongo (retried runner.steps run) c.runs,
              lookup-inserted run.id seeded c.live_runners,
              refl,
              refl,
              retried_none_failed runner.steps run,
            ))))
