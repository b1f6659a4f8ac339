-- ===== src/Examples/Workflows.antt =====
-- The routes on concrete runs: retries, restarts, terminations, and requests to a rejected run.
use langgraph_backend.Base.{false, true, ◌≡◌, refl, false, none, some, [], ◌∷◌, arith, eq_iff}
use langgraph_backend.Base.Dict.{lookup}
use langgraph_backend.Value.{Value, null, text, int, Fields, field, end, record_of}
use langgraph_backend.Base.Int.{pos}
use langgraph_backend.GraphRun.{GraphRun, Status, StepStatus}
use langgraph_backend.Mongo.Memory.{memory}
use langgraph_backend.Stream.{initial, nothing}
use langgraph_backend.Stream.Settle.{active_interrupt_type}
use langgraph_backend.Stream.Whole.{ended}
use langgraph_backend.Stream.Whole.Saved.{IsSaved}
use langgraph_backend.Stream.Whole.Outcomes.{ended_status}
use langgraph_backend.Recovery.{Build, Reseed, build_runner_for_recovery, last_done}
use langgraph_backend.Approval.{Runner, Container, ok}
use langgraph_backend.Workflows.Status.{langgraph_status, next_step}
use langgraph_backend.Workflows.Status.Agreement.{paused_at, langgraph_status_agrees}
use langgraph_backend.Workflows.Stream.{on_chunk, stream_graph}
use langgraph_backend.Workflows.Stream.Saved.{end_status, end_step, stream_graph_lem}
use langgraph_backend.Workflows.Tasks.{retry_graph}
use langgraph_backend.Workflows.Routes.{terminate_run, terminated}
use langgraph_backend.Workflows.Routes.Overwrites.{streaming, terminate_undone}
use langgraph_backend.Workflows.Restart.{resume_point, retried, retry_state, retry_run}
use langgraph_backend.Workflows.Restart.Statuses.{any_failed}
use langgraph_backend.Workflows.Restart.Runs.{retry_run_lem}
use langgraph_backend.Workflows.Requests.{handle, here, next, terminate}
use langgraph_backend.Workflows.Requests.Stores.{IsKeyed}
use langgraph_backend.Workflows.Requests.Final.{final_runs_stay}
use langgraph_backend.Examples.{
  outlet, db, steps, draft_state, pausing, pause, fresh_run, waiting_run, holding, world_of,
}

abbrev counts : Value
counts = record_of (("draft", int (pos 1)) ∷ [])

-- The draft is done, and the review failed.
abbrev broken_run : GraphRun
broken_run = record fresh_run {
  status = Status.failed;
  step_statuses = ("draft", StepStatus.finished) ∷ ("review", StepStatus.failed) ∷ [];
  step_outputs =
      ("draft", record_of (("draft", text "a plan") ∷ ("_visit_counts", counts) ∷ [])) ∷ [];
  state = ("__failed_step__", text "review") ∷ [];
}

abbrev runner : Runner
runner = record { steps = steps; graph = pausing; values = draft_state }

abbrev container : GraphRun → Container db
container run = record { runs = holding run; live_runners = []; registry = ("wf", runner) ∷ [] }

abbrev make_runner : Build
make_runner definition = none

abbrev reseed : Reseed
reseed r values as_node = some (record r { values = values })

stream_graph_lem_example :
    let w = (stream_graph db outlet steps pausing (initial []) [] (world_of fresh_run)).0 in
    IsSaved db w
    × (w.run.status ≡ end_status steps (ended pause))
    × (w.run.current_step ≡ end_step (ended pause))
stream_graph_lem_example =
    stream_graph_lem db outlet steps pausing (initial []) [] (world_of fresh_run)

abbrev asks : Fields
asks = field "type" (text "ask_context") end

langgraph_status_agrees_example :
    let snap = paused_at false true "review" asks [] in
    langgraph_status snap steps
    ≡ ended_status steps (active_interrupt_type snap null) (next_step snap)
unfolding lookup
langgraph_status_agrees_example =
    langgraph_status_agrees steps false true "review" asks [] refl refl refl

terminate_undone_example :
    let reply = terminate_run db "run-1" (container fresh_run) in
    let s = on_chunk db "draft" (text "a plan") (streaming db fresh_run [] reply.container.runs) in
    (reply.response ≡ ok (terminated fresh_run))
    × (db.find_one "run-1" reply.container.runs ≡ some (terminated fresh_run))
    × ((terminated fresh_run).status ≡ Status.failed)
    × (db.find_one "run-1" s.world.stored ≡ some s.world.run)
    × (s.world.run.status ≡ Status.running)
unfolding memory holding lookup
terminate_undone_example =
    terminate_undone db "draft" (text "a plan") fresh_run fresh_run [] (container fresh_run) refl
      refl refl refl

abbrev seeded : Runner
seeded = record runner { values = retry_state steps broken_run }

retry_run_lem_example :
    let reply = retry_run db make_runner reseed "run-1" (container broken_run) in
    let run' = retried steps broken_run in
    (reply.response ≡ ok run')
    × (db.find_one "run-1" reply.container.runs ≡ some run')
    × (lookup "run-1" reply.container.live_runners ≡ some seeded)
    × (reply.task ≡ some (retry_graph seeded run' nothing))
    × (run'.status ≡ Status.running)
    × (any_failed steps run'.step_statuses ≡ false)
unfolding memory holding lookup build_runner_for_recovery resume_point last_done
retry_run_lem_example =
    retry_run_lem db make_runner reseed "run-1" broken_run runner seeded nothing
      (container broken_run) refl refl refl refl

abbrev rejected_run : GraphRun
rejected_run = record waiting_run { status = Status.rejected }

pub holding-IsKeyed : (run : GraphRun) → IsKeyed db (holding run)
unfolding memory holding lookup
holding-IsKeyed run i d h = ground (arith, eq_iff run.id i)

final_runs_stay_example :
    let c = container rejected_run in
    let d = (handle db make_runner reseed none (terminate "run-1") c).container in
    (db.find_one "run-1" d.runs ≡ some rejected_run) × IsKeyed db d.runs
unfolding memory holding lookup
final_runs_stay_example =
    final_runs_stay db make_runner reseed none "run-1" rejected_run (container rejected_run)
      (handle db make_runner reseed none (terminate "run-1") (container rejected_run)).container
      refl (holding-IsKeyed rejected_run) refl (next here (terminate "run-1") refl)
