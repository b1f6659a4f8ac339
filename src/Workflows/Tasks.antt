-- ===== src/Workflows/Tasks.antt =====
-- The background tasks of app/api/routes/workflows.py: `_execute_graph`, `_resume_approved`,
-- `_resume_rejected` and `_retry_graph`.
use langgraph_backend.Base.{String, Bool, true, false, List, [], ◌∷◌, ◌++◌, if◌then◌else◌, map}
use langgraph_backend.Base.Dict.{Dict, remove}
use langgraph_backend.Value.{Value, text, flag, record_of}
use langgraph_backend.GraphRun.{GraphRun, Status, StepStatus, is_terminal}
use langgraph_backend.Mongo.{Collection}
use langgraph_backend.Guards.{World}
use langgraph_backend.Recovery.{request_only}
use langgraph_backend.Stream.{Input, initial, resume, Effect, cleanup_agents}
use langgraph_backend.Approval.{Runner, Container, mark_rejected}
use langgraph_backend.Stream.Notices.{Outlet}
use langgraph_backend.Workflows.Stream.{stream_graph}

pub data Task : Type 0 where
  execute_graph : Runner → GraphRun → Task
  -- with the corrections, or the reason, and the name and id of who decided
  resume_approved resume_rejected : Runner → GraphRun → Value → Value → Value → Task
  retry_graph : Runner → GraphRun → Input → Task

abbrev pub init_step_statuses : Runner → Dict StepStatus
init_step_statuses runner = map (λ s. (s.id, StepStatus.pending)) runner.steps

abbrev pub approval : Value → Value → Value → String → Value
approval corrections approver_name approver_id decided_at = record_of (
    ("approved", flag true)
    ∷ ("corrections", corrections)
    ∷ ("approver_name", approver_name)
    ∷ ("approver_id", approver_id)
    ∷ ("approver_source", text "ui")
    ∷ ("decided_at", text decided_at)
    ∷ [])

abbrev pub rejection : Value → Value → Value → String → Value
rejection reason approver_name approver_id decided_at = record_of (
    ("approved", flag false)
    ∷ ("reason", reason)
    ∷ ("approver_name", approver_name)
    ∷ ("approver_id", approver_id)
    ∷ ("approver_source", text "ui")
    ∷ ("decided_at", text decided_at)
    ∷ [])

abbrev pub removes_agents : Status → Bool
removes_agents Status.cancelled = true
removes_agents Status.rejected = true
removes_agents _ = false

module _ (mongo : Collection GraphRun) where
  abbrev pub streamed :
      Outlet → Runner → Input → GraphRun → Container mongo → World mongo × List Effect
  streamed outlet runner input run c =
      stream_graph mongo outlet runner.steps runner.graph input runner.values
        (record { run = run; stored = c.runs })

  -- The runner of a run that is over is dropped.
  abbrev pub release : World mongo → Container mongo → Container mongo
  release w c = record c {
    runs = w.stored;
    live_runners =
        if is_terminal w.run.status then remove w.run.id c.live_runners else c.live_runners;
  }

  unfoldable pub perform : Outlet → String → Task → Container mongo → Container mongo × List Effect
  unfolding mark_rejected
  perform outlet decided_at (execute_graph runner run) c =
      let (w, sent) =
        streamed outlet runner (initial (request_only run))
          (record run { step_statuses = init_step_statuses runner }) c in
      (release w c, sent)
  perform outlet decided_at (resume_approved runner run corrections name id) c =
      let (w, sent) =
        streamed outlet runner (resume (approval corrections name id decided_at)) run c in
      (release w c, sent)
  perform outlet decided_at (resume_rejected runner run reason name id) c =
      let (streamed_world, sent) =
        streamed outlet runner (resume (rejection reason name id decided_at)) run c in
      let w = mark_rejected mongo streamed_world in
      (
        release w c,
        sent ++ (if removes_agents w.run.status then cleanup_agents w.run.id ∷ [] else []),
      )
  perform outlet decided_at (retry_graph runner run input) c =
      let (w, sent) = streamed outlet runner input run c in (release w c, sent)
