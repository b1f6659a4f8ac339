-- ===== src/Workflows/Requests/Final.antt =====
-- Runs that are cancelled or rejected stay as they are, whatever the requests.
use langgraph_backend.Base.{String, ◌≡◌, true, false, Option, some, Option-cases, inl, inr}
use langgraph_backend.GraphRun.{GraphRun}
use langgraph_backend.Mongo.{Collection}
use langgraph_backend.Mongo.Runs.{claim_for_resume}
use langgraph_backend.Definition.{WorkflowDefinition}
use langgraph_backend.Recovery.{Build, Reseed}
use langgraph_backend.Approval.{Container}
use langgraph_backend.Workflows.Routes.{
  approval_task, rejection_task, approve_run, reject_run, delete_run,
}
use langgraph_backend.Workflows.Requests.{
  Request, deletes, is_final, handle, Reached, here, next, start, approve, reject, terminate, retry,
  delete, restart,
}
use langgraph_backend.Workflows.Requests.Stores.{
  IsKeyed, Keeps, claim-Keeps, delete-Keeps, claim_found,
}
use langgraph_backend.Workflows.Requests.Preserved.{
  start-Keeps, answer-Keeps, terminate-Keeps, retry_preserves, restart_preserves,
}

module _ (mongo : Collection GraphRun) (build : Build) (reseed : Reseed)
    (backend : Option (String → Option WorkflowDefinition)) where
  open mongo use {find_one}

  module _ (run_id : String) (run : GraphRun) (final : is_final run.status ≡ true) where
    handle-Keeps :
        (r : Request) (c : Container mongo)
        → deletes run_id r ≡ false
        → Keeps mongo run_id run c.runs
        → Keeps mongo run_id run (handle mongo build reseed backend r c).container.runs
    unfolding handle approve_run reject_run delete_run
    handle-Keeps (start thread_id body) c n k =
        start-Keeps mongo build reseed run_id run final backend thread_id body c k
    handle-Keeps (approve corrections claims i) c n k =
        answer-Keeps mongo build reseed run_id run final (approval_task corrections claims) i
          (claim_for_resume mongo i c.runs).0
          (record c { runs = (claim_for_resume mongo i c.runs).1 })
          (claim-Keeps mongo run_id run final i c.runs k)
          (λ r h. claim_found mongo run_id run final i r c.runs h)
    handle-Keeps (reject reason claims i) c n k =
        answer-Keeps mongo build reseed run_id run final (rejection_task reason claims) i
          (claim_for_resume mongo i c.runs).0
          (record c { runs = (claim_for_resume mongo i c.runs).1 })
          (claim-Keeps mongo run_id run final i c.runs k)
          (λ r h. claim_found mongo run_id run final i r c.runs h)
    handle-Keeps (terminate i) c n k = terminate-Keeps mongo build reseed run_id run final i c k
    handle-Keeps (retry i) c n k = retry_preserves mongo build reseed run_id run final i c k
    handle-Keeps (delete i) c n k = elim (Option-cases (find_one i c.runs)) [
      | inl e ↦ rw (e, delete_run) k
      | inr (r, e) ↦ rw (e, delete_run) (delete-Keeps mongo run_id run final i c.runs k n)
    ]
    handle-Keeps (restart id i) c n k =
        restart_preserves mongo build reseed run_id run final id i c k

    Reached-Keeps :
        (c d : Container mongo)
        → Reached mongo build reseed backend run_id c d
        → Keeps mongo run_id run c.runs
        → Keeps mongo run_id run d.runs
    Reached-Keeps c d here k = k
    Reached-Keeps c d (next reached r n) k = handle-Keeps r _ n (Reached-Keeps c _ reached k)

  -- A stored run that is cancelled or rejected is exactly as it was behind any sequence of requests
  -- to start, answer, end, retry, restart and delete runs, none of which deletes this run; and every
  -- run is stored under its own id behind them, if it was before.
  pub final_runs_stay :
      (run_id : String) (run : GraphRun) (c d : Container mongo)
      → is_final run.status ≡ true
      → IsKeyed mongo c.runs
      → find_one run_id c.runs ≡ some run
      → Reached mongo build reseed backend run_id c d
      → (find_one run_id d.runs ≡ some run) × IsKeyed mongo d.runs
  final_runs_stay run_id run c d final keyed f reached =
      let k = Reached-Keeps run_id run final c d reached (keyed, f) in (k.1, k.0)
