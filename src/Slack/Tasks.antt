-- ===== src/Slack/Tasks.antt =====
-- The tasks behind a request of Slack, one after the other, on the application's container. A
-- message to Slack changes nothing in it.
use langgraph_backend.Base.{String, List, [], ◌∷◌}
use langgraph_backend.Value.{null}
use langgraph_backend.GraphRun.{GraphRun}
use langgraph_backend.Mongo.{Collection}
use langgraph_backend.Approval.{Container, do_approve, do_reject}
use langgraph_backend.Slack.{Task, reply_in_thread, approve_task, reject_task, resume_context}
use langgraph_backend.Slack.Resume.{Rewind, resume_ask_context}
use langgraph_backend.Stream.Notices.{Outlet}

module _ (mongo : Collection GraphRun) (outlet : Outlet) (rewind : Rewind)
    (decided_at : String) where
  unfoldable pub run_task : Task → Container mongo → Container mongo
  unfolding do_approve do_reject resume_ask_context
  run_task (reply_in_thread channel ts message) c = c
  run_task (approve_task approver run_id) c =
      (do_approve mongo outlet approver decided_at run_id c).1
  run_task (reject_task approver run_id) c =
      (do_reject mongo outlet null approver decided_at run_id c).1
  run_task (resume_context run runner answers) c =
      resume_ask_context mongo outlet rewind run runner answers c

  unfoldable pub run_tasks : List Task → Container mongo → Container mongo
  unfolding run_task
  run_tasks [] c = c
  run_tasks (t ∷ ts) c = run_tasks ts (run_task t c)
