-- ===== src/Workflows/Stream/Saved.antt =====
-- What `_stream_graph` leaves behind, however the stream goes.
use langgraph_backend.Base.{String, ◌≡◌, ◌∙◌, refl, Option, none, some, List, arith}
use langgraph_backend.Value.{State}
use langgraph_backend.GraphRun.{GraphRun, Status}
use langgraph_backend.Mongo.{Collection}
use langgraph_backend.Mongo.Runs.{find-save}
use langgraph_backend.Step.{Step}
use langgraph_backend.Guards.{World}
use langgraph_backend.Stream.{Input}
use langgraph_backend.Stream.Settle.{Snapshot, agent_url_of}
use langgraph_backend.Stream.Whole.{End, ended, failed, Graph}
use langgraph_backend.Stream.Whole.Saved.{IsSaved, send-IsSaved, send_keeps}
use langgraph_backend.Stream.Notices.{Outlet, notify_graph_pause}
use langgraph_backend.Workflows.Status.{langgraph_status, next_step}
use langgraph_backend.Workflows.Stream.{
  Progress, settle_graph, fail_graph, finish_graph, stream_graph, with_url, with_agent_url,
}

-- The status and the current step with which a stream ends.
abbrev pub end_status : List Step → End → Status
end_status steps (ended snap) = langgraph_status snap steps
end_status steps (failed message values) = Status.failed

abbrev pub end_step : End → Option String
end_step (ended snap) = next_step snap
end_step (failed message values) = none

with_url_keeps :
    (url : Option String) (run : GraphRun)
    → ((with_url url run).status ≡ run.status)
      × ((with_url url run).current_step ≡ run.current_step)
with_url_keeps none run = (refl, refl)
with_url_keeps (some url) run = (refl, refl)

with_agent_url_keeps :
    (snap : Snapshot) (run : GraphRun)
    → ((with_agent_url snap run).status ≡ run.status)
      × ((with_agent_url snap run).current_step ≡ run.current_step)
with_agent_url_keeps snap run =
    ground (arith, with_url_keeps (agent_url_of snap.tasks snap.interrupts) run)

module _ (mongo : Collection GraphRun) where
  finish_graph_lem :
      (outlet : Outlet) (steps : List Step) (end : End) (s : Progress mongo)
      → let w = (finish_graph mongo outlet steps end s).0 in
        IsSaved mongo w
        × (w.run.status ≡ end_status steps end)
        × (w.run.current_step ≡ end_step end)
  unfolding finish_graph settle_graph fail_graph notify_graph_pause
  finish_graph_lem outlet steps (ended snap) s =
      let url = with_agent_url_keeps snap _ in
      let kept = send_keeps mongo outlet.post _ _ in
      (
        send-IsSaved mongo outlet.post _ _ (find-save mongo _ s.stored),
        kept.0 ∙ url.0,
        kept.1 ∙ url.1,
      )
  finish_graph_lem outlet steps (failed message values) s = (find-save mongo _ s.stored, refl, refl)

  -- However the stream goes: the stored run is the run in memory when `_stream_graph` returns, with
  -- the status failed and no current step if the stream raised, and else with the status and the
  -- next step of LangGraph's snapshot, whatever was sent to Slack or to the webhook of the step.
  pub stream_graph_lem :
      (outlet : Outlet) (steps : List Step) (graph : Graph) (input : Input) (values : State)
      (w : World mongo)
      → let end = (graph input).1 in
        let w' = (stream_graph mongo outlet steps graph input values w).0 in
        IsSaved mongo w'
        × (w'.run.status ≡ end_status steps end)
        × (w'.run.current_step ≡ end_step end)
  unfolding stream_graph
  stream_graph_lem outlet steps graph input values w =
      finish_graph_lem outlet steps (graph input).1 _
