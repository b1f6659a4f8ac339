-- ===== src/Examples/Streams.antt =====
-- Streams that pause, fail, and start from a stale failure.
use langgraph_backend.Base.{◌≡◌, ◌≢◌, refl, true, false, none, some, List, [], ◌∷◌}
use langgraph_backend.Base.Dict.{lookup}
use langgraph_backend.Value.{null, text, flag, State, get}
use langgraph_backend.GraphRun.{Status, RoutingEvent, EventKind}
use langgraph_backend.Stream.{initial, resume, is_stale, last_route}
use langgraph_backend.Stream.Failure.{on_exception}
use langgraph_backend.Stream.Settle.{effective_next, settle}
use langgraph_backend.Stream.Whole.{stream_graph_to_pause}
use langgraph_backend.Stream.Whole.Saved.{IsSaved, stream-IsSaved}
use langgraph_backend.Stream.Whole.Outcomes.{on_exception_lem}
use langgraph_backend.Stream.Whole.Pauses.{stream_not_running, settle_resets_approval}
use langgraph_backend.Stream.Whole.Stale.{stale_decision_lost}
use langgraph_backend.Examples.{
  db, outlet, steps, review, fresh_run, waiting_run, world_of, draft_state, pause, pausing,
}

stream-IsSaved_example :
    IsSaved db
      (stream_graph_to_pause db outlet steps pausing (initial []) [] (world_of fresh_run)).0
stream-IsSaved_example = stream-IsSaved db outlet steps pausing (initial []) [] (world_of fresh_run)

stream_not_running_example :
    (stream_graph_to_pause db outlet steps pausing
      (initial [])
      []
      (world_of fresh_run)).0.run.status
    ≢ Status.running
stream_not_running_example =
    stream_not_running db outlet steps pausing (initial []) [] (world_of fresh_run)

settle_resets_approval_example :
    let run = (settle db false steps pause null (world_of waiting_run)).0.run in
    (run.status ≡ Status.waiting_approval) × (get "approved" run.state ≡ flag false)
unfolding effective_next
settle_resets_approval_example =
    settle_resets_approval db false steps pause null (world_of waiting_run) "review" review refl
      refl refl refl

on_exception_lem_example :
    let run = (on_exception db true "boom" draft_state [] (world_of waiting_run)).0.run in
    (run.status ≡ Status.failed)
    × (run.current_step ≡ none)
    × (lookup "error" run.state ≡ some (text "boom"))
on_exception_lem_example = on_exception_lem db true "boom" draft_state [] (world_of waiting_run)

-- The draft failed, and the router led back to it.
abbrev retry_log : List RoutingEvent
retry_log =
    record {
      event = EventKind.route;
      node = "draft";
      target = "draft";
      condition = "";
      iteration = 1;
    }
    ∷ []

abbrev failed_values : State
failed_values = ("__failed_step__", text "draft") ∷ []

stale_decision_lost_example :
    let w = world_of (record waiting_run { routing_log = retry_log }) in
    stream_graph_to_pause db outlet steps pausing (resume (flag true)) failed_values w
    ≡ stream_graph_to_pause db outlet steps pausing (resume (flag false)) failed_values w
unfolding is_stale lookup last_route
stale_decision_lost_example =
    stale_decision_lost db outlet steps pausing (flag true) (flag false) failed_values
      (world_of (record waiting_run { routing_log = retry_log })) refl
