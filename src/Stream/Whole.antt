-- ===== src/Stream/Whole.antt =====
-- `stream_graph_to_pause` as a whole, and what holds whenever it returns.
pub mod Saved
pub mod Outcomes
pub mod Ends
pub mod Pauses
pub mod Stale
use langgraph_backend.Base.{String, Bool, Option, none, some, List, [], ◌++◌}
use langgraph_backend.Value.{Value, null, State}
use langgraph_backend.GraphRun.{GraphRun}
use langgraph_backend.Mongo.{Collection}
use langgraph_backend.Step.{Step}
use langgraph_backend.Guards.{World}
use langgraph_backend.Stream.{Input, Effect, Event, Session, prepare, on_events}
use langgraph_backend.Stream.Failure.{on_exception}
use langgraph_backend.Stream.Settle.{Snapshot, settle}
use langgraph_backend.Stream.Notices.{Outlet, notify_pause}

-- How a stream stops: by itself, with the snapshot behind it, or by an exception, with its text and
-- the values of the checkpoint.
pub data End : Type 0 where
  ended : Snapshot → End
  failed : String → State → End

-- What LangGraph does with the input: its events, and how it stops.
abbrev pub Graph : Type 0
Graph = Input → List Event × End

module _ (mongo : Collection GraphRun) where
  unfoldable pub finish : Outlet → List Step → End → Session mongo → World mongo × List Effect
  unfolding notify_pause
  finish outlet steps (ended snap) s =
      let (w, effects) = settle mongo outlet.leases steps snap s.interrupt_output s.world in
      let (w', sent) =
        notify_pause mongo outlet.settings outlet.base_url (outlet.raw_step steps) outlet.post snap
          w in
      (w', effects ++ sent)
  finish outlet steps (failed message values) s =
      on_exception mongo outlet.leases message s.current_state values s.world

  -- The session in which the stream begins.
  abbrev pub opened : State → World mongo → Session mongo
  opened state w = record { world = w; current_state = state; interrupt_output = null }

  unfoldable pub stream_graph_to_pause :
      Outlet → List Step → Graph → Input → State → World mongo → World mongo × List Effect
  unfolding finish prepare on_events
  stream_graph_to_pause outlet steps graph input values w =
      let (input', state) = prepare input values w.run.routing_log in
      let (events, end) = graph input' in
      finish outlet steps end (on_events mongo events (opened state w))
