-- ===== src/Stream/Whole/Stale.antt =====
-- The start of a stream whose checkpoint holds a stale failure.
use langgraph_backend.Base.{
  ◌≡◌, refl, ap, ◌∙◌, Bool, true, false, List, arith, Bool-cases, inl, inr,
}
use langgraph_backend.Base.Dict.{insert, lookup-inserted}
use langgraph_backend.Value.{Value, null, State}
use langgraph_backend.GraphRun.{GraphRun, RoutingEvent}
use langgraph_backend.Mongo.{Collection}
use langgraph_backend.Step.{Step}
use langgraph_backend.Guards.{World}
use langgraph_backend.Stream.{Input, resume, is_stale, start_state, patched, prepare}
use langgraph_backend.Stream.Notices.{Outlet}
use langgraph_backend.Stream.Whole.{Graph, stream_graph_to_pause}

is_stale-cleared :
    (state : State) (log : List RoutingEvent)
    → is_stale (insert "__failed_step__" null state) log ≡ false
unfolding is_stale
is_stale-cleared state log = ground (arith, lookup-inserted "__failed_step__" null state)

prepare_stale :
    (input : Input) (values : State) (log : List RoutingEvent)
    → is_stale (start_state input values) log ≡ true
    → prepare input values log
      ≡ (patched input, insert "__failed_step__" null (start_state input values))
unfolding prepare
prepare_stale input values log h = rw (h, prepare) refl

prepare_other :
    (input : Input) (values : State) (log : List RoutingEvent)
    → is_stale (start_state input values) log ≡ false
    → prepare input values log ≡ (input, start_state input values)
unfolding prepare
prepare_other input values log h = rw (h, prepare) refl

-- Whatever the input and the checkpoint, the state that a stream starts from holds no failure of
-- the step to which the last route led.
pub prepare_fresh :
    (input : Input) (values : State) (log : List RoutingEvent)
    → is_stale (prepare input values log).1 log ≡ false
prepare_fresh input values log =
    let seen : Input × State → Bool = λ r. is_stale r.1 log in
    elim (Bool-cases (is_stale (start_state input values) log)) [
      | inl e ↦
          ap seen (prepare_stale input values log e)
          ∙ is_stale-cleared (start_state input values) log
      | inr e ↦ ap seen (prepare_other input values log e) ∙ e
    ]

-- While the checkpoint holds the failure of the step to which the last route led, what a paused run
-- is resumed with is lost: any two decisions, an approval and a rejection too, or an agent's output
-- and none, come to the same run, store and effects.
pub stale_decision_lost :
    (mongo : Collection GraphRun) (outlet : Outlet) (steps : List Step) (graph : Graph)
    (one other : Value) (values : State) (w : World mongo)
    → is_stale values w.run.routing_log ≡ true
    → stream_graph_to_pause mongo outlet steps graph (resume one) values w
      ≡ stream_graph_to_pause mongo outlet steps graph (resume other) values w
unfolding stream_graph_to_pause
stale_decision_lost mongo outlet steps graph one other values w h =
    rw (prepare_stale (resume one) values w.run.routing_log h, stream_graph_to_pause)
      (rw (prepare_stale (resume other) values w.run.routing_log h, stream_graph_to_pause) refl)
