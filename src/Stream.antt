-- ===== src/Stream.antt =====
-- `stream_graph_to_pause` of app/infrastructure/orchestration/yaml_graph.py: a run is streamed until it pauses, ends or fails. LangGraph's stream is the
-- list of what happens in it, and its snapshot a record.
-- Here: the start, and what one event of the stream does. The children have the two ends, and the
-- message that is sent behind them.
pub mod Overlay
pub mod Failure
pub mod Settle
pub mod Whole
pub mod Notices
use langgraph_backend.Base.{
  ℕ, String, Bool, true, false, not, Option, none, some, List, [], ◌∷◌, ◌++◌, ◌==◌, ◌&&◌, ◌||◌,
  if◌then◌else◌, find,
}
use langgraph_backend.Base.Dict.{Dict, insert, update}
use langgraph_backend.Value.{
  Value, null, text, object, State, entries, truthy, is_text, get, as_dict,
}
use langgraph_backend.GraphRun.{GraphRun, StepStatus, RoutingEvent, EventKind, route, node_start}
use langgraph_backend.Mongo.{Collection}
use langgraph_backend.Step.{Route}
use langgraph_backend.Guards.{World, persist, mark_running}
use langgraph_backend.Router.{log_route}

-- The input of a stream: an initial state, a `Command(resume=…)`, or None.
pub data Input : Type 0 where
  initial : State → Input
  resume : Value → Input
  nothing : Input

-- What is done outside the run document.
pub data Effect : Type 0 where
  close_conversations : State → Effect
  cleanup_pvc cleanup_agents terminate_container : String → Effect
  patch_checkpoint : State → Effect

unfoldable pub step_status_from_output : String → Value → StepStatus
step_status_from_output node_name (object fs) =
    if not (truthy (object fs))
    then StepStatus.skipped
    else if is_text node_name (get "__failed_step__" (entries fs))
    then StepStatus.failed
    else StepStatus.finished
step_status_from_output node_name output =
    if truthy output then StepStatus.finished else StepStatus.skipped

abbrev pub is_route : RoutingEvent → Bool
is_route e = elim e.event [ route ↦ true | node_start ↦ false ]

-- next((e for e in reversed(log) if e.event == "route"), None)
unfoldable pub last_route : List RoutingEvent → Option RoutingEvent
last_route [] = none
last_route (e ∷ log) = elim (last_route log) [
  | some later ↦ some later
  | none ↦ if is_route e then some e else none
]

-- The sentinel in the state names the step that the last route led to.
unfoldable pub is_stale : State → List RoutingEvent → Bool
unfolding last_route
is_stale state log =
    let failed = get "__failed_step__" state in
    truthy failed && (elim (last_route log) [ none ↦ false | some e ↦ is_text e.target failed ])

abbrev pub cleared : State
cleared = ("__failed_step__", null) ∷ []

abbrev pub patched : Input → Input
patched (initial d) = initial d
patched _ = initial cleared

-- The state that the stream starts from; `values` are those of the checkpoint, {} where reading it
-- fails.
abbrev pub start_state : Input → State → State
start_state (initial d) values = d
start_state _ values = values

unfoldable pub prepare : Input → State → List RoutingEvent → Input × State
unfolding is_stale
prepare input values log =
    let state = start_state input values in
    if is_stale state log
    then (patched input, insert "__failed_step__" null state)
    else (input, state)

-- What happens in a stream: a wrapper marks its step as running, a router logs its choice, and the
-- stream yields the output of a node.
pub data Event : Type 0 where
  started : String → State → Event
  routed : String → State → Route → Event
  produced : String → Value → Event

module _ (mongo : Collection GraphRun) where
  pub record Session : Type 0 where
    pub world : World mongo
    pub open world use *
    pub current_state : State
    pub interrupt_output : Value

  -- The `__interrupt__` channel, which is no step.
  unfoldable pub on_interrupt : Value → Session → Session
  on_interrupt output s = record s {
    world =
        persist mongo
          (record s.run {
            step_inputs = insert "__interrupt__" s.current_state s.run.step_inputs;
            step_outputs =
                if truthy output
                then insert "__interrupt__" output s.run.step_outputs
                else s.run.step_outputs;
          })
          s.world;
    interrupt_output = output;
  }

  -- `current_state.update(output)` for a dict that is not empty
  abbrev pub absorb : Value → State → State
  absorb (object fs) state = update state (entries fs)
  absorb _ state = state

  unfoldable pub on_output : String → Value → Session → Session
  unfolding step_status_from_output
  on_output node_name output s = record s {
    world =
        persist mongo
          (record s.run {
            step_inputs = insert node_name s.current_state s.run.step_inputs;
            step_statuses =
                insert node_name (step_status_from_output node_name output) s.run.step_statuses;
            current_step = some node_name;
            step_outputs =
                if truthy output
                then insert node_name output s.run.step_outputs
                else s.run.step_outputs;
          })
          s.world;
    current_state = absorb output s.current_state;
  }

  unfoldable pub on_event : Event → Session → Session
  unfolding on_interrupt on_output mark_running log_route
  on_event (started step_id state) s = record s {
    world = persist mongo (mark_running step_id state s.run) s.world;
  }
  on_event (routed source_id state chosen) s = record s {
    world = log_route mongo source_id state chosen s.world;
  }
  on_event (produced node_name output) s =
      if node_name == "__start__" || node_name == "__end__"
      then s
      else if node_name == "__interrupt__"
      then on_interrupt output s
      else on_output node_name output s

  unfoldable pub on_events : List Event → Session → Session
  unfolding on_event
  on_events [] s = s
  on_events (e ∷ es) s = on_events es (on_event e s)
