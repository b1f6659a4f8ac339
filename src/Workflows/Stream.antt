-- ===== src/Workflows/Stream.antt =====
-- `_stream_graph` of app/api/routes/workflows.py: the stream of the runs
-- that the routes start, resume and retry. It differs from `stream_graph_to_pause` in what it does
-- with the interrupt channel, with the run's state, with a stale failure and with a failed step.
pub mod Saved
use langgraph_backend.Base.{
  String, Bool, Option, none, some, List, [], ◌∷◌, ◌==◌, ◌||◌, if◌then◌else◌, get_or, map,
}
use langgraph_backend.Base.Dict.{Dict, lookup, insert, update, has_key}
use langgraph_backend.Value.{Value, text, State, truthy, get}
use langgraph_backend.GraphRun.{GraphRun, Status, StepStatus}
use langgraph_backend.Mongo.{Collection}
use langgraph_backend.Step.{Step}
use langgraph_backend.Guards.{World, persist, mark_running}
use langgraph_backend.Router.{log_route}
use langgraph_backend.Stream.{
  Input, Effect, start_state, Event, started, routed, produced, step_status_from_output, absorb,
}
use langgraph_backend.Stream.Overlay.{merge_out_of_band_state}
use langgraph_backend.Stream.Failure.{running_step, stored_state}
use langgraph_backend.Stream.Settle.{Snapshot, agent_url_of}
use langgraph_backend.Stream.Notices.{Outlet, notify_graph_pause}
use langgraph_backend.Stream.Whole.{End, ended, failed, Graph}
use langgraph_backend.Workflows.Status.{langgraph_status, next_step}

-- A step is shown as failed, with its input; it gets no output.
abbrev pub show_failed : String → State → GraphRun → GraphRun
show_failed sid current run = record run {
  step_inputs = insert sid current run.step_inputs;
  step_statuses = insert sid StepStatus.failed run.step_statuses;
}

abbrev pub show_captured : Value → State → GraphRun → GraphRun
show_captured (text sid) current run =
    if has_key sid run.step_statuses then show_failed sid current run else run
show_captured _ current run = run

-- The step that was running, else the one that the sentinel in the state names.
unfoldable pub blame : State → GraphRun → GraphRun
unfolding running_step
blame current run = elim (running_step run.step_statuses) [
  | some sid ↦ show_failed sid current run
  | none ↦ show_captured (get "__failed_step__" current) current run
]

abbrev pub with_url : Option String → GraphRun → GraphRun
with_url none run = run
with_url (some url) run = record run { agent_url = some url }

-- A run that waits for its agent remembers the agent's URL.
abbrev pub with_agent_url : Snapshot → GraphRun → GraphRun
with_agent_url snap run = elim run.status [
  | Status.waiting_agent ↦ with_url (agent_url_of snap.tasks snap.interrupts) run
  | _ ↦ run
]

module _ (mongo : Collection GraphRun) where
  pub record Progress : Type 0 where
    pub world : World mongo
    pub open world use *
    pub current_state : State

  -- The state of the stored run, else that of the run in memory.
  abbrev pub fresh_state : World mongo → State
  fresh_state w = get_or (stored_state (mongo.find_one w.run.id w.stored)) w.run.state

  -- One node of a chunk, the interrupt channel too.
  unfoldable pub on_chunk : String → Value → Progress → Progress
  unfolding step_status_from_output
  on_chunk node_name output s =
      if node_name == "__start__" || node_name == "__end__" then s else (record {
        world =
            persist mongo
              (record s.run {
                step_inputs = insert node_name s.current_state s.run.step_inputs;
                step_statuses =
                    insert node_name (step_status_from_output node_name output) s.run.step_statuses;
                current_step = some node_name;
                step_outputs =
                    if truthy output
                    then insert node_name output s.run.step_outputs
                    else s.run.step_outputs;
                state = fresh_state s.world;
              })
              s.world;
        current_state = absorb mongo output s.current_state;
      })

  -- What happens in the stream: the wrappers and routers of the nodes write to the same run.
  unfoldable pub on_progress : Event → Progress → Progress
  unfolding on_chunk mark_running log_route
  on_progress (started step_id state) s = record s {
    world = persist mongo (mark_running step_id state s.run) s.world;
  }
  on_progress (routed source_id state chosen) s = record s {
    world = log_route mongo source_id state chosen s.world;
  }
  on_progress (produced node_name output) s = on_chunk node_name output s

  unfoldable pub stream_chunks : List Event → Progress → Progress
  unfolding on_progress
  stream_chunks [] s = s
  stream_chunks (e ∷ es) s = stream_chunks es (on_progress e s)

  -- The `except` branch; `checkpoint` is {} where the snapshot cannot be read.
  unfoldable pub fail_graph : String → State → State → World mongo → World mongo
  unfolding blame
  fail_graph message current checkpoint w =
      let run = blame current w.run in
      persist mongo
        (record run {
          status = Status.failed;
          state = merge_out_of_band_state (stored_state (mongo.find_one run.id w.stored)) (
              insert "error" (text message)
                (update (update (fresh_state (record w { run = run })) current) checkpoint));
          current_step = none;
        })
        w

  -- Behind a stream that did not raise.
  unfoldable pub settle_graph : List Step → Snapshot → World mongo → World mongo
  unfolding langgraph_status
  settle_graph steps snap w =
      let run = record w.run {
        status = langgraph_status snap steps;
        current_step = next_step snap;
        state =
            merge_out_of_band_state (stored_state (mongo.find_one w.run.id w.stored))
              (update (fresh_state w) snap.values);
      } in
      persist mongo (with_agent_url snap run) w

  unfoldable pub finish_graph : Outlet → List Step → End → Progress → World mongo × List Effect
  unfolding settle_graph fail_graph notify_graph_pause
  finish_graph outlet steps (ended snap) s =
      notify_graph_pause mongo outlet steps snap (settle_graph steps snap s.world)
  finish_graph outlet steps (failed message values) s =
      (fail_graph message s.current_state values s.world, [])

  -- `values` are those of the checkpoint, {} where reading it fails.
  unfoldable pub stream_graph :
      Outlet → List Step → Graph → Input → State → World mongo → World mongo × List Effect
  unfolding finish_graph stream_chunks
  stream_graph outlet steps graph input values w =
      let (events, end) = graph input in
      finish_graph outlet steps end
        (stream_chunks events (record { world = w; current_state = start_state input values }))
