-- ===== src/Executor/Whole.antt =====
-- `execute_agent_step` of app/steps/agent_executor.py as a whole, and `_agent_node` of
-- app/infrastructure/orchestration/yaml_graph.py, which makes a state update of what it comes to.
pub mod Outcomes
use langgraph_backend.Base.{
  ℕ, String, Bool, true, false, Option, none, some, List, [], ◌∷◌, ◌==◌, if◌then◌else◌, get_or,
}
use langgraph_backend.Base.Dict.{Dict, lookup, insert, update}
use langgraph_backend.Value.{Value, text, State, truthy, get, record_of, as_dict}
use langgraph_backend.GraphRun.{GraphRun}
use langgraph_backend.Mongo.{Collection}
use langgraph_backend.Step.{text_or}
use langgraph_backend.AgentDefinition.{AgentDefinition}
use langgraph_backend.Executor.{AgentStep, Executed, returned, rejected, raised, interrupted}
use langgraph_backend.Executor.Mapping.{apply_mapping}
use langgraph_backend.Executor.Judge.{Verdict}
use langgraph_backend.Executor.Poll.{Poll, Polling, Polled, waiting, done, failed, poll_loop}
use langgraph_backend.Executor.Output.{Parsers, conclude}
use langgraph_backend.Executor.Gates.{finish_step_output}
use langgraph_backend.Executor.Start.{Runtime, Started, Call, running, start_agent}

abbrev pub with_clarification : State → State → State
with_clarification state input =
    let answers = get "_clarification_answers" state in
    if truthy answers then insert "clarification_context" answers input else input

-- The context of the visit before, where there is some.
abbrev pub with_previous : Option State → State → State
with_previous none input = input
with_previous (some previous) input = insert "previous_task" (record_of previous) input

unfoldable pub input_of : AgentStep → Option State → State → State
unfolding apply_mapping
input_of step previous state =
    with_previous previous (with_clarification state (apply_mapping state step.input_mapping))

-- An inline agent, whose branch assigns neither of the locals that the end of the function reads.
-- `none` is an agent that raises.
unfoldable pub run_local : AgentStep → Option State → Executed
unfolding conclude
run_local step none = raised "local agent raised"
run_local step (some raw) = conclude step none none raw

module _ (python : Parsers) (runs : Collection GraphRun) (tasks : Collection State) where
  -- What the step is executed with: the definition of its agent, the results of inline agents and of
  -- the start, the polls of an agent by its URL, the judgement of lost tasks and of outputs, and the
  -- answers of resumed interrupts.
  pub record Host : Type 0 where
    pub definition : Option AgentDefinition
    pub previous : Option State
    pub run_local_agent : State → Option State
    pub runtime : Runtime
    pub polls : String → List Poll
    pub recovered : List Value → Bool
    pub judge : State → State → Verdict
    pub answers : List Value
    pub max_loops : ℕ
    pub use_meta_llm : Bool
    pub task_key : String
    pub run_id : String

  -- The run and task collections.
  pub record Stores : Type 0 where
    pub stored_runs : runs.Store
    pub stored_tasks : tasks.Store

  -- What the output of the polled agent comes to; `none` while the loop goes on. An output that is
  -- no dict raises.
  unfoldable pub finish_polled :
      Host → AgentStep → State → Polled runs tasks → Option Executed × Stores
  unfolding finish_step_output
  finish_polled host step input (waiting p) =
      (none, record { stored_runs = p.stored_runs; stored_tasks = p.stored_tasks })
  finish_polled host step input (failed e p) =
      (some (raised e), record { stored_runs = p.stored_runs; stored_tasks = p.stored_tasks })
  finish_polled host step input (done p) = elim (as_dict p.raw_output) [
    | none ↦ (
      some (raised "object has no attribute 'get'"),
      record { stored_runs = p.stored_runs; stored_tasks = p.stored_tasks },
    )
    | some raw ↦
        let (executed, stored) =
          finish_step_output python runs step host.use_meta_llm (host.judge input) host.answers
            host.run_id raw p.stored_runs in
        (some executed, record { stored_runs = stored; stored_tasks = p.stored_tasks })
  ]

  -- An agent that was started is polled.
  unfoldable pub run_remote : Host → AgentStep → State → Started → Stores → Option Executed × Stores
  unfolding finish_polled poll_loop
  run_remote host step input (Started.failed e) s = (some (raised e), s)
  run_remote host step input (running url) s = finish_polled host step input (
      poll_loop runs tasks host.recovered host.max_loops host.task_key host.run_id step.id
        (host.polls url)
        (record {
          raw_output = record_of [];
          loop_count = 0;
          stored_runs = s.stored_runs;
          stored_tasks = s.stored_tasks;
        }))

  -- `none` while the agent is still polled.
  unfoldable pub execute_agent_step : Host → AgentStep → State → Stores → Option Executed × Stores
  unfolding input_of run_local run_remote start_agent
  execute_agent_step host step state s = elim host.definition [
    | none ↦ (some (raised "AgentDefinition not found"), s)
    | some def ↦
        let input = input_of step host.previous state in
        if text_or step.runtime_override def.default_runtime == "local"
        then (some (run_local step (host.run_local_agent input)), s)
        else run_remote host step input (start_agent host.runtime).0 s
  ]

-- The update of a step that failed.
abbrev pub failed_update : String → String → State
failed_update step_id message = ("__failed_step__", text step_id) ∷ ("error", text message) ∷ []

-- `except Exception` of the node; LangGraph's interrupt is an exception, too.
unfoldable pub update_of : String → Executed → State
update_of step_id (returned d) = d
update_of step_id (rejected message mapped reason) =
    update
      (("__failed_step__", text step_id)
        ∷ ("error", text message)
        ∷ ("_meta_llm_rejection", text reason)
        ∷ [])
      mapped
update_of step_id (raised message) = failed_update step_id message
update_of step_id (interrupted payload) = failed_update step_id "interrupt"

-- `_agent_node`; without a backend of agents the step gives an error.
unfoldable pub agent_node : Bool → AgentStep → Executed → State
unfolding update_of
agent_node has_backend step executed =
    if has_backend
    then update_of step.id executed
    else (
      get_or step.output_key step.id,
      record_of (("error", text "agent backend not configured") ∷ []),
    )
      ∷ []
