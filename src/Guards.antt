-- ===== src/Guards.antt =====
-- The wrappers that `_make_node` of app/infrastructure/orchestration/yaml_graph.py puts round a
-- node: the fail guard, round the `when` test, round the "running" status, round the loop guard.
-- The run object and its repository are injected before any node runs, so they are always there.
pub mod Laws
pub mod Loops
use langgraph_backend.Base.{
  ℕ, suc, ◌+◌, String, Bool, true, false, not, Option, none, some, List, [], ◌∷◌, ◌++◌, ◌==◌, ◌&&◌,
  if◌then◌else◌, get_or, ltb,
}
use langgraph_backend.Base.Dict.{Dict, insert, update, has_key}
use langgraph_backend.Base.Int.{pos}
use langgraph_backend.Value.{
  Value, null, int, text, State, truthy, is_text, get, record_of, dict_or_empty,
}
use langgraph_backend.GraphRun.{GraphRun, StepStatus, EventKind}
use langgraph_backend.Mongo.{Collection}
use langgraph_backend.Mongo.Runs.{save}
use langgraph_backend.Step.{Step, StepType, Outcome, returned, raised}

-- int((state.get("_visit_counts") or {}).get(step_id, 0)); the counts are written by the loop guard
-- alone, so they are a dict of numbers that are not negative.
abbrev pub count_of : Value → ℕ
count_of (int (pos n)) = n
count_of _ = 0

abbrev pub visits : String → State → ℕ
visits step_id state = count_of (get step_id (dict_or_empty (get "_visit_counts" state)))

abbrev pub no_loop_guard : StepType → Bool
no_loop_guard StepType.ask_context = true
no_loop_guard StepType.human_approval = true
no_loop_guard StepType.cron = true
no_loop_guard StepType.http = true
no_loop_guard StepType.parallel = true
no_loop_guard StepType.join = true
no_loop_guard StepType.switch = true
no_loop_guard StepType.langgraph_agent = true
no_loop_guard StepType.claude_agent = true
no_loop_guard _ = false

abbrev pub no_fail_guard : StepType → Bool
no_fail_guard StepType.join = true
no_fail_guard _ = false

-- The run just before the node's body: shown as running, with an entry of the journal.
unfoldable pub mark_running : String → State → GraphRun → GraphRun
mark_running step_id state run = record run {
  step_statuses = insert step_id StepStatus.running run.step_statuses;
  current_step = some step_id;
  routing_log =
      run.routing_log
      ++ record {
        event = EventKind.node_start;
        node = step_id;
        target = "";
        condition = "";
        iteration = visits step_id state;
      }
        ∷ [];
}

-- The loop guard's reading of what the node did.
unfoldable pub count_visit : ℕ → Step → State → Outcome → Outcome
count_visit max_iterations step state (raised e) = raised e
count_visit max_iterations step state (returned []) = returned []
count_visit max_iterations step state (returned (kv ∷ result)) =
    let n = visits step.id state + 1 in
    if ltb (get_or step.max_loops max_iterations) n
    then raised "exceeded max_loops"
    else returned (
        insert "_visit_counts"
          (record_of (insert step.id (int (pos n)) (dict_or_empty (get "_visit_counts" state))))
          (kv ∷ result))

-- A success clears the sentinel that the step's own earlier failure left in the state.
unfoldable pub clear_sentinel : Value → Outcome → Outcome
clear_sentinel failed (raised e) = raised e
clear_sentinel failed (returned result) =
    if truthy failed && not (has_key "__failed_step__" result)
    then returned (insert "__failed_step__" null result)
    else returned result

module _ (mongo : Collection GraphRun) where
  open mongo use {Store}

  -- What a node shares with the stream: the run object and the stored runs.
  pub record World : Type 0 where
    pub run : GraphRun
    pub stored : Store

  -- A node reads the state, may change the run, and returns an update or raises.
  abbrev pub Node : Type 0
  Node = State → World → Outcome × World

  -- run.touch(); await repo.update(run)
  abbrev pub persist : GraphRun → World → World
  persist run w = record { run = run; stored = save mongo run w.stored }

  unfoldable pub wrap_with_when : Step → Node → Node
  wrap_with_when step fn state w = elim step.when [
    | none ↦ fn state w
    | some key ↦
        if key == ""
        then fn state w
        else if truthy (get key state)
        then fn state w
        else (returned [], w)
  ]

  unfoldable pub wrap_with_status_running : Step → Node → Node
  unfolding mark_running
  wrap_with_status_running step fn state w = fn state (persist (mark_running step.id state w.run) w)

  unfoldable pub wrap_with_loop_guard : ℕ → Step → Node → Node
  unfolding count_visit
  wrap_with_loop_guard max_iterations step fn state w =
      if no_loop_guard step.type
      then fn state w
      else (let (out, w') = fn state w in (count_visit max_iterations step state out, w'))

  unfoldable pub wrap_with_fail_guard : Step → Node → Node
  unfolding clear_sentinel
  wrap_with_fail_guard step fn state w =
      let failed = get "__failed_step__" state in
      if no_fail_guard step.type
      then fn state w
      else if truthy failed && not (is_text step.id failed)
      then (raised "aborted: an upstream step already failed", w)
      else (let (out, w') = fn state w in (clear_sentinel failed out, w'))

  -- `_make_node`, after the choice of the node's function.
  unfoldable pub make_node : ℕ → Step → Node → Node
  unfolding wrap_with_when wrap_with_status_running wrap_with_loop_guard wrap_with_fail_guard
  make_node max_iterations step fn = wrap_with_fail_guard step (
      wrap_with_when step
        (wrap_with_status_running step (wrap_with_loop_guard max_iterations step fn)))
