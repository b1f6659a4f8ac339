-- ===== src/Executor/Poll.antt =====
-- The poll loop of `execute_agent_step` of app/steps/agent_executor.py. What the agent answers is a
-- list of polls; the loop stops at the first that ends it. The task repository is configured; a
-- progress message is a text; the requests that send a lost task again are not modelled.
pub mod Ends
use langgraph_backend.Base.{
  ℕ, zero, suc, ◌+◌, ◌≤◌, ◌<◌, String, ◌≡◌, ◌≢◌, refl, Bool, true, false, not, Option, none, some,
  List, [], ◌∷◌, ◌++◌, ◌==◌, ◌&&◌, if◌then◌else◌, get_or, or_else, leb, starts_with, arith,
}
use langgraph_backend.Base.Dict.{lookup, insert}
use langgraph_backend.Base.Int.{pos}
use langgraph_backend.Texts.{◌<>◌}
use langgraph_backend.Value.{
  Value, null, int, text, object, array, items, end, State, entries, truthy, is_text, get,
  dict_or_empty, list_or_empty,
}
use langgraph_backend.GraphRun.{GraphRun}
use langgraph_backend.Mongo.{Collection}
use langgraph_backend.Mongo.Runs.{save}
use langgraph_backend.Mongo.Tasks.{get_task, update_task, append_outputs}
use langgraph_backend.Executor.Mapping.{last_final}

-- A poll fails, or answers with a status and outputs.
pub data Poll : Type 0 where
  unreachable : Poll
  answered : String → List Value → Poll

-- The content of the first output of type "final"; {} where it has none.
unfoldable pub first_final : List Value → Option Value
first_final [] = none
first_final (object fs ∷ outputs) =
    let rest = first_final outputs in
    if is_text "final" (get "type" (entries fs))
    then some (get_or (lookup "content" (entries fs)) (object end))
    else rest
first_final (v ∷ outputs) = first_final outputs

-- raw_output where it is truthy, else what is found, else as it is.
abbrev pub unless_found : Value → Option Value → Value
unless_found raw found = if truthy raw then raw else get_or found raw

abbrev pub progress_message : State → Option String
progress_message out =
    if is_text "progress" (get "type" out)
    then (elim (get "message" (dict_or_empty (get "content" out))) [
      | text s ↦ if s == "" then none else if starts_with s "__" then none else some s
      | _ ↦ none
    ])
    else none

unfoldable pub progress_messages : List Value → List Value
progress_messages [] = []
progress_messages (object fs ∷ outputs) = elim (progress_message (entries fs)) [
  | none ↦ progress_messages outputs
  | some s ↦ text s ∷ progress_messages outputs
]
progress_messages (v ∷ outputs) = progress_messages outputs

abbrev pub status_field : String → State
status_field status = ("status", text status) ∷ []

module _ (runs : Collection GraphRun) (tasks : Collection State) where
  -- The loop's variables, and the two collections that it writes to.
  pub record Polling : Type 0 where
    pub raw_output : Value
    pub loop_count : ℕ
    pub stored_runs : runs.Store
    pub stored_tasks : tasks.Store

  -- How the loop stands: it goes on, it is done, or it raises.
  pub data Polled : Type 0 where
    waiting done : Polling → Polled
    failed : String → Polling → Polled

  abbrev pub with_progress : String → List Value → GraphRun → GraphRun
  with_progress key messages run = record run {
    state = insert key (array (items (list_or_empty (get key run.state) ++ messages))) run.state;
  }

  unfoldable pub forward_progress : String → String → List Value → Polling → Polling
  forward_progress run_id step_id [] p = p
  forward_progress run_id step_id (m ∷ messages) p = elim (runs.find_one run_id p.stored_runs) [
    | none ↦ p
    | some run ↦ record p {
      stored_runs =
          save runs (with_progress ("_agent_progress_" <> step_id) (m ∷ messages) run)
            p.stored_runs;
    }
  ]

  -- What is done with the outputs of each poll.
  unfoldable pub take_outputs : String → String → String → List Value → Polling → Polling
  unfolding forward_progress append_outputs first_final progress_messages
  take_outputs task_key run_id step_id outputs p =
      forward_progress run_id step_id (progress_messages outputs) (record p {
        raw_output = unless_found p.raw_output (first_final outputs);
        stored_tasks = append_outputs tasks task_key outputs p.stored_tasks;
      })

  abbrev pub task_updated : String → State → Polling → Polling
  task_updated task_key fields p = record p {
    stored_tasks = update_task tasks task_key fields p.stored_tasks;
  }

  abbrev pub stored_outputs : Option State → List Value
  stored_outputs none = []
  stored_outputs (some task) = list_or_empty (get "outputs" task)

  -- The agent has finished: the output of an earlier poll, else the last of this one, else the last
  -- of the stored task.
  unfoldable pub on_finished : String → List Value → Polling → Polling
  unfolding last_final get_task update_task
  on_finished task_key outputs p =
      let here = unless_found p.raw_output (last_final (object end) outputs) in
      let stored = stored_outputs (get_task tasks task_key p.stored_tasks) in
      task_updated task_key (status_field "finished")
        (record p { raw_output = unless_found here (last_final (object end) stored) })

  -- An attempt is lost; `fields` are what a task that goes on is updated with.
  unfoldable pub on_lost : ℕ → String → String → (ℕ → State) → Polling → Polled
  unfolding update_task
  on_lost max_loops task_key message fields p =
      let n = p.loop_count + 1 in
      if leb max_loops n
      then failed message
          (task_updated task_key (status_field "failed") (record p { loop_count = n }))
      else waiting (task_updated task_key (fields n) (record p { loop_count = n }))

  abbrev pub loop_field : ℕ → State
  loop_field n = ("loop_count", int (pos n)) ∷ []

  -- The task that the recovery reads: the stored one, else its outputs of this poll.
  abbrev pub recovery_outputs : String → List Value → Polling → List Value
  recovery_outputs task_key outputs p = elim (get_task tasks task_key p.stored_tasks) [
    | none ↦ outputs
    | some task ↦ list_or_empty (get "outputs" task)
  ]

  -- The agent lost the task; `recovered` tells from the outputs whether it is complete. If it is not,
  -- the task is sent again, whatever the agent answers.
  unfoldable pub on_idle : (List Value → Bool) → ℕ → String → List Value → Polling → Polled
  unfolding on_lost get_task last_final update_task
  on_idle recovered max_loops task_key outputs p =
      let known = recovery_outputs task_key outputs p in
      if recovered known
      then done (
          task_updated task_key (status_field "finished")
            (record p { raw_output = get_or (last_final (object end) known) p.raw_output }))
      else on_lost max_loops task_key "agent idle" loop_field p

  unfoldable pub on_status :
      (List Value → Bool) → ℕ → String → String → List Value → Polling → Polled
  unfolding on_finished on_idle update_task
  on_status recovered max_loops task_key status outputs p =
      if status == "finished"
      then done (on_finished task_key outputs p)
      else if status == "failed"
      then failed "agent reported failure" (task_updated task_key (status_field "failed") p)
      else if status == "idle"
      then on_idle recovered max_loops task_key outputs p
      else waiting p

  -- A task that could not be reached is not updated before the last attempt.
  unfoldable pub on_unreachable : ℕ → String → Polling → Polled
  unfolding update_task
  on_unreachable max_loops task_key p =
      let p' = record p { loop_count = p.loop_count + 1 } in
      if leb max_loops (p.loop_count + 1)
      then failed "agent unreachable" (task_updated task_key (status_field "failed") p')
      else waiting p'

  unfoldable pub on_poll :
      (List Value → Bool) → ℕ → String → String → String → Poll → Polling → Polled
  unfolding on_unreachable take_outputs on_status
  on_poll recovered max_loops task_key run_id step_id unreachable p =
      on_unreachable max_loops task_key p
  on_poll recovered max_loops task_key run_id step_id (answered status outputs) p =
      on_status recovered max_loops task_key status outputs
        (take_outputs task_key run_id step_id outputs p)

  unfoldable pub poll_loop :
      (List Value → Bool) → ℕ → String → String → String → List Poll → Polling → Polled
  unfolding on_poll
  poll_loop recovered max_loops task_key run_id step_id [] p = waiting p
  poll_loop recovered max_loops task_key run_id step_id (x ∷ xs) p =
      elim (on_poll recovered max_loops task_key run_id step_id x p) [
        | waiting p' ↦ poll_loop recovered max_loops task_key run_id step_id xs p'
        | done p' ↦ done p'
        | failed e p' ↦ failed e p'
      ]
