-- ===== src/Stream/Settle.antt =====
-- The end of `stream_graph_to_pause` behind a stream that did not raise: the run completes, or waits
-- for an agent or for a person.
use langgraph_backend.Base.{
  String, Bool, true, false, Option, none, some, List, [], ◌∷◌, ◌++◌, ◌==◌, ◌&&◌, ◌||◌,
  if◌then◌else◌, or_else, find,
}
use langgraph_backend.Base.Dict.{Dict, insert, has_key}
use langgraph_backend.Value.{
  Value, null, flag, text, object, State, entries, truthy, is_text, get, elements, array,
}
use langgraph_backend.GraphRun.{GraphRun, Status, StepStatus}
use langgraph_backend.Mongo.{Collection}
use langgraph_backend.Step.{Step, StepType, is_agent}
use langgraph_backend.Guards.{World, persist}
use langgraph_backend.Node.{approved_key}
use langgraph_backend.Stream.{
  Effect, close_conversations, cleanup_pvc, cleanup_agents, patch_checkpoint,
}
use langgraph_backend.Stream.Overlay.{merge_out_of_band_state}
use langgraph_backend.Stream.Failure.{running_step, stored_state}

-- LangGraph's snapshot: the values, the nodes that run next, and the values of the interrupts, of
-- each task and of the snapshot itself.
pub record Snapshot : Type 0 where
  pub values : State
  pub next : List String
  pub tasks : List (List Value)
  pub interrupts : List Value

-- The "type" of the first interrupt that is a dict; None without one.
unfoldable pub first_type : List Value → Value
first_type [] = null
first_type (object fs ∷ vs) = get "type" (entries fs)
first_type (v ∷ vs) = first_type vs

unfoldable pub task_type : List (List Value) → Value
unfolding first_type
task_type [] = null
task_type (intrs ∷ tasks) =
    let rest = task_type tasks in if truthy (first_type intrs) then first_type intrs else rest

-- The values of the interrupts in the chunk that the stream showed.
unfoldable pub chunk_values : List Value → List Value
chunk_values [] = []
chunk_values (object fs ∷ vs) = get "value" (entries fs) ∷ chunk_values vs
chunk_values (v ∷ vs) = chunk_values vs

abbrev pub list_items : Value → List Value
list_items (array vs) = elements vs
list_items _ = []

unfoldable pub active_interrupt_type : Snapshot → Value → Value
unfolding task_type chunk_values
active_interrupt_type snap output =
    let of_tasks = task_type snap.tasks in
    let of_snap = first_type snap.interrupts in
    if truthy of_tasks
    then of_tasks
    else if truthy of_snap
    then of_snap
    else first_type (chunk_values (list_items output))

-- The step at which the run pauses; `none` when it is complete.
unfoldable pub effective_next : Snapshot → Value → Dict StepStatus → Option String
unfolding running_step
effective_next snap interrupt statuses = elim snap.next [
  | n ∷ ns ↦ some n
  | [] ↦ if truthy interrupt then running_step statuses else none
]

-- next((s for s in steps if s["id"] == id), None)
abbrev pub step_of : String → List Step → Option Step
step_of id = find (λ s. s.id == id)

abbrev pub is_agent_step : Option Step → Bool
is_agent_step none = false
is_agent_step (some s) = is_agent s.type

-- The pause of an agent step that itself asks a person.
abbrev pub asks_person : Value → Option Step → Bool
asks_person interrupt def =
    (is_text "ask_context" interrupt || is_text "ask_approval" interrupt) && is_agent_step def

unfoldable pub paused_status : Value → Option Step → Status
paused_status interrupt def =
    if asks_person interrupt def
    then Status.waiting_approval
    else if is_agent_step def
    then Status.waiting_agent
    else Status.waiting_approval

-- The step's own status, where an agent step asks a person.
unfoldable pub paused_statuses : Value → Option Step → String → Dict StepStatus → Dict StepStatus
paused_statuses interrupt def id statuses =
    if asks_person interrupt def && has_key id statuses
    then insert id
        (if is_text "ask_context" interrupt
          then StepStatus.waiting_clarification
          else StepStatus.waiting_approval)
        statuses
    else statuses

-- The run before it is stored: status, current step and state.
unfoldable pub settled :
    List Step → Snapshot → Value → Option String → Option State → GraphRun → GraphRun
unfolding paused_status paused_statuses
settled steps snap interrupt none fresh run = record run {
  status = Status.completed;
  current_step = none;
  state = merge_out_of_band_state fresh snap.values;
}
settled steps snap interrupt (some id) fresh run = record run {
  status = paused_status interrupt (step_of id steps);
  step_statuses = paused_statuses interrupt (step_of id steps) id run.step_statuses;
  current_step = some id;
  state = merge_out_of_band_state fresh snap.values;
}

abbrev pub url_text : Value → Option String
url_text (text s) = if s == "" then none else some s
url_text _ = none

-- The URL that a "waiting_agent" interrupt carries; a text that is not empty.
unfoldable pub agent_url_in : List Value → Option String
agent_url_in [] = none
agent_url_in (object fs ∷ vs) =
    let rest = agent_url_in vs in
    if is_text "waiting_agent" (get "type" (entries fs))
    then url_text (get "agent_url" (entries fs))
    else rest
agent_url_in (v ∷ vs) = agent_url_in vs

unfoldable pub agent_url_of : List (List Value) → List Value → Option String
unfolding agent_url_in
agent_url_of [] interrupts = agent_url_in interrupts
agent_url_of (intrs ∷ tasks) interrupts =
    or_else (agent_url_in intrs) (agent_url_of tasks interrupts)

-- `is not False`
abbrev pub is_false : Value → Bool
is_false (flag false) = true
is_false _ = false

-- The approval key that a pause at a `human_approval` step resets.
unfoldable pub key_to_reset : Option Step → Option String
key_to_reset none = none
key_to_reset (some s) = elim s.type [ StepType.human_approval ↦ some (approved_key s) | _ ↦ none ]

module _ (mongo : Collection GraphRun) where
  unfoldable pub record_agent_url : Option String → World mongo → World mongo
  record_agent_url none w = w
  record_agent_url (some url) w = persist mongo (record w.run { agent_url = some url }) w

  unfoldable pub reset_approval : Option String → State → World mongo → World mongo × List Effect
  reset_approval none values w = (w, [])
  reset_approval (some key) values w = if is_false (get key values) then (w, []) else (
    persist mongo (record w.run { state = insert key (flag false) w.run.state }) w,
    patch_checkpoint ((key, flag false) ∷ []) ∷ [],
  )

  abbrev cleanups : Bool → String → State → List Effect
  cleanups leases id values =
      close_conversations values
      ∷ ((if leases then cleanup_pvc id ∷ [] else []) ++ cleanup_agents id ∷ [])

  -- What follows the first write, by the status that it wrote.
  unfoldable pub follow_up :
      Bool → List Step → Snapshot → Option String → Status → World mongo → World mongo × List Effect
  unfolding record_agent_url reset_approval key_to_reset agent_url_of
  follow_up leases steps snap none status w = (w, cleanups leases w.run.id snap.values)
  follow_up leases steps snap (some id) Status.waiting_agent w =
      (record_agent_url (agent_url_of snap.tasks snap.interrupts) w, [])
  follow_up leases steps snap (some id) status w =
      reset_approval (key_to_reset (step_of id steps)) snap.values w

  unfoldable pub settle :
      Bool → List Step → Snapshot → Value → World mongo → World mongo × List Effect
  unfolding settled follow_up active_interrupt_type effective_next
  settle leases steps snap output w =
      let interrupt = active_interrupt_type snap output in
      let next = effective_next snap interrupt w.run.step_statuses in
      let run =
        settled steps snap interrupt next (stored_state (mongo.find_one w.run.id w.stored)) w.run in
      follow_up leases steps snap next run.status (persist mongo run w)
