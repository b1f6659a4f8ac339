-- ===== src/Workflows/Status/Agreement.antt =====
-- The two readings of a snapshot: `_langgraph_status` of app/api/routes/workflows.py, and the one at
-- the end of `stream_graph_to_pause`.
use langgraph_backend.Base.{
  String, ◌≡◌, Bool, ◌||◌, if◌then◌else◌, true, false, List, [], ◌∷◌, arith,
}
use langgraph_backend.Value.{null, object, State, Fields, entries, truthy, is_text, get}
use langgraph_backend.Step.{Step}
use langgraph_backend.Stream.Settle.{
  Snapshot, active_interrupt_type, task_type, first_type, paused_status,
}
use langgraph_backend.Stream.Whole.Outcomes.{ended_status}
use langgraph_backend.Workflows.Status.{langgraph_status, next_step}

-- A run that is paused at one step, by one interrupt that is a dict. The snapshot shows the interrupt
-- in its task, among its own interrupts, or at both places.
abbrev pub paused_at : Bool → Bool → String → Fields → State → Snapshot
paused_at in_task in_snapshot id fs values = record {
  values = values;
  next = id ∷ [];
  tasks = (if in_task then object fs ∷ [] else []) ∷ [];
  interrupts = if in_snapshot then object fs ∷ [] else [];
}

-- A snapshot with one next step and one interrupt, a dict with a type other than `ask_approval`, in
-- its task or among its own interrupts or both, is read the same way by both readings: the status
-- that the routes store for such a pause is the one that the callbacks and the recovery store.
pub langgraph_status_agrees :
    (steps : List Step) (in_task in_snapshot : Bool) (id : String) (fs : Fields) (values : State)
    → (in_task || in_snapshot) ≡ true
    → truthy (get "type" (entries fs)) ≡ true
    → is_text "ask_approval" (get "type" (entries fs)) ≡ false
    → let snap = paused_at in_task in_snapshot id fs values in
      langgraph_status snap steps
      ≡ ended_status steps (active_interrupt_type snap null) (next_step snap)
unfolding langgraph_status active_interrupt_type task_type first_type paused_status
langgraph_status_agrees steps true true id fs values shown t a = ground arith
langgraph_status_agrees steps true false id fs values shown t a = ground arith
langgraph_status_agrees steps false true id fs values shown t a = ground arith
langgraph_status_agrees steps false false id fs values shown t a = ground arith
