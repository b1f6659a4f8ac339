-- ===== src/Workflows/Status.antt =====
-- `_langgraph_status` of app/api/routes/workflows.py: the status of a run by LangGraph's snapshot.
pub mod Agreement
use langgraph_backend.Base.{
  String, Bool, true, false, Option, none, some, List, [], ◌∷◌, ◌||◌, if◌then◌else◌, any,
}
use langgraph_backend.Value.{Value, object, entries, is_text, get}
use langgraph_backend.GraphRun.{Status}
use langgraph_backend.Step.{Step}
use langgraph_backend.Stream.Settle.{Snapshot, step_of, is_agent_step}

-- The value of an interrupt that asks a person for context.
abbrev pub asks_context : Value → Bool
asks_context (object fs) = is_text "ask_context" (get "type" (entries fs))
asks_context _ = false

abbrev pub any_asks_context : Snapshot → Bool
any_asks_context snap = any (any asks_context) snap.tasks || any asks_context snap.interrupts

abbrev pub status_at : List Step → Bool → String → Status
status_at steps asked id =
    if asked
    then Status.waiting_approval
    else if is_agent_step (step_of id steps)
    then Status.waiting_agent
    else Status.waiting_approval

-- With the runner of the run, which every caller passes.
unfoldable pub langgraph_status : Snapshot → List Step → Status
langgraph_status snap steps = elim snap.next [
  | [] ↦ Status.completed
  | id ∷ rest ↦ status_at steps (any_asks_context snap) id
]

-- snap.next[0] if snap.next else None
abbrev pub next_step : Snapshot → Option String
next_step snap = elim snap.next [ [] ↦ none | id ∷ rest ↦ some id ]
