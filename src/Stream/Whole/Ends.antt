-- ===== src/Stream/Whole/Ends.antt =====
-- Where a stream that did not raise stops, and with which status.
use langgraph_backend.Base.{String, ◌≡◌, ◌≢◌, ◌⊎◌, true, false, Option, none, some, List, [], ◌∷◌}
use langgraph_backend.Base.Dict.{Dict}
use langgraph_backend.Value.{Value, truthy, is_text}
use langgraph_backend.GraphRun.{GraphRun, Status, StepStatus}
use langgraph_backend.Step.{Step, is_agent}
use langgraph_backend.Stream.Settle.{Snapshot, step_of}

-- The first step that is shown as running.
pub data FirstRunning : Dict StepStatus → Option String → Type 0 where
  no_step : FirstRunning [] none
  this_step :
      (id : String) (d : Dict StepStatus) → FirstRunning ((id, StepStatus.running) ∷ d) (some id)
  later_step :
      (id : String) (st : StepStatus) {d : Dict StepStatus} {r : Option String}
      → st ≢ StepStatus.running
      → FirstRunning d r
      → FirstRunning ((id, st) ∷ d) r

-- The step at which a stream stops: the first of those that LangGraph would run next; with none,
-- and an interrupt, the step that is running; with none and no interrupt, no step.
pub data StopsAt (snap : Snapshot) (interrupt : Value) (statuses : Dict StepStatus)
    : Option String → Type 0 where
  before_next :
      (n : String) (ns : List String)
      → snap.next ≡ n ∷ ns
      → StopsAt snap interrupt statuses (some n)
  interrupted :
      {r : Option String}
      → snap.next ≡ []
      → truthy interrupt ≡ true
      → FirstRunning statuses r
      → StopsAt snap interrupt statuses r
  at_end : snap.next ≡ [] → truthy interrupt ≡ false → StopsAt snap interrupt statuses none

-- The status of a run that stops there.
pub data StatusAt (steps : List Step) (interrupt : Value) : Option String → Status → Type 0 where
  completes : StatusAt steps interrupt none Status.completed
  waits_for_agent :
      (id : String) (s : Step)
      → step_of id steps ≡ some s
      → is_agent s.type ≡ true
      → is_text "ask_context" interrupt ≡ false
      → is_text "ask_approval" interrupt ≡ false
      → StatusAt steps interrupt (some id) Status.waiting_agent
  agent_asks :
      (id : String) (s : Step)
      → step_of id steps ≡ some s
      → is_agent s.type ≡ true
      → (is_text "ask_context" interrupt ≡ true) ⊎ (is_text "ask_approval" interrupt ≡ true)
      → StatusAt steps interrupt (some id) Status.waiting_approval
  waits_for_person :
      (id : String) (s : Step)
      → step_of id steps ≡ some s
      → is_agent s.type ≡ false
      → StatusAt steps interrupt (some id) Status.waiting_approval
  at_unknown_step :
      (id : String)
      → step_of id steps ≡ none
      → StatusAt steps interrupt (some id) Status.waiting_approval
