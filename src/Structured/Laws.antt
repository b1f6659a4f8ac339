-- ===== src/Structured/Laws.antt =====
-- What an `llm_structured` node returns, and how often it calls the model.
use langgraph_backend.Base.{ℕ, String, ◌≡◌, ◌≤◌, Option, none, List, ◌≢◌, true, some, All}
use langgraph_backend.Base.Dict.{lookup}
use langgraph_backend.Value.{Value, null, text, State, truthy}
use langgraph_backend.Step.{Step, Outcome, returned, raised}
use langgraph_backend.Node.{Reply}
use langgraph_backend.Structured.{Completion, Message, Turn, goes_on, ends}

-- A field that is there, neither null nor empty.
abbrev pub IsGiven : State → String → Type 0
IsGiven args name = (v : Value) × (lookup name args ≡ some v) × (v ≢ null) × (v ≢ text "")

-- A field that is not false, where it is there.
abbrev pub IsTrueAt : Option Value → Type 0
IsTrueAt none = Unit
IsTrueAt (some v) = truthy v ≡ true

abbrev pub IsKept : State → String → Type 0
IsKept args name = IsTrueAt (lookup name args)

-- A result with every declared field, and no field that must not be false and is.
abbrev pub IsComplete : Step → State → Type 0
IsComplete step args =
    All (λ o. IsGiven args o.name) step.output × All (IsKept args) step.fail_if_false

abbrev IsSound : Step → Outcome → Type 0
IsSound step (raised e) = Unit
IsSound step (returned args) = IsComplete step args

module _ (ask : List Message → Reply Completion) (tools : String → Option (State → Reply String))
    (step : Step) where
  abbrev TurnIsSound : Turn ask tools step → Type 0
  TurnIsSound (goes_on ms) = Unit
  TurnIsSound (ends outcome) = IsSound step outcome

  -- What is shown of the loop: its result is sound and the model is called at most n times.
  abbrev Holds : ℕ → Outcome × ℕ → Type 0
  Holds n r = IsSound step r.0 × (r.1 ≤ n)
