-- ===== src/Examples/Nodes.antt =====
-- Nodes under their guards, and what they return.
use langgraph_backend.Base.{String, inl, inr, ◌≡◌, ◌≤◌, ◌+◌, refl, some, List, [], ◌∷◌}
use langgraph_backend.Base.Dict.{lookup, insert, update, remove}
use langgraph_backend.Base.Int.{pos}
use langgraph_backend.Value.{null, text, int, State, record_of}
use langgraph_backend.Step.{Step, StepType, plain_step, returned, raised}
use langgraph_backend.Guards.{World, Node, make_node, count_visit, visits, wrap_with_loop_guard}
use langgraph_backend.Guards.Laws.{IsStarted, IsPassedOn, make_node_blocked, make_node_runs}
use langgraph_backend.Guards.Loops.{limit, passes, passes_bounded}
use langgraph_backend.Node.{Reply, answered, Render}
use langgraph_backend.Structured.{Completion, Message}
use langgraph_backend.Examples.{db, draft, fresh_run, world_of}

-- A body that writes its plan.
abbrev body : Node db
body state w = (returned (("draft", text "a plan") ∷ []), w)

abbrev after_failure : State
after_failure = ("__failed_step__", text "fetch") ∷ []

make_node_blocked_example :
    (e : String) × (make_node db 10 draft body after_failure (world_of fresh_run)
      ≡ (raised e, world_of fresh_run))
unfolding lookup
make_node_blocked_example =
    make_node_blocked db 10 draft body after_failure (world_of fresh_run) "fetch" refl refl refl
      (λ h. cc)

make_node_runs_example :
    (started : World db) × IsStarted db draft (world_of fresh_run) started
    × ((make_node db 10 draft body [] (world_of fresh_run)).1 ≡ (body [] started).1)
    × IsPassedOn (body [] started).0 (make_node db 10 draft body [] (world_of fresh_run)).0
unfolding lookup
make_node_runs_example =
    make_node_runs db 10 draft body [] (world_of fresh_run) (inr (inl refl)) refl

abbrev passed : State
passed = ("draft", text "a plan") ∷ ("_visit_counts", record_of (("draft", int (pos 2)) ∷ [])) ∷ []

passes_bounded_example :
    (visits "draft" passed ≡ visits "draft" [] + 2) × (visits "draft" [] + 2 ≤ limit 10 draft)
unfolding passes wrap_with_loop_guard count_visit lookup insert update remove
passes_bounded_example = passes_bounded db 10 draft body 1 [] passed (world_of fresh_run) refl refl

abbrev plain : Render
plain template state = template

abbrev plan_step : Step
plan_step = record (plain_step "plan" StepType.llm_structured) {
  output = record { name = "plan"; type = "str" } ∷ [];
  max_iterations = some 3;
}

abbrev planned : State
planned = ("plan", text "do it") ∷ []

-- The model submits at once.
abbrev model : List Message → Reply Completion
model messages = answered (record {
  content = null;
  tool_calls = record { name = "submit_output"; args = planned; id = "1" } ∷ [];
})
