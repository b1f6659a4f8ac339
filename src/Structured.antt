-- ===== src/Structured.antt =====
-- The `llm_structured` node of app/infrastructure/orchestration/yaml_graph.py: a conversation with a
-- model that calls tools until it submits its output.
-- `ask` stands for the model, and `tools` for the MCP tools, whose answer is the text that
-- `_extract_mcp_text` makes of the tool's result. The texts of the node's own messages are left out:
-- such a message stands by what it is made of.
pub mod Laws
use langgraph_backend.Base.{
  ℕ, zero, suc, String, Bool, true, false, not, Option, none, some, List, [], ◌∷◌, ◌++◌, map, ◌==◌,
  ◌&&◌, ◌||◌, if◌then◌else◌, get_or, keep, find,
}
use langgraph_backend.Base.Dict.{lookup, has_key}
use langgraph_backend.Value.{Value, State, truthy, get, is_none, is_text}
use langgraph_backend.Texts.{◌<>◌}
use langgraph_backend.Step.{Step, Outcome, returned, raised}
use langgraph_backend.Node.{Reply, answered, failed, Render}

pub record ToolCall : Type 0 where
  pub name : String
  pub args : State
  pub id : String

pub record Completion : Type 0 where
  pub content : Value
  pub tool_calls : List ToolCall

pub data Message : Type 0 where
  system human : String → Message
  completion : Completion → Message
  nudge : Message
  missing_fields : List String → String → Message
  tool_result : String → String → Message
  unknown_tool : String → String → Message

abbrev pub submit_tool : String
submit_tool = "submit_output"

-- f not in args or args[f] is None or args[f] == ""
unfoldable pub is_missing : State → String → Bool
is_missing args f = elim (lookup f args) [ none ↦ true | some v ↦ is_none v || is_text "" v ]

unfoldable pub missing : Step → State → List String
unfolding is_missing
missing step args = keep (is_missing args) (map (λ o. o.name) step.output)

-- field in args and not args[field]
unfoldable pub is_refused : State → String → Bool
is_refused args f = has_key f args && not (truthy (get f args))

-- The end of a submission that has every field.
unfoldable pub accept : Step → State → Outcome
unfolding is_refused
accept step args = elim (find (is_refused args) step.fail_if_false) [
  | none ↦ returned args
  | some f ↦ raised ("failed: '" <> f <> "' is false")
]

abbrev pub is_submission : ToolCall → Bool
is_submission tc = tc.name == submit_tool

-- next((tc for tc in tool_calls if tc["name"] == self._SUBMIT_TOOL), None)
abbrev pub submission : List ToolCall → Option ToolCall
submission = find is_submission

module _ (ask : List Message → Reply Completion) (tools : String → Option (State → Reply String))
    (step : Step) where
  unfoldable pub run_tool : ToolCall → Message
  run_tool tc = elim (tools tc.name) [
    | none ↦ unknown_tool tc.name tc.id
    | some call ↦ elim (call tc.args) [
      | answered content ↦ tool_result content tc.id
      | failed e ↦ tool_result e tc.id
    ]
  ]

  -- One turn behind the model's answer: the messages that it adds, or the node's outcome.
  pub data Turn : Type 0 where
    goes_on : List Message → Turn
    ends : Outcome → Turn

  unfoldable pub on_submission : ToolCall → Turn
  unfolding accept
  on_submission tc = elim (missing step tc.args) [
    | [] ↦ ends (accept step tc.args)
    | f ∷ fs ↦ goes_on (missing_fields (f ∷ fs) tc.id ∷ [])
  ]

  unfoldable pub turn : List ToolCall → Turn
  unfolding run_tool on_submission
  turn [] = goes_on (nudge ∷ [])
  turn (tc ∷ tcs) = elim (submission (tc ∷ tcs)) [
    | some s ↦ on_submission s
    | none ↦ goes_on (map run_tool (tc ∷ tcs))
  ]

  -- The loop, by the iterations that are left; with the outcome it gives the number of calls of
  -- the model.
  unfoldable pub iterate : ℕ → List Message → Outcome × ℕ
  unfolding turn
  iterate zero messages = (raised "no structured output", 0)
  iterate (suc n) messages = elim (ask messages) [
    | failed e ↦ (raised e, 1)
    | answered c ↦ elim (turn c.tool_calls) [
      | ends outcome ↦ (outcome, 1)
      | goes_on added ↦
          let (outcome, calls) = iterate n (messages ++ completion c ∷ added) in
          (outcome, suc calls)
    ]
  ]

  unfoldable pub structured_node : Render → State → Outcome × ℕ
  structured_node render state =
      iterate (get_or step.max_iterations 25)
        (system step.system_prompt ∷ human (render step.user_template state) ∷ [])
