-- ===== src/Node.antt =====
-- The node functions of app/infrastructure/orchestration/yaml_graph.py: what a node returns on a
-- state, from what the outside world answers it.
-- `render` stands for `_render`, which hands the template to Python's `string.Formatter`; `str` for
-- Python's `str` of a value. A call that may raise answers a `Reply`.
pub mod Laws
pub mod Declared
pub mod Call
use langgraph_backend.Base.{
  ℕ, String, Bool, true, false, not, Option, none, some, List, [], ◌∷◌, ◌++◌, map, ◌==◌, ◌&&◌, ◌||◌,
  if◌then◌else◌, get_or, is_some, leb,
}
use langgraph_backend.Base.Dict.{Dict, lookup, insert, update}
use langgraph_backend.Base.Int.{pos}
use langgraph_backend.Texts.{◌<>◌}
use langgraph_backend.Value.{
  Value, null, flag, int, text, array, object, Items, nil, cons, Fields, end, field, items, State,
  truthy, get, record_of, dict_or_empty, list_or_empty,
}
use langgraph_backend.Step.{Step, text_or, Outcome, returned, raised}

pub data Reply {ℓ} (A : Type ℓ) : Type ℓ where
  answered : A → Reply A
  failed : String → Reply A

abbrev pub Render : Type 0
Render = String → State → String

-- {k: f(v) for k, v in d.items()}
abbrev pub map_values {ℓ κ} : {A : Type ℓ} {B : Type κ} → (A → B) → Dict A → Dict B
map_values f [] = []
map_values f ((k, v) ∷ d) = (k, f v) ∷ map_values f d

-- {"error": message}
abbrev pub error_record : String → Value
error_record message = record_of (("error", text message) ∷ [])

abbrev pub one : String → Value → Outcome
one k v = returned ((k, v) ∷ [])

-- The `llm` node; `ask system user` is the model's call.
unfoldable pub llm_node : Render → (String → String → Reply Value) → Step → State → Outcome
llm_node render ask step state = elim (ask step.system_prompt (render step.user_template state)) [
  | answered content ↦ one (text_or step.output_key step.id) content
  | failed e ↦ one (text_or step.output_key step.id) (error_record e)
]

abbrev pub mcp_failure : Step → String → Outcome
mcp_failure step message = returned (
    insert (get_or step.output_key "error") (text message) (("__failed_step__", text step.id) ∷ []))

unfoldable pub mcp_output : Step → String → Outcome
mcp_output step output = elim step.output_key [
  | none ↦ one ("_mcp_output_" <> step.id) (text output)
  | some key ↦ returned (insert key (text output) (("_mcp_output_" <> step.id, text output) ∷ []))
]

-- The `mcp` node; `tools` is `none` for a tool that is not there, and the answer is the text that
-- `_extract_mcp_text` makes of the tool's result.
unfoldable pub mcp_node :
    Render → (String → Option (Dict String → Reply String)) → Step → State → Outcome
unfolding mcp_output
mcp_node render tools step state = elim (tools step.tool) [
  | none ↦ mcp_failure step ("MCP tool '" <> step.tool <> "' not available")
  | some call ↦ elim (call (map_values (λ v. render v state) step.tool_input)) [
    | answered output ↦ mcp_output step output
    | failed e ↦ mcp_failure step ("Error calling '" <> step.tool <> "': " <> e)
  ]
]

-- The questions of an `ask_context` node, by the splitting of a text into questions.
unfoldable pub context_questions : Render → (String → List String) → Step → State → List Value
context_questions render parse_questions step state = elim (get_or step.questions_key "" == "") [
  | true ↦ map (λ q. text (render q state)) step.questions
  | false ↦ elim (get (get_or step.questions_key "") state) [
    | text raw ↦ map text (parse_questions raw)
    | other ↦ list_or_empty other
  ]
]

-- The `ask_context` node behind its interrupt, which is resumed with the answers.
unfoldable pub ask_context_node : Step → State → Outcome
ask_context_node step answers =
    one (get_or step.output_key (step.id <> "_answers")) (record_of answers)

abbrev pub approval_payload : Render → Step → State → Dict String
approval_payload render step state =
    map_values (λ v. render v state)
      (elim step.interrupt_payload [ [] ↦ ("plan", "{plan}") ∷ [] | kv ∷ d ↦ kv ∷ d ])

-- `corrections or None`
abbrev pub or_none : State → Value
or_none [] = null
or_none (kv ∷ d) = record_of (kv ∷ d)

abbrev pub approved_of : State → Value
approved_of decision = get_or (lookup "approved" decision) (flag false)

abbrev pub corrections_of : State → State
corrections_of decision = dict_or_empty (get "corrections" decision)

abbrev pub approval_record : Step → State → Value
approval_record step decision = record_of (
    ("step_id", text step.id)
    ∷ ("approved", approved_of decision)
    ∷ ("reason", get "reason" decision)
    ∷ ("corrections", or_none (corrections_of decision))
    ∷ ("approver_name", get "approver_name" decision)
    ∷ ("approver_id", get "approver_id" decision)
    ∷ ("approver_source", get "approver_source" decision)
    ∷ ("decided_at", get "decided_at" decision)
    ∷ [])

abbrev pub approved_key : Step → String
approved_key step = get_or step.output_key "approved"

-- The `human_approval` node behind its interrupt, which is resumed with a decision.
unfoldable pub approval_node : Step → State → State → Outcome
approval_node step decision state = returned (
    update
      (insert "approval_history"
        (array (
          items
            (list_or_empty (get "approval_history" state) ++ approval_record step decision ∷ [])))
        (insert "reject_reason" (get "reason" decision)
          ((approved_key step, approved_of decision) ∷ [])))
      (corrections_of decision))

unfoldable pub cron_trigger_node : Step → State → Outcome
cron_trigger_node step state =
    one (get_or step.output_key "trigger_info")
      (get_or (lookup "trigger_info" state) (record_of []))

-- `dumps` is json.dumps for a dict and `str` for anything else.
unfoldable pub http_trigger_node : (Value → String) → Step → State → Outcome
http_trigger_node dumps step state =
    let payload = get_or (lookup "trigger_payload" state) (record_of []) in
    let updates : State = (get_or step.output_key "trigger_payload", payload) ∷ [] in
    if truthy payload && not (truthy (get "request" state))
    then returned (insert "request" (text (dumps payload)) updates)
    else returned updates

-- The `python` node; `run` executes the code on the state and answers the variable `output`.
unfoldable pub python_node : (String → State → Reply Value) → Step → State → Outcome
python_node run step state = elim (run step.code state) [
  | answered v ↦ one (text_or step.output_key step.id) v
  | failed e ↦ one (text_or step.output_key step.id) (error_record e)
]

unfoldable pub parallel_node : Step → State → Outcome
parallel_node step state = elim step.max_parallel [
  | none ↦ returned []
  | some ℕ.zero ↦ returned []
  | some (ℕ.suc n) ↦ one ("_parallel_limit_" <> step.id) (int (pos (ℕ.suc n)))
]

-- The `join` node; `timed_out` is the test of `max_timeout` against the clock, and `str` is Python's.
unfoldable pub join_node : (Value → String) → Bool → Step → State → Outcome
join_node str timed_out step state =
    let failed = get "__failed_step__" state in
    if timed_out
    then raised "timed out"
    else if truthy failed && step.failure_policy == "and"
    then returned (
        ("__failed_step__", text step.id)
        ∷ ("error", text ("branch failed (AND policy): " <> str failed))
        ∷ [])
    else returned []

unfoldable pub switch_node : Step → State → Outcome
switch_node step state = returned []
