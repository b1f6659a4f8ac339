-- ===== src/Executor/Output.antt =====
-- The output of an agent in `execute_agent_step` of app/steps/agent_executor.py: structured fields
-- are extracted from it, and behind the gates it is rejected, raises or is mapped back to the state.
use langgraph_backend.Base.{
  String, Bool, true, false, not, Option, none, some, [], ◌∷◌, ◌++◌, ◌==◌, ◌&&◌, if◌then◌else◌,
  or_else, keep, any,
}
use langgraph_backend.Base.Dict.{Dict, insert, has_key}
use langgraph_backend.Texts.{strip}
use langgraph_backend.Value.{
  Value, null, flag, text, object, State, entries, record_of, truthy, get,
}
use langgraph_backend.Executor.{AgentStep, Executed, returned, rejected, raised}
use langgraph_backend.Executor.Mapping.{mapped, apply_usage_keys}
use langgraph_backend.Executor.Judge.{Verdict}

-- `json.loads` and `yaml.safe_load`, `none` where they raise; the content of a code fence, by the
-- regular expression of the source; and `str`.
pub record Parsers : Type 0 where
  pub json_loads : String → Option Value
  pub safe_load : String → Option Value
  pub fence : String → Option String
  pub str : Value → String

-- any(k in d for k in mapping)
abbrev pub has_any : Dict String → State → Bool
has_any mapping d = any (λ kv. has_key kv.0 d) mapping

abbrev pub with_fields : Dict String → Option Value → Option State
with_fields mapping (some (object fs)) =
    if has_any mapping (entries fs) then some (entries fs) else none
with_fields mapping _ = none

module _ (python : Parsers) where
  -- JSON, then YAML, where it gives an expected field.
  unfoldable pub try_parse : Dict String → String → Option State
  try_parse mapping s =
      or_else (with_fields mapping (python.json_loads s)) (with_fields mapping (python.safe_load s))

  abbrev pub parse_fence : Dict String → Option String → Option State
  parse_fence mapping none = none
  parse_fence mapping (some inner) = try_parse mapping (strip inner)

  unfoldable pub parse_result : Dict String → String → Option State
  unfolding try_parse
  parse_result mapping result_text =
      or_else (parse_fence mapping (python.fence result_text)) (try_parse mapping result_text)

  abbrev pub not_in : State → String × Value → Bool
  not_in parsed (k, v) = not (has_key k parsed) && not (k == "result")

  -- The parsed fields, then what else the output had.
  abbrev pub merged : State → Option State → State
  merged raw none = raw
  merged raw (some parsed) = parsed ++ keep (not_in parsed) raw

  -- Fields are looked for in the text of the result, where the mapping finds none in the output.
  unfoldable pub extract : Dict String → State → State
  unfolding parse_result
  extract [] raw = raw
  extract (kv ∷ mapping) raw = elim (get "result" raw) [
    | text s ↦
        if has_any (kv ∷ mapping) raw
        then raw
        else merged raw (parse_result (kv ∷ mapping) (strip s))
    | _ ↦ raw
  ]

-- What a rejected output is shown with.
unfoldable pub mapped_for_rejection : AgentStep → State → State
unfolding mapped
mapped_for_rejection step raw = elim step.output_mapping [
  | kv ∷ mapping ↦ mapped (kv ∷ mapping) raw []
  | [] ↦ elim step.output_key [
    | none ↦ []
    | some key ↦
        if not (key == "") && has_key "result" raw then (key, get "result" raw) ∷ [] else []
  ]
]

unfoldable pub reject : AgentStep → State → Verdict → Executed
unfolding mapped_for_rejection
reject step raw v =
    rejected v.reason
      (apply_usage_keys (mapped_for_rejection step raw) step.id (record_of raw) v.usage) v.reason

abbrev pub non_empty_mapping : Dict String → Bool
non_empty_mapping [] = false
non_empty_mapping _ = true

-- The output has no field that the mapping expects.
unfoldable pub is_unstructured : AgentStep → State → Bool
is_unstructured step raw =
    non_empty_mapping step.output_mapping
    && not (has_any step.output_mapping raw)
    && not (has_key "context_sufficient" raw)

abbrev pub is_framework_empty : Value → Bool
is_framework_empty (text s) = any (λ t. t == strip s) ("" ∷ "(no output)" ∷ "None" ∷ "null" ∷ [])
is_framework_empty v = true

abbrev pub usage_of : Option Verdict → Value
usage_of none = null
usage_of (some v) = v.usage

-- An output without text raises; a text is shown with the refusal.
abbrev pub refuse_unstructured : AgentStep → State → Option Verdict → Executed
refuse_unstructured step raw verdict =
    if is_framework_empty (get "result" raw)
    then raised "Agent returned no usable output"
    else rejected "Agent returned unstructured output"
        (apply_usage_keys [] step.id (record_of raw) (usage_of verdict))
        "Agent returned plain text instead of structured output"

-- The framework's form of an error.
abbrev pub is_agent_error : State → Bool
is_agent_error raw = truthy (get "error" raw) && not (truthy (get "result" raw))

abbrev pub with_usage : AgentStep → State → Option Verdict → State → State
with_usage step raw verdict result =
    apply_usage_keys result step.id (record_of raw) (usage_of verdict)

-- The output under one key: its result, else its only value, else all of it.
abbrev pub sole_value : State → Option Value
sole_value ((k, v) ∷ []) = some v
sole_value _ = none

unfoldable pub under_key : AgentStep → String → State → Option Verdict → State
under_key step key raw verdict =
    if has_key "result" raw
    then with_usage step raw verdict ((key, get "result" raw) ∷ [])
    else elim (sole_value raw) [
      | some v ↦ with_usage step raw verdict ((key, v) ∷ [])
      | none ↦ (key, record_of raw) ∷ []
    ]

unfoldable pub map_output : AgentStep → State → Option Verdict → State
unfolding mapped under_key
map_output step raw verdict = elim step.output_mapping [
  | kv ∷ mapping ↦ with_usage step raw verdict (mapped (kv ∷ mapping) raw [])
  | [] ↦ elim step.output_key [
    | none ↦ raw
    | some key ↦ if key == "" then raw else under_key step key raw verdict
  ]
]

abbrev pub verdict_record : Verdict → Value
verdict_record v = record_of (("passed", flag v.passed) ∷ ("reason", text v.reason) ∷ [])

abbrev pub with_verdict : Option Verdict → State → State
with_verdict none result = result
with_verdict (some v) result = insert "_meta_llm_result" (verdict_record v) result

abbrev pub fails : Option Verdict → Bool
fails none = false
fails (some v) = not v.passed

unfoldable pub rejection_of : AgentStep → State → Option Verdict → Executed
unfolding reject
rejection_of step raw none = raised ""
rejection_of step raw (some v) = reject step raw v

-- The end of `execute_agent_step`, with the locals `_surfaced_pending` and `_meta_llm_verdict`: `none`
-- is a local that nothing has been assigned to, whose use raises. The verdict itself is `none` where
-- the quality gate did not run; the usage that is merged in is its own, if there is one.
unfoldable pub conclude : AgentStep → Option Bool → Option (Option Verdict) → State → Executed
unfolding map_output
conclude step none verdict raw =
    raised
      "cannot access local variable '_surfaced_pending' where it is not associated with a value"
conclude step (some surfaced) verdict raw =
    if not surfaced && is_agent_error raw then raised "Agent reported error" else (elim verdict [
      | none ↦
          raised
            "cannot access local variable '_meta_llm_verdict' where it is not associated with a value"
      | some v ↦ returned (with_verdict v (map_output step raw v))
    ])

-- Behind the gates of an agent that is polled: there both locals are assigned.
unfoldable pub deliver : AgentStep → Option Verdict → Bool → State → Executed
unfolding is_unstructured rejection_of conclude
deliver step verdict surfaced raw =
    if fails verdict
    then rejection_of step raw verdict
    else if not surfaced && is_unstructured step raw
    then refuse_unstructured step raw verdict
    else conclude step (some surfaced) (some verdict) raw
