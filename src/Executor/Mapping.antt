-- ===== src/Executor/Mapping.antt =====
-- The keys of app/steps/agent_executor.py: `_apply_mapping`, `_apply_usage_keys`,
-- `_truncate_for_prompt`, `_build_previous_task` and the key of a task.
use langgraph_backend.Base.{
  ℕ, zero, suc, String, ◌≡◌, refl, Option, none, some, List, [], ◌∷◌, ◌==◌, if◌then◌else◌, or_else,
  get_or, leb, map, arith, Option-cases, inl, inr, ◌∙◌,
}
use langgraph_backend.Base.Dict.{Dict, lookup, insert, lookup-insert}
use langgraph_backend.Value.{
  Value, null, text, object, State, entries, record_of, truthy, is_text, get, list_or_empty,
}
use langgraph_backend.Texts.{◌<>◌, length_of, take_text}

-- {to: source[from] for from, to in mapping.items() if from in source}, added to `acc`.
unfoldable pub mapped : Dict String → State → State → State
mapped [] source acc = acc
mapped ((key, to) ∷ mapping) source acc =
    mapped mapping source (elim (lookup key source) [ none ↦ acc | some v ↦ insert to v acc ])

-- An absent mapping is [].
unfoldable pub apply_mapping : State → Dict String → State
unfolding mapped
apply_mapping source [] = source
apply_mapping source (kv ∷ mapping) = mapped (kv ∷ mapping) source []

abbrev pub add_truthy : String → Value → State → State
add_truthy key v target = if truthy v then insert key v target else target

abbrev pub add_agent_usage : String → State → State → State
add_agent_usage step_id raw target =
    add_truthy ("_meta_token_usage_" <> step_id) (get "meta_token_usage" raw)
      (add_truthy ("_agent_token_usage_" <> step_id) (get "token_usage" raw) target)

abbrev pub raw_usage : Value → String → State → State
raw_usage (object fs) step_id target = add_agent_usage step_id (entries fs) target
raw_usage _ step_id target = target

-- `judge_usage` is null where there is none.
unfoldable pub apply_usage_keys : State → String → Value → Value → State
apply_usage_keys target step_id raw_output judge_usage =
    add_truthy "_judge_token_usage" judge_usage (raw_usage raw_output step_id target)

unfoldable pub cap_text : ℕ → String → String
unfolding take_text
cap_text cap s = if leb (length_of s) cap then s else take_text cap s <> "…[truncated]"

abbrev pub cap_value : ℕ → Value → Value
cap_value cap (text s) = text (cap_text cap s)
cap_value cap v = v

abbrev pub cap_entries : ℕ → State → State
cap_entries cap = map (λ kv. (kv.0, cap_value cap kv.1))

unfoldable pub truncate_for_prompt : ℕ → Value → Value
unfolding cap_text
truncate_for_prompt cap (object fs) = record_of (cap_entries cap (entries fs))
truncate_for_prompt cap v = cap_value cap v

-- The content of the last output of type "final", `missing` where that has no content.
unfoldable pub last_final : Value → List Value → Option Value
last_final missing [] = none
last_final missing (object fs ∷ outputs) = or_else (last_final missing outputs) (
    if is_text "final" (get "type" (entries fs))
    then some (get_or (lookup "content" (entries fs)) missing)
    else none)
last_final missing (v ∷ outputs) = last_final missing outputs

-- The key of a step's task, on the given visit; `hashed` is the digest of the answers to a
-- clarification, where there are some.
abbrev pub plain_task_key : (ℕ → String) → String → String → ℕ → String
plain_task_key decimal run_id step_id visit = run_id <> ("_" <> (step_id <> ("_" <> decimal visit)))

unfoldable pub task_key_of : (ℕ → String) → String → String → ℕ → Option String → String
task_key_of decimal run_id step_id visit none = plain_task_key decimal run_id step_id visit
task_key_of decimal run_id step_id visit (some hashed) =
    plain_task_key decimal run_id step_id visit <> ("_c" <> hashed)

-- The context of the visit before, from its task; `none` where there is none that finished with a
-- final output.
abbrev pub previous_context : State → Option Value → Option State
previous_context prior none = none
previous_context prior (some null) = none
previous_context prior (some final) = some (
    (
      "guidance",
      text
          "You previously ran with this input and produced this output. Analyze the new input against your previous output (e.g. answers received vs questions you asked). If your previous open points are resolved, continue the original job from where you left off using the previous output plus the new information. If key questions remain unanswered or unclear, emit context_sufficient=false with the unanswered questions.",
    )
    ∷ ("input", truncate_for_prompt 4000 (get "input" prior))
    ∷ ("output", truncate_for_prompt 4000 final)
    ∷ [])

-- `prior_task` finds the task of a visit of the step by its plain key.
unfoldable pub build_previous_task : (ℕ → Option State) → ℕ → Option State
unfolding truncate_for_prompt last_final
build_previous_task prior_task zero = none
build_previous_task prior_task (suc n) = elim (prior_task n) [
  | none ↦ none
  | some prior ↦
      if is_text "finished" (get "status" prior)
      then previous_context prior (last_final null (list_or_empty (get "outputs" prior)))
      else none
]

-- The last specification of a mapping that gives `to`, with the value that it gives.
unfoldable pub source_of : String → Dict String → State → Option Value
source_of to [] source = none
source_of to ((key, target) ∷ mapping) source =
    or_else (source_of to mapping source) (if target == to then lookup key source else none)

lookup-mapped_to :
    (mapping : Dict String) (source acc : State) (to : String)
    → lookup to (mapped mapping source acc) ≡ or_else (source_of to mapping source) (lookup to acc)
unfolding mapped source_of
lookup-mapped_to [] source acc to = refl
lookup-mapped_to ((key, target) ∷ mapping) source acc to = elim (Option-cases (lookup key source)) [
  | inl e ↦ ground (arith, lookup-mapped_to mapping source acc to)
  | inr (v, e) ↦ ground (
    arith,
    lookup-mapped_to mapping source (insert target v acc) to,
    lookup-insert target to v acc,
  )
]

-- Of the keys that an input or output mapping gives, each has the value that the last specification
-- of it with a present source gives, and no other key is there.
pub lookup-mapped :
    (mapping : Dict String) (source : State) (to : String)
    → lookup to (mapped mapping source []) ≡ source_of to mapping source
unfolding lookup
lookup-mapped mapping source to =
    lookup-mapped_to mapping source [] to ∙ or_else_none (source_of to mapping source)
  where
    or_else_none : (o : Option Value) → or_else o none ≡ o
    or_else_none none = refl
    or_else_none (some v) = refl
