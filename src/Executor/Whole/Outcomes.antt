-- ===== src/Executor/Whole/Outcomes.antt =====
-- What an agent step comes to.
use langgraph_backend.Base.{
  String, ◌≡◌, refl, Bool, true, false, not, Option, none, some, [], if_intro, get_or, Bool-cases,
  inl, inr, ap, ◌∙◌, ◌⊎◌, All, is_some, ◌∷◌, arith,
}
use langgraph_backend.Base.Dict.{Dict, lookup}
use langgraph_backend.Value.{Value, flag, text, array, cons, Items, State, truthy, get}
use langgraph_backend.GraphRun.{GraphRun}
use langgraph_backend.Mongo.{Collection}
use langgraph_backend.AgentDefinition.{AgentDefinition}
use langgraph_backend.Executor.{AgentStep, Executed, returned, interrupted}
use langgraph_backend.Executor.Judge.{Verdict}
use langgraph_backend.Executor.Output.{
  Parsers, has_any, extract, deliver, fails, is_unstructured, rejection_of, refuse_unstructured,
  is_framework_empty,
}
use langgraph_backend.Executor.Gates.{
  stop, judged, context_gate, finish_step_output, asking, pending_gate,
}
use langgraph_backend.Executor.Whole.{agent_node, update_of}

-- A result of the step's code that it returns.
abbrev pub is_returned : Executed → Bool
is_returned (returned d) = true
is_returned _ = false

rejection-returned :
    (step : AgentStep) (raw : State) (verdict : Option Verdict)
    → is_returned (rejection_of step raw verdict) ≡ false
unfolding rejection_of
rejection-returned step raw none = refl
rejection-returned step raw (some v) = refl

refusal-returned :
    (step : AgentStep) (raw : State) (verdict : Option Verdict)
    → is_returned (refuse_unstructured step raw verdict) ≡ false
refusal-returned step raw verdict =
    if_intro (λ e. is_returned e ≡ false) (is_framework_empty (get "result" raw)) _ _ refl refl

failed_verdict : (v : Verdict) → v.passed ≡ false → fails (some v) ≡ true
failed_verdict v h = ap not h

none_mapped :
    (mapping : Dict String) (raw : State)
    → All (λ kv. lookup kv.0 raw ≡ none) mapping
    → has_any mapping raw ≡ false
none_mapped [] raw h = refl
none_mapped (kv ∷ mapping) raw (h, rest) = rw h (none_mapped mapping raw rest)

unmapped :
    (step : AgentStep) (kv : String × String) (mapping : Dict String) (raw : State)
    → step.output_mapping ≡ kv ∷ mapping
    → All (λ p. lookup p.0 raw ≡ none) (kv ∷ mapping)
    → lookup "context_sufficient" raw ≡ none
    → is_unstructured step raw ≡ true
unfolding is_unstructured
unmapped step kv mapping raw m h c =
    ground (arith, m, c, none_mapped (kv ∷ mapping) raw h, ap is_some c)

-- An output that the quality gate did not pass is never returned. Where no question was asked,
-- neither is an output that has none of the keys of a mapping that is not empty, and has no
-- `context_sufficient`, whatever else is in it.
pub deliver_refuses :
    (step : AgentStep) (verdict : Option Verdict) (surfaced : Bool) (raw : State)
    → ((v : Verdict) × (verdict ≡ some v) × (v.passed ≡ false))
      ⊎ ((kv : String × String) × (mapping : Dict String) × (surfaced ≡ false)
          × (step.output_mapping ≡ kv ∷ mapping)
          × All (λ p. lookup p.0 raw ≡ none) (kv ∷ mapping)
          × (lookup "context_sufficient" raw ≡ none))
    → is_returned (deliver step verdict surfaced raw) ≡ false
unfolding deliver
deliver_refuses step verdict surfaced raw (inl (v, e, h)) =
    rw (ap fails e ∙ failed_verdict v h, deliver) (rejection-returned step raw verdict)
deliver_refuses step verdict surfaced raw (inr (kv, mapping, a, m, h, c)) =
    elim (Bool-cases (fails verdict)) [
      | inl f ↦ rw (f, deliver) (rejection-returned step raw verdict)
      | inr f ↦
          rw (f, deliver)
            (rw a (rw (unmapped step kv mapping raw m h c) (refusal-returned step raw verdict)))
    ]

context_gate-stop :
    (raw : State) (q : Value) (qs : Items)
    → truthy (get_or (lookup "context_sufficient" raw) (flag true)) ≡ false
    → get "questions" raw ≡ array (cons q qs)
    → context_gate raw [] ≡ stop (asking (array (cons q qs)))
unfolding context_gate
context_gate-stop raw q qs c h = rw (c, context_gate) (rw h refl)

module _ (python : Parsers) (runs : Collection GraphRun) (tasks : Collection State) where
  -- A question that an agent ends with does not pause the run: LangGraph's interrupt is an exception
  -- that the node catches, so the step is named as failed, and the store is as it was.
  question_lost :
      (step : AgentStep) (use_meta_llm : Bool) (judge : State → Verdict) (run_id : String)
      (raw : State) (s : runs.Store) (q : Value) (qs : Items)
      → truthy (
          get_or (lookup "context_sufficient" (extract python step.output_mapping raw)) (flag true))
        ≡ false
      → get "questions" (extract python step.output_mapping raw) ≡ array (cons q qs)
      → let (executed, s') =
          finish_step_output python runs step use_meta_llm judge [] run_id raw s in
        (executed ≡ interrupted (asking (array (cons q qs))))
        × (s' ≡ s)
        × (get "__failed_step__" (agent_node true step executed) ≡ text step.id)
  unfolding finish_step_output judged pending_gate agent_node update_of lookup
  question_lost step use_meta_llm judge run_id raw s q qs c h =
      rw (context_gate-stop (extract python step.output_mapping raw) q qs c h, finish_step_output)
        (refl, refl, refl)
