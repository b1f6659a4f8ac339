-- ===== src/Executor/Judge.antt =====
-- `_meta_llm_evaluate` of app/steps/agent_executor.py, from the model's answer on, and
-- `_meta_llm_recovery` of app/services/agent_poller.py.
use langgraph_backend.Base.{
  String, ◌≡◌, refl, ap, ◌∙◌, Bool, true, false, not, Option, none, some, List, [], ◌∷◌, ◌==◌, ◌||◌,
  if◌then◌else◌, or_else, starts_with, arith,
}
use Prim.Native.String.{◌++◌}
use text.Mathlib.TextLemmas.{nil-append, cons-append}
use text.Mathlib.TextEquality.{starts_with_iff}
use langgraph_backend.Value.{Value, null}
use langgraph_backend.Texts.{strip, from, ◌<>◌, concat}

pub record Verdict : Type 0 where
  pub passed : Bool
  pub reason : String
  pub usage : Value

-- Python's `str.upper`, `str.lower` and `str.splitlines`.
pub record Cases : Type 0 where
  pub upper : String → String
  pub lower : String → String
  pub splitlines : String → List String

module _ (python : Cases) where
  abbrev pub is_fail : String → Bool
  is_fail line = python.upper (strip (from 9 line)) == "FAIL"

  -- The lines of the answer, with the decision and the reason so far.
  unfoldable pub read_lines : List String → Bool → String → Bool × String
  read_lines [] passed reason = (passed, reason)
  read_lines (raw ∷ lines) passed reason =
      let line = strip raw in
      let on_reason = starts_with line "REASON:" in
      if starts_with line "DECISION:"
      then read_lines lines (not (is_fail line)) reason
      else read_lines lines passed (if on_reason then strip (from 7 line) else reason)

  -- The model's answer and its usage; `none` where the call or anything before it raises.
  unfoldable pub meta_llm_evaluate : Option (String × Value) → Verdict
  unfolding read_lines
  meta_llm_evaluate none = record {
    passed = true;
    reason = "evaluator error, defaulting to pass";
    usage = null;
  }
  meta_llm_evaluate (some (answer, usage)) =
      let (passed, reason) = read_lines (python.splitlines (strip answer)) true "" in
      record { passed = passed; reason = reason; usage = usage }

  -- The last line with a decision.
  unfoldable pub last_decision : List String → Option String
  last_decision [] = none
  last_decision (raw ∷ lines) =
      or_else (last_decision lines)
        (if starts_with (strip raw) "DECISION:" then some (strip raw) else none)

  read_lines_lem :
      (lines : List String) (passed : Bool) (reason : String)
      → (read_lines lines passed reason).0
        ≡ (elim (last_decision lines) [ none ↦ passed | some line ↦ not (is_fail line) ])
  unfolding read_lines last_decision
  read_lines_lem [] passed reason = refl
  read_lines_lem (raw ∷ lines) passed reason =
      let line = strip raw in
      ground (
        arith,
        read_lines_lem lines (not (is_fail line)) reason,
        read_lines_lem lines passed
            (if starts_with line "REASON:" then strip (from 7 line) else reason),
      )

  -- The gate fails an output exactly if the model answered and the last line of its answer that has
  -- a decision decides FAIL: no answer, or one without a decision, passes.
  pub meta_llm_evaluate_lem :
      (answer : String) (usage : Value)
      → ((meta_llm_evaluate (some (answer, usage))).passed
          ≡ (elim (last_decision (python.splitlines (strip answer))) [
            | none ↦ true
            | some line ↦ not (is_fail line)
          ]))
        × ((meta_llm_evaluate none).passed ≡ true)
  unfolding meta_llm_evaluate
  meta_llm_evaluate_lem answer usage =
      (read_lines_lem (python.splitlines (strip answer)) true "", refl)

-- needle in s
unfoldable pub contains : String → String → Bool
contains needle String.[] = needle == ""
contains needle (String.◌∷◌ c s) =
    let rest = contains needle s in starts_with (String.◌∷◌ c s) needle || rest

-- The model's answer to whether a lost task is complete; `none` where the call raises.
unfoldable pub meta_llm_recovery : Cases → Option String → Bool
unfolding contains
meta_llm_recovery python none = false
meta_llm_recovery python (some answer) = contains "complete" (python.lower answer)

contains-after : (needle s t : String) → contains needle t ≡ true → contains needle (s <> t) ≡ true
unfolding contains concat
contains-after needle String.[] t h = h
contains-after needle (String.◌∷◌ c s) t h = ground (arith, contains-after needle s t h)

append-concat : (s t : String) → s ++ t ≡ s <> t
unfolding concat
append-concat String.[] t = nil-append t
append-concat (String.◌∷◌ c s) t = cons-append c s t ∙ ap (λ u. String.◌∷◌ c u) (append-concat s t)

contains-prefix : (t : String) → contains "complete" ("complete" <> t) ≡ true
unfolding contains concat
contains-prefix t =
    rw ((starts_with_iff ("complete" <> t) "complete").1 (t, append-concat "complete" t)) refl

-- Whatever stands before and behind the word in the model's answer, "incomplete" counts as complete:
-- of the two answers that the prompt allows, each ends the task.
pub meta_llm_recovery_incomplete :
    (python : Cases) (answer before after : String)
    → python.lower answer ≡ before <> ("incomplete" <> after)
    → meta_llm_recovery python (some answer) ≡ true
unfolding meta_llm_recovery concat
meta_llm_recovery_incomplete python answer before after h =
    rw (h, meta_llm_recovery)
      (contains-after "complete" before ("incomplete" <> after)
        (contains-after "complete" "in" ("complete" <> after) (contains-prefix after)))
