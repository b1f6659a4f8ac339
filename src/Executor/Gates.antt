-- ===== src/Executor/Gates.antt =====
-- The gates of `execute_agent_step` of app/steps/agent_executor.py: open questions of an agent are
-- asked, and the quality gate judges its output. The run repository is injected.
use langgraph_backend.Base.{
  String, Bool, true, false, not, Option, none, some, List, [], ◌∷◌, ◌&&◌, if◌then◌else◌, get_or,
}
use langgraph_backend.Base.Dict.{lookup, insert, remove, has_key}
use langgraph_backend.Value.{
  Value, null, flag, text, object, array, items, cons, State, field, entries, record_of, truthy,
  get,
}
use langgraph_backend.GraphRun.{GraphRun}
use langgraph_backend.Mongo.{Collection}
use langgraph_backend.Mongo.Runs.{save}
use langgraph_backend.Executor.{AgentStep, Executed, interrupted}
use langgraph_backend.Executor.Judge.{Verdict}
use langgraph_backend.Executor.Output.{Parsers, extract, deliver}

-- An output behind a gate: the output, whether a question was asked, and the answers that are left
-- to LangGraph's resumed interrupts; or the interrupt of a question without an answer.
pub data Gate : Type 0 where
  go : State → Bool → List Value → Gate
  stop : Value → Gate

abbrev pub asking : Value → Value
asking questions = record_of (("type", text "ask_context") ∷ ("questions", questions) ∷ [])

abbrev pub with_answers : Value → State → State
with_answers (object (field k v fs)) raw =
    insert "_clarification_answers" (object (field k v fs)) raw
with_answers _ raw = raw

-- answers = interrupt({"type": "ask_context", "questions": questions})
abbrev pub ask : Value → State → List Value → Gate
ask questions raw [] = stop (asking questions)
ask questions raw (a ∷ answers) = go (with_answers a raw) true answers

-- An agent that says that its context does not suffice, with its questions.
unfoldable pub context_gate : State → List Value → Gate
context_gate raw answers =
    if truthy (get_or (lookup "context_sufficient" raw) (flag true))
    then go raw false answers
    else elim (get "questions" raw) [
      | array (cons q qs) ↦ ask (array (cons q qs)) raw answers
      | _ ↦ go raw false answers
    ]

module _ (python : Parsers) where
  abbrev pub question_text : Value → Value
  question_text (object fs) =
      get_or (lookup "question" (entries fs)) (text (python.str (object fs)))
  question_text v = text (python.str v)

  module _ (mongo : Collection GraphRun) where
    abbrev pub pending_question : Option GraphRun → Value
    pending_question none = null
    pending_question (some run) = get "_pending_question" run.state

    abbrev pub without_question : GraphRun → GraphRun
    without_question run = record run { state = remove "_pending_question" run.state }

    -- The marker is cleared once its question is answered.
    unfoldable pub clear_question : String → mongo.Store → mongo.Store
    clear_question run_id s = elim (mongo.find_one run_id s) [
      | none ↦ s
      | some run ↦
          if has_key "_pending_question" run.state then save mongo (without_question run) s else s
    ]

    -- A question of the clarify tool that nobody answered is asked again.
    unfoldable pub pending_gate : String → Gate → mongo.Store → Gate × mongo.Store
    unfolding clear_question
    pending_gate run_id (stop payload) s = (stop payload, s)
    pending_gate run_id (go raw surfaced answers) s =
        let question = pending_question (mongo.find_one run_id s) in
        if truthy question
        then (elim (ask (array (items (question_text question ∷ []))) raw answers) [
          | stop payload ↦ (stop payload, s)
          | go raw' asked answers' ↦ (go raw' asked answers', clear_question run_id s)
        ])
        else (go raw surfaced answers, s)

    -- The gate judges where it is on and no question was asked; `judge` is the judgement of an
    -- output.
    abbrev pub verdict_on : Bool → (State → Verdict) → Bool → State → Option Verdict
    verdict_on use_meta_llm judge surfaced raw =
        if use_meta_llm && not surfaced then some (judge raw) else none

    unfoldable pub judged : AgentStep → Bool → (State → Verdict) → Gate → Executed
    unfolding deliver
    judged step use_meta_llm judge (stop payload) = interrupted payload
    judged step use_meta_llm judge (go raw surfaced answers) =
        deliver step (verdict_on use_meta_llm judge surfaced raw) surfaced raw

    -- What the agent's output comes to; `answers` are those that the interrupts are resumed with.
    unfoldable pub finish_step_output :
        AgentStep
        → Bool
        → (State → Verdict)
        → List Value
        → String
        → State
        → mongo.Store
        → Executed × mongo.Store
    unfolding extract context_gate pending_gate judged
    finish_step_output step use_meta_llm judge answers run_id raw s =
        let (gate, s') =
          pending_gate run_id (context_gate (extract python step.output_mapping raw) answers) s in
        (judged step use_meta_llm judge gate, s')
