-- ===== src/Tracing.antt =====
-- `RunTraceAccumulator` of app/infrastructure/tracing/callback_handler.py: what LangChain's callbacks
-- leave of a run's calls. Counts of tokens are natural numbers; timestamps are left out.
pub mod Totals
pub mod Trace
use langgraph_backend.Base.{
  ℕ, zero, suc, ◌+◌, String, Bool, true, false, Option, none, some, List, [], ◌∷◌, ◌++◌, ◌==◌, ◌||◌,
  if◌then◌else◌, get_or, nat_eq, length, starts_with,
}
use langgraph_backend.Base.Dict.{Dict, lookup, insert}
use langgraph_backend.Texts.{◌<>◌, strip, joined}
use langgraph_backend.Texts.Lengths.{cut}

abbrev pub max_summary : ℕ
max_summary = 300

unfoldable pub summarise : String → String
unfolding cut strip
summarise s = cut max_summary "…" (strip s)

pub record Tokens : Type 0 where
  pub input : ℕ
  pub output : ℕ
  pub total : ℕ

pub record LlmCall : Type 0 where
  pub model : String
  pub prompt_summary : String
  pub response_summary : Option String
  pub tokens : Option Tokens

pub record ToolCall : Type 0 where
  pub tool_name : String
  pub input_summary : String
  pub output_summary : Option String

pub record Accumulator : Type 0 where
  pub llm_calls : List LlmCall
  pub tool_calls : List ToolCall
  pub state_transitions : List String
  pub errors : List String
  pub token_usage : Tokens
  pub llm_index : Dict ℕ
  pub tool_index : Dict ℕ

abbrev pub no_tokens : Tokens
no_tokens = record { input = 0; output = 0; total = 0 }

abbrev pub fresh : Accumulator
fresh = record {
  llm_calls = [];
  tool_calls = [];
  state_transitions = [];
  errors = [];
  token_usage = no_tokens;
  llm_index = [];
  tool_index = [];
}

-- What LangChain calls, with the run id as text. A model's name is what the handler finds in the
-- serialized form; the texts of a chat are those of its messages in order; `usage` is the token
-- usage of the model's output, {} where it has none; a chain's name is "" where it has none.
pub data Callback : Type 0 where
  llm_start : String → String → List String → Callback
  chat_model_start : String → String → List String → Callback
  llm_end : String → String → Dict ℕ → Callback
  llm_error tool_error chain_start : String → Callback
  tool_start : String → String → String → Callback
  tool_end : String → String → Callback

-- xs[i] = f(xs[i])
unfoldable pub modify {ℓ} : {A : Type ℓ} → ℕ → (A → A) → List A → List A
modify i f [] = []
modify zero f (x ∷ xs) = f x ∷ xs
modify (suc i) f (x ∷ xs) = x ∷ modify i f xs

abbrev pub first_prompt : List String → String
unfolding summarise
first_prompt [] = ""
first_prompt (p ∷ ps) = summarise p

abbrev pub started_call : String → String → LlmCall
started_call model prompt_summary = record {
  model = model;
  prompt_summary = prompt_summary;
  response_summary = none;
  tokens = none;
}

-- A call is appended, and found by its run's id.
unfoldable pub add_llm_call : String → LlmCall → Accumulator → Accumulator
add_llm_call run_id call s = record s {
  llm_calls = s.llm_calls ++ call ∷ [];
  llm_index = insert run_id (length s.llm_calls) s.llm_index;
}

-- usage.get(key) or usage.get(other, 0)
abbrev pub count_or : String → String → Dict ℕ → ℕ
count_or key other usage =
    let n = get_or (lookup key usage) 0 in if nat_eq n 0 then get_or (lookup other usage) 0 else n

unfoldable pub tokens_of : Dict ℕ → Tokens
tokens_of usage =
    let input = count_or "prompt_tokens" "input_tokens" usage in
    let output = count_or "completion_tokens" "output_tokens" usage in
    let total = get_or (lookup "total_tokens" usage) 0 in
    record {
      input = input;
      output = output;
      total = if nat_eq total 0 then input + output else total;
    }

abbrev pub responded : String → LlmCall → LlmCall
unfolding summarise
responded response call = record call { response_summary = some (summarise response) }

abbrev pub counted : Tokens → LlmCall → LlmCall
counted t call = record call { tokens = some t }

abbrev pub add_tokens : Tokens → Tokens → Tokens
add_tokens a b = record {
  input = a.input + b.input;
  output = a.output + b.output;
  total = a.total + b.total;
}

-- An end without tokens leaves those of the call.
unfoldable pub end_llm_call : ℕ → String → Dict ℕ → Accumulator → Accumulator
unfolding modify tokens_of summarise
end_llm_call idx response [] s = record s {
  llm_calls = modify idx (responded response) s.llm_calls;
}
end_llm_call idx response (kv ∷ usage) s =
    let t = tokens_of (kv ∷ usage) in
    record s {
      llm_calls = modify idx (λ call. counted t (responded response call)) s.llm_calls;
      token_usage = add_tokens s.token_usage t;
    }

unfoldable pub add_tool_call : String → String → String → Accumulator → Accumulator
unfolding summarise
add_tool_call run_id name input_str s = record s {
  tool_calls =
      s.tool_calls
      ++ record { tool_name = name; input_summary = summarise input_str; output_summary = none }
        ∷ [];
  tool_index = insert run_id (length s.tool_calls) s.tool_index;
}

abbrev pub returned : String → ToolCall → ToolCall
unfolding summarise
returned output call = record call { output_summary = some (summarise output) }

-- LangGraph's own nodes are not listed.
abbrev pub is_hidden_node : String → Bool
is_hidden_node name =
    name == "" || starts_with name "__" || name == "LangGraph" || name == "CompiledStateGraph"

unfoldable pub on_callback : Callback → Accumulator → Accumulator
unfolding add_llm_call end_llm_call add_tool_call modify summarise joined
on_callback (llm_start run_id model prompts) s =
    add_llm_call run_id (started_call model (first_prompt prompts)) s
on_callback (chat_model_start run_id model texts) s =
    add_llm_call run_id (started_call model (summarise (joined " | " texts))) s
on_callback (llm_end run_id response usage) s = elim (lookup run_id s.llm_index) [
  | none ↦ s
  | some idx ↦ end_llm_call idx response usage s
]
on_callback (llm_error message) s = record s {
  errors = s.errors ++ ("LLM error: " <> message) ∷ [];
}
on_callback (tool_error message) s = record s {
  errors = s.errors ++ ("Tool error: " <> message) ∷ [];
}
on_callback (chain_start name) s =
    if is_hidden_node name
    then s
    else record s { state_transitions = s.state_transitions ++ name ∷ [] }
on_callback (tool_start run_id name input_str) s = add_tool_call run_id name input_str s
on_callback (tool_end run_id output) s = elim (lookup run_id s.tool_index) [
  | none ↦ s
  | some idx ↦ record s { tool_calls = modify idx (returned output) s.tool_calls }
]

unfoldable pub on_callbacks : List Callback → Accumulator → Accumulator
unfolding on_callback
on_callbacks [] s = s
on_callbacks (c ∷ cs) s = on_callbacks cs (on_callback c s)
