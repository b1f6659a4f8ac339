-- ===== src/Tracing/Totals.antt =====
-- The totals of a run's trace against the calls that it lists.
use langgraph_backend.Base.{
  ℕ, zero, suc, ◌+◌, ◌≤◌, String, ◌≡◌, refl, ap, Option, none, some, List, [], ◌∷◌, ◌++◌, arith,
  Option-cases, inl, inr, if_intro,
}
use langgraph_backend.Base.Dict.{Dict, lookup}
use langgraph_backend.Tracing.{
  Tokens, LlmCall, Accumulator, Callback, llm_start, chat_model_start, llm_end, llm_error,
  tool_error, chain_start, tool_start, tool_end, modify, counted, responded, add_tokens, tokens_of,
  started_call, add_llm_call, end_llm_call, add_tool_call, is_hidden_node, on_callback,
  on_callbacks,
}

-- By one of the counts of tokens, as `f` reads it.
module _ (f : Tokens → ℕ) (f-add : (a b : Tokens) → f (add_tokens a b) ≡ f a + f b) where
  abbrev pub count_of : Option Tokens → ℕ
  count_of none = 0
  count_of (some t) = f t

  unfoldable pub sum_of : List LlmCall → ℕ
  sum_of [] = 0
  sum_of (call ∷ calls) = count_of call.tokens + sum_of calls

  sum_of-append :
      (calls : List LlmCall) (call : LlmCall)
      → sum_of (calls ++ call ∷ []) ≡ sum_of calls + count_of call.tokens
  unfolding sum_of
  sum_of-append [] call = omega arith
  sum_of-append (c ∷ calls) call = omega (arith, sum_of-append calls call)

  sum_of-responded :
      (i : ℕ) (response : String) (calls : List LlmCall)
      → sum_of (modify i (responded response) calls) ≡ sum_of calls
  unfolding sum_of modify responded
  sum_of-responded i response [] = refl
  sum_of-responded zero response (c ∷ calls) = refl
  sum_of-responded (suc i) response (c ∷ calls) =
      ap (λ n. count_of c.tokens + n) (sum_of-responded i response calls)

  sum_of-counted :
      (i : ℕ) (t : Tokens) (response : String) (calls : List LlmCall)
      → sum_of (modify i (λ call. counted t (responded response call)) calls) ≤ sum_of calls + f t
  unfolding sum_of modify
  sum_of-counted i t response [] = omega arith
  sum_of-counted zero t response (c ∷ calls) = omega arith
  sum_of-counted (suc i) t response (c ∷ calls) = omega (arith, sum_of-counted i t response calls)

  abbrev pub IsCovered : Accumulator → Type 0
  IsCovered s = sum_of s.llm_calls ≤ f s.token_usage

  add_llm_call-IsCovered :
      (run_id model prompt : String) (s : Accumulator)
      → IsCovered s
      → IsCovered (add_llm_call run_id (started_call model prompt) s)
  unfolding add_llm_call
  add_llm_call-IsCovered run_id model prompt s h =
      omega (arith, sum_of-append s.llm_calls (started_call model prompt))

  end_llm_call-IsCovered :
      (i : ℕ) (response : String) (usage : Dict ℕ) (s : Accumulator)
      → IsCovered s
      → IsCovered (end_llm_call i response usage s)
  unfolding end_llm_call
  end_llm_call-IsCovered i response [] s h = omega (arith, sum_of-responded i response s.llm_calls)
  end_llm_call-IsCovered i response (kv ∷ usage) s h =
      let t = tokens_of (kv ∷ usage) in
      omega (arith, sum_of-counted i t response s.llm_calls, f-add s.token_usage t)

  on_callback-IsCovered :
      (c : Callback) (s : Accumulator) → IsCovered s → IsCovered (on_callback c s)
  unfolding on_callback add_tool_call
  on_callback-IsCovered (llm_start run_id model prompts) s h =
      add_llm_call-IsCovered run_id model _ s h
  on_callback-IsCovered (chat_model_start run_id model texts) s h =
      add_llm_call-IsCovered run_id model _ s h
  on_callback-IsCovered (llm_end run_id response usage) s h =
      elim (Option-cases (lookup run_id s.llm_index)) [
        | inl e ↦ rw (e, on_callback) h
        | inr (i, e) ↦ rw (e, on_callback) (end_llm_call-IsCovered i response usage s h)
      ]
  on_callback-IsCovered (llm_error message) s h = h
  on_callback-IsCovered (tool_error message) s h = h
  on_callback-IsCovered (chain_start name) s h = if_intro IsCovered (is_hidden_node name) _ _ h h
  on_callback-IsCovered (tool_start run_id name input_str) s h = h
  on_callback-IsCovered (tool_end run_id output) s h =
      elim (Option-cases (lookup run_id s.tool_index)) [
        | inl e ↦ rw (e, on_callback) h
        | inr (i, e) ↦ rw (e, on_callback) h
      ]

  pub on_callbacks-IsCovered :
      (cs : List Callback) (s : Accumulator) → IsCovered s → IsCovered (on_callbacks cs s)
  unfolding on_callbacks
  on_callbacks-IsCovered [] s h = h
  on_callbacks-IsCovered (c ∷ cs) s h =
      on_callbacks-IsCovered cs (on_callback c s) (on_callback-IsCovered c s h)
