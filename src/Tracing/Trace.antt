-- ===== src/Tracing/Trace.antt =====
-- A run's trace after any callbacks.
use langgraph_backend.Base.{
  ℕ, zero, suc, ◌+◌, ◌≤◌, ◌<◌, String, ◌≡◌, refl, some, List, [], ◌∷◌, ◌++◌, ◌==◌, length,
  length-append, arith, Option-cases, Bool-cases, inl, inr, if_intro,
}
use langgraph_backend.Base.Dict.{Dict, lookup, insert, lookup-insert}
use langgraph_backend.Tracing.{
  Tokens, Accumulator, fresh, Callback, llm_start, chat_model_start, llm_end, llm_error, tool_error,
  chain_start, tool_start, tool_end, modify, add_llm_call, end_llm_call, add_tool_call,
  is_hidden_node, returned, on_callback, on_callbacks,
}
use langgraph_backend.Tracing.Totals.{sum_of, on_callbacks-IsCovered}

-- Every index leads to a call of the list.
abbrev pub IsWithin : Dict ℕ → ℕ → Type 0
IsWithin index n = (run_id : String) (i : ℕ) → lookup run_id index ≡ some i → i < n

insert-IsWithin :
    (run_id : String) (index : Dict ℕ) (n : ℕ)
    → IsWithin index n
    → IsWithin (insert run_id n index) (n + 1)
insert-IsWithin run_id index n h k i e = elim (Bool-cases (run_id == k)) [
  | inl b ↦ ground (arith, lookup-insert run_id k n index)
  | inr b ↦
      let e' : lookup k index ≡ some i = ground (arith, lookup-insert run_id k n index) in
      omega (arith, h k i e')
]

length-modify {ℓ} :
    {A : Type ℓ} (i : ℕ) (f : A → A) (xs : List A) → length (modify i f xs) ≡ length xs
unfolding modify
length-modify i f [] = refl
length-modify zero f (x ∷ xs) = refl
length-modify (suc i) f (x ∷ xs) = omega (arith, length-modify i f xs)

abbrev IsIndexed : Accumulator → Type 0
IsIndexed s =
    IsWithin s.llm_index (length s.llm_calls) × IsWithin s.tool_index (length s.tool_calls)

grown-IsWithin {ℓ} :
    {A : Type ℓ} (run_id : String) (index : Dict ℕ) (xs : List A) (x : A)
    → IsWithin index (length xs)
    → IsWithin (insert run_id (length xs) index) (length (xs ++ x ∷ []))
grown-IsWithin run_id index xs x h =
    rw (length-append xs (x ∷ [])) (insert-IsWithin run_id index (length xs) h)

modify-IsWithin {ℓ} :
    {A : Type ℓ} (index : Dict ℕ) (i : ℕ) (f : A → A) (xs : List A)
    → IsWithin index (length xs)
    → IsWithin index (length (modify i f xs))
modify-IsWithin index i f xs h = rw (length-modify i f xs) h

end_llm_call-IsIndexed :
    (i : ℕ) (response : String) (usage : Dict ℕ) (s : Accumulator)
    → IsIndexed s
    → IsIndexed (end_llm_call i response usage s)
unfolding end_llm_call
end_llm_call-IsIndexed i response [] s (l, t) = (modify-IsWithin s.llm_index i _ s.llm_calls l, t)
end_llm_call-IsIndexed i response (kv ∷ usage) s (l, t) =
    (modify-IsWithin s.llm_index i _ s.llm_calls l, t)

on_callback-IsIndexed : (c : Callback) (s : Accumulator) → IsIndexed s → IsIndexed (on_callback c s)
unfolding on_callback add_llm_call add_tool_call
on_callback-IsIndexed (llm_start run_id model prompts) s (l, t) =
    (grown-IsWithin run_id s.llm_index s.llm_calls _ l, t)
on_callback-IsIndexed (chat_model_start run_id model texts) s (l, t) =
    (grown-IsWithin run_id s.llm_index s.llm_calls _ l, t)
on_callback-IsIndexed (llm_end run_id response usage) s h =
    elim (Option-cases (lookup run_id s.llm_index)) [
      | inl e ↦ rw (e, on_callback) h
      | inr (i, e) ↦ rw (e, on_callback) (end_llm_call-IsIndexed i response usage s h)
    ]
on_callback-IsIndexed (llm_error message) s h = h
on_callback-IsIndexed (tool_error message) s h = h
on_callback-IsIndexed (chain_start name) s h = if_intro IsIndexed (is_hidden_node name) _ _ h h
on_callback-IsIndexed (tool_start run_id name input_str) s (l, t) =
    (l, grown-IsWithin run_id s.tool_index s.tool_calls _ t)
on_callback-IsIndexed (tool_end run_id output) s (l, t) =
    elim (Option-cases (lookup run_id s.tool_index)) [
      | inl e ↦ rw (e, on_callback) (l, t)
      | inr (i, e) ↦
          rw (e, on_callback) (l, modify-IsWithin s.tool_index i (returned output) s.tool_calls t)
    ]

on_callbacks-IsIndexed :
    (cs : List Callback) (s : Accumulator) → IsIndexed s → IsIndexed (on_callbacks cs s)
unfolding on_callbacks
on_callbacks-IsIndexed [] s h = h
on_callbacks-IsIndexed (c ∷ cs) s h =
    on_callbacks-IsIndexed cs (on_callback c s) (on_callback-IsIndexed c s h)

fresh-IsIndexed : IsIndexed fresh
unfolding lookup
fresh-IsIndexed = (λ k i e. absurd (ground arith), λ k i e. absurd (ground arith))

abbrev inputs_of : Tokens → ℕ
inputs_of t = t.input

abbrev output_of : Tokens → ℕ
output_of t = t.output

abbrev total_of : Tokens → ℕ
total_of t = t.total

pub record IsTrace (s : Accumulator) : Type 0 where
  pub input_covered : sum_of inputs_of (λ a b. refl) s.llm_calls ≤ s.token_usage.input
  pub output_covered : sum_of output_of (λ a b. refl) s.llm_calls ≤ s.token_usage.output
  pub total_covered : sum_of total_of (λ a b. refl) s.llm_calls ≤ s.token_usage.total
  pub llm_indexed : IsWithin s.llm_index (length s.llm_calls)
  pub tool_indexed : IsWithin s.tool_index (length s.tool_calls)

-- After any callbacks of a run, in any order: the tokens that the listed model calls have add up to
-- at most the run's totals, of the input, of the output and altogether, and every run id that is
-- known leads to a call of its list.
pub on_callbacks-IsTrace : (cs : List Callback) → IsTrace (on_callbacks cs fresh)
unfolding sum_of
on_callbacks-IsTrace cs =
    let (l, t) = on_callbacks-IsIndexed cs fresh fresh-IsIndexed in
    record {
      input_covered = on_callbacks-IsCovered inputs_of (λ a b. refl) cs fresh (omega arith);
      output_covered = on_callbacks-IsCovered output_of (λ a b. refl) cs fresh (omega arith);
      total_covered = on_callbacks-IsCovered total_of (λ a b. refl) cs fresh (omega arith);
      llm_indexed = l;
      tool_indexed = t;
    }
