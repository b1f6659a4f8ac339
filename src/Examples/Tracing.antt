-- ===== src/Examples/Tracing.antt =====
-- One call of a model, ended twice, with an end for a run that nothing started.
use langgraph_backend.Base.{ℕ, ◌≡◌, refl, List, [], ◌∷◌}
use langgraph_backend.Base.Dict.{Dict, lookup, insert}
use langgraph_backend.Tracing.{
  Callback, llm_start, llm_end, fresh, on_callback, on_callbacks, add_llm_call, end_llm_call,
  tokens_of, modify,
}
use langgraph_backend.Tracing.Trace.{IsTrace, on_callbacks-IsTrace}

abbrev usage : Dict ℕ
usage = ("prompt_tokens", 7) ∷ ("completion_tokens", 3) ∷ []

abbrev calls : List Callback
calls =
    llm_start "r1" "small" ("hello" ∷ [])
    ∷ llm_end "r1" "hi" usage
    ∷ llm_end "r1" "hi" usage
    ∷ llm_end "r9" "lost" usage
    ∷ []

counted_twice :
    (on_callbacks calls fresh).token_usage ≡ record { input = 14; output = 6; total = 20 }
unfolding on_callback on_callbacks add_llm_call end_llm_call tokens_of modify lookup insert
counted_twice = refl

on_callbacks-IsTrace_example : IsTrace (on_callbacks calls fresh)
on_callbacks-IsTrace_example = on_callbacks-IsTrace calls
