-- ===== src/Workflows/Display/Hidden.antt =====
-- What the display of a step shows of its output.
use langgraph_backend.Base.{
  String, ◌≡◌, refl, not, none, [], ◌∷◌, if◌then◌else◌, get_or, starts_with, keep, arith,
}
use langgraph_backend.Base.Dict.{lookup, lookup-keep}
use langgraph_backend.Value.{State}
use langgraph_backend.GraphRun.{GraphRun}
use langgraph_backend.Workflows.Display.{RawStep, build_step, is_shown, non_empty_dict, output_of}

non_empty_dict_lem : (d : State) → get_or (non_empty_dict d) [] ≡ d
non_empty_dict_lem [] = refl
non_empty_dict_lem (kv ∷ d) = refl

-- The output that is shown for a step is its stored output without the keys that begin with two
-- underscores, and with every other.
pub build_step_hides :
    (run : GraphRun) (s : RawStep) (k : String)
    → lookup k (get_or (build_step run s).output [])
      ≡ (if starts_with k "__" then none else lookup k (output_of s.id run))
unfolding build_step
build_step_hides run s k = rw (non_empty_dict_lem (keep is_shown (output_of s.id run))) (
    ground (
      arith,
      lookup-keep is_shown (λ j. not (starts_with j "__")) (λ j v. refl) (output_of s.id run) k,
    ))
