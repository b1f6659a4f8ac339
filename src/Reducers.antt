-- ===== src/Reducers.antt =====
-- The state reducers of app/infrastructure/orchestration/yaml_graph.py: how LangGraph joins the
-- updates that nodes, also of parallel branches, write to one field.
pub mod Laws
use langgraph_backend.Base.{
  ℕ, String, Bool, true, false, Option, none, some, List, [], ◌∷◌, if◌then◌else◌, is_some,
}
use langgraph_backend.Base.Dict.{Dict, lookup, update}
use langgraph_backend.Base.Int.{ℤ, pos, negsuc, ◌+ℤ◌}
use langgraph_backend.Value.{
  Value, null, flag, int, float, text, array, object, Fields, State, entries, fields, truthy,
  is_none, record_of, get,
}

-- What Python does with floats, by their bits. `of_int` is `none` where the conversion raises
-- OverflowError, `of_text` where `float(text)` raises ValueError.
pub record Floats : Type 0 where
  pub add : ℕ → ℕ → ℕ
  pub of_int : ℤ → Option ℕ
  pub of_text : String → Option ℕ

-- `b if b is not None else a`
unfoldable pub last_wins : Value → Value → Value
last_wins a b = if is_none b then a else b

unfoldable pub merge_dicts : Value → Value → Value
unfolding last_wins
merge_dicts (object a) (object b) = record_of (update (entries a) (entries b))
merge_dicts a b = last_wins a b

-- A number: an `int`, or a `float` by its bits.
pub data Num : Type 0 where
  whole : ℤ → Num
  real : ℕ → Num

abbrev pub num_value : Num → Value
num_value (whole i) = int i
num_value (real b) = float b

abbrev pub zero_num : Num
zero_num = whole (pos 0)

module _ (floats : Floats) where
  -- A bool is an int: True + 0 is 1.
  unfoldable pub coerce_usage_num : Value → Num
  coerce_usage_num null = zero_num
  coerce_usage_num (flag b) = whole (if b then pos 1 else pos 0)
  coerce_usage_num (int i) = whole i
  coerce_usage_num (float b) = real b
  coerce_usage_num (text s) = elim (floats.of_text s) [ none ↦ zero_num | some b ↦ real b ]
  coerce_usage_num _ = zero_num

  -- `+` on numbers; `none` is an OverflowError of the conversion of an `int`.
  unfoldable pub add_num : Num → Num → Option Num
  add_num (whole i) (whole j) = some (whole (i +ℤ j))
  add_num (whole i) (real b) = elim (floats.of_int i) [
    | none ↦ none
    | some a ↦ some (real (floats.add a b))
  ]
  add_num (real a) (whole j) = elim (floats.of_int j) [
    | none ↦ none
    | some b ↦ some (real (floats.add a b))
  ]
  add_num (real a) (real b) = some (real (floats.add a b))

  unfoldable pub sum_field : State → State → String → Option Num
  sum_field a b key = add_num (coerce_usage_num (get key a)) (coerce_usage_num (get key b))

  -- The comprehension over the keys of both; `keys` is the merged dict, which has exactly those.
  unfoldable pub sum_fields : State → State → State → Option State
  sum_fields a b [] = some []
  sum_fields a b ((key, _) ∷ keys) =
      let rest = sum_fields a b keys in
      elim (sum_field a b key) [
        | none ↦ none
        | some n ↦ elim rest [ none ↦ none | some d ↦ some ((key, num_value n) ∷ d) ]
      ]

  abbrev sum_dicts : State → State → Option Value
  sum_dicts a b = elim (sum_fields a b (update a b)) [ none ↦ none | some d ↦ some (record_of d) ]

  -- The part of `_sum_usage` behind its two tests for empty values.
  unfoldable pub sum_present : Value → Value → Option Value
  sum_present (object a) (object b) = sum_dicts (entries a) (entries b)
  sum_present a (object b) = some (object b)
  sum_present (object a) b = some (object a)
  sum_present a b = some (object Fields.end)

  unfoldable pub sum_usage : Value → Value → Option Value
  unfolding sum_present
  sum_usage a b = if truthy b then (if truthy a then sum_present a b else some b) else some a
