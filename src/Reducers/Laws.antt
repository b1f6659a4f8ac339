-- ===== src/Reducers/Laws.antt =====
-- What the reducers promise: later writes win key by key, and usage is summed field by field.
use langgraph_backend.Base.{
  String, ◌≡◌, refl, Option, none, some, [], ◌∷◌, if◌then◌else◌, is_some, or_else, arith, eq_iff,
  Option-cases, ◌≢◌, inl, inr,
}
use langgraph_backend.Base.Dict.{lookup, update, lookup-update}
use langgraph_backend.Base.Int.{ℤ}
use langgraph_backend.Value.{Value, object, State, entries, record_of, get, entries-fields}
use langgraph_backend.Reducers.{
  Floats, merge_dicts, Num, whole, real, num_value, coerce_usage_num, add_num, sum_field,
  sum_fields, sum_dicts, sum_present, sum_usage,
}

-- The dict behind a value, empty for what is no dict.
abbrev pub dict_part : Value → State
dict_part (object fs) = entries fs
dict_part _ = []

-- Merging two dicts gives a dict that holds, under each key, the later write if there is one and
-- else the earlier.
pub merge_dicts_lem :
    (a b : State) (k : String)
    → lookup k (dict_part (merge_dicts (record_of a) (record_of b)))
      ≡ or_else (lookup k b) (lookup k a)
unfolding merge_dicts
merge_dicts_lem a b k =
    rw (entries-fields, entries-fields a, entries-fields b) (lookup-update k a b)

abbrev pub maybe_value : Option Num → Option Value
maybe_value none = none
maybe_value (some n) = some (num_value n)

module _ (floats : Floats) where
  lookup-sum_fields :
      (a b keys r : State) (k : String)
      → sum_fields floats a b keys ≡ some r
      → lookup k r
        ≡ (if is_some (lookup k keys) then maybe_value (sum_field floats a b k) else none)
  unfolding sum_fields lookup
  lookup-sum_fields a b [] r k h = ground arith
  lookup-sum_fields a b ((j, v) ∷ keys) r k h = elim (Option-cases (sum_fields floats a b keys)) [
    | inl e ↦ ground arith
    | inr (d, e) ↦ ground (arith, eq_iff j k, lookup-sum_fields a b keys d k e)
  ]

  lookup-sum_dicts :
      (a b : State) (u : Value) (k : String)
      → sum_dicts floats a b ≡ some u
      → lookup k (dict_part u) ≡ (
          if is_some (or_else (lookup k b) (lookup k a))
          then maybe_value (sum_field floats a b k)
          else none)
  lookup-sum_dicts a b u k h = elim (Option-cases (sum_fields floats a b (update a b))) [
    | inl e ↦ cc (e, h)
    | inr (d, e) ↦
        ground
          (arith, entries-fields d, lookup-sum_fields a b (update a b) d k e, lookup-update k a b)
  ]

  -- Two usage dicts, neither of them empty, sum to a dict that holds exactly the keys of both, and
  -- under each the sum of the two numbers that the dicts hold there; a missing or malformed one
  -- counts as 0. Nothing is claimed where the sum raises OverflowError.
  pub lookup-sum_usage :
      (a b : State) (u : Value) (k : String)
      → a ≢ []
      → b ≢ []
      → sum_usage floats (record_of a) (record_of b) ≡ some u
      → lookup k (dict_part u) ≡ (
          if is_some (or_else (lookup k b) (lookup k a))
          then maybe_value (sum_field floats a b k)
          else none)
  unfolding sum_usage
  lookup-sum_usage [] b u k na nb h = absurd (na refl)
  lookup-sum_usage (x ∷ a) [] u k na nb h = absurd (nb refl)
  lookup-sum_usage ((i, v) ∷ a) ((j, w) ∷ b) u k na nb h =
      lookup-sum_dicts ((i, v) ∷ a) ((j, w) ∷ b) u k (rw (entries-fields a, entries-fields b) at h)

  abbrev Converts : Type 0
  Converts = (i : ℤ) → floats.of_int i ≢ none

  add_num-ne-none : Converts → (m n : Num) → add_num floats m n ≢ none
  unfolding add_num
  add_num-ne-none c (whole i) (whole j) h = cc
  add_num-ne-none c (whole i) (real b) h = ground (arith, c i)
  add_num-ne-none c (real a) (whole j) h = ground (arith, c j)
  add_num-ne-none c (real a) (real b) h = cc

  sum_fields-ne-none : Converts → (a b keys : State) → sum_fields floats a b keys ≢ none
  unfolding sum_fields sum_field
  sum_fields-ne-none c a b [] h = cc
  sum_fields-ne-none c a b ((k, v) ∷ keys) h = ground (
    arith,
    add_num-ne-none c (coerce_usage_num floats (get k a)) (coerce_usage_num floats (get k b)),
    sum_fields-ne-none c a b keys,
  )

  -- The usage reducer returns on every pair of values whatever, malformed ones included, as long
  -- as the conversion of an int to a float does not raise.
  pub sum_usage-ne-none : Converts → (a b : Value) → sum_usage floats a b ≢ none
  unfolding sum_usage sum_present
  sum_usage-ne-none c (object a) (object b) h =
      ground (arith, sum_fields-ne-none c (entries a) (entries b) (update (entries a) (entries b)))
  sum_usage-ne-none c a (object b) h = ground arith
  sum_usage-ne-none c (object a) b h = ground arith
  sum_usage-ne-none c a b h = ground arith
