-- ===== src/Schema/Laws.antt =====
-- Which fields a schema declares.
use langgraph_backend.Base.{
  String, ◌≡◌, refl, Bool, true, List, [], ◌∷◌, ◌++◌, ◌==◌, ◌||◌, ◌⊎◌, inl, inr, any, arith,
}
use langgraph_backend.Base.Dict.{Dict, lookup, insert, has_key, lookup-insert}
use langgraph_backend.Step.{Step}
use langgraph_backend.Schema.{
  Reducer, Declarations, declare_all, standard_fields, final_fields, all_step_fields, step_fields,
  build_state_schema,
}

abbrev pub declares : Declarations → String → Bool
declares ds k = any (λ d. d.0 == k) ds

-- `step` is one of `steps`.
abbrev pub In : Step → List Step → Type 0
In step [] = ⊥
In step (s ∷ steps) = (step ≡ s) ⊎ In step steps

has_key-declare_all :
    (ds : Declarations) (d : Dict Reducer) (k : String)
    → has_key k (declare_all ds d) ≡ (declares ds k || has_key k d)
unfolding declare_all
has_key-declare_all [] d k = refl
has_key-declare_all ((j, r) ∷ ds) d k =
    ground (arith, has_key-declare_all ds (insert j r d) k, lookup-insert j k r d)

pub declares-append :
    (xs ys : Declarations) (k : String) → declares (xs ++ ys) k ≡ (declares xs k || declares ys k)
declares-append [] ys k = refl
declares-append (x ∷ xs) ys k = ground (arith, declares-append xs ys k)

declares-all_step_fields :
    (step : Step) (steps : List Step) (k : String)
    → In step steps
    → declares (step_fields step) k ≡ true
    → declares (all_step_fields steps) k ≡ true
declares-all_step_fields step [] k m h = absurd m
declares-all_step_fields step (s ∷ steps) k (inl e) h =
    rw (declares-append (step_fields s) (all_step_fields steps) k)
      (let e' : declares (step_fields s) k ≡ true = rw e at h in ground arith)
declares-all_step_fields step (s ∷ steps) k (inr m) h = ground (
  arith,
  declares-append (step_fields s) (all_step_fields steps) k,
  declares-all_step_fields step steps k m h,
)

-- A schema declares exactly the standard fields, those of each step, and the two final ones.
pub has_key-schema :
    (steps : List Step) (k : String)
    → has_key k (build_state_schema steps) ≡ (
        declares standard_fields k || declares (all_step_fields steps) k || declares final_fields k)
unfolding build_state_schema lookup
has_key-schema steps k = ground (
  arith,
  has_key-declare_all (standard_fields ++ (all_step_fields steps ++ final_fields)) [] k,
  declares-append standard_fields (all_step_fields steps ++ final_fields) k,
  declares-append (all_step_fields steps) final_fields k,
)

-- A field that is standard or declared by a step of the graph is in the schema.
pub has_key-schema_of :
    (step : Step) (steps : List Step) (k : String)
    → In step steps
    → (declares standard_fields k || declares (step_fields step) k) ≡ true
    → has_key k (build_state_schema steps) ≡ true
has_key-schema_of step steps k m h =
    ground (arith, has_key-schema steps k, declares-all_step_fields step steps k m)
