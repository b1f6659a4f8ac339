-- ===== src/Node/Declared.antt =====
-- Every key that a node returns is declared in the schema of a graph that has its step, so that
-- LangGraph drops nothing of it; and the keys for which that fails.
use langgraph_backend.Base.Int.{pos}
use langgraph_backend.Base.{
  ℕ, suc, String, ◌≡◌, refl, Bool, true, false, Option, some, List, [], ◌∷◌, ◌++◌, ◌==◌, ◌||◌, ◌∙◌,
  ap, inl, inr, get_or, All, if_intro, Option-cases, arith, eq_iff,
}
use langgraph_backend.Base.Dict.{Dict, insert, has_key}
use langgraph_backend.Texts.{◌<>◌}
use langgraph_backend.Value.{Value, State, int, text}
use langgraph_backend.Step.{Step, StepType, plain_step, Outcome, returned, raised}
use langgraph_backend.Schema.{
  standard_fields, step_fields, build_state_schema, optional, typed_fields, final_fields,
}
use langgraph_backend.Schema.Laws.{declares, declares-append, In, has_key-schema, has_key-schema_of}
use langgraph_backend.Node.{
  Render, Reply, answered, failed, map_values, mcp_node, mcp_failure, mcp_output, one, error_record,
  parallel_node, llm_node,
}

-- Every key of what is returned is declared by the steps' schema.
abbrev pub AllDeclared : List Step → State → Type 0
AllDeclared steps r = All (λ kv. has_key kv.0 (build_state_schema steps) ≡ true) r

abbrev pub OutcomeDeclared : List Step → Outcome → Type 0
OutcomeDeclared steps (returned r) = AllDeclared steps r
OutcomeDeclared steps (raised e) = Unit

AllDeclared-insert :
    (steps : List Step) (k : String) (v : Value) (r : State)
    → has_key k (build_state_schema steps) ≡ true
    → AllDeclared steps r
    → AllDeclared steps (insert k v r)
unfolding insert
AllDeclared-insert steps k v [] h a = (h, tt)
AllDeclared-insert steps k v ((j, w) ∷ r) h a =
    if_intro (AllDeclared steps) (j == k) ((j, v) ∷ r) ((j, w) ∷ insert k v r) a
      (a.0, AllDeclared-insert steps k v r h a.1)

module _ (step : Step) (steps : List Step) (m : In step steps) where
  declared_standard :
      (k : String) → declares standard_fields k ≡ true → has_key k (build_state_schema steps) ≡ true
  declared_standard k h = has_key-schema_of step steps k m (ground arith)

  declared_own :
      (k : String)
      → declares (step_fields step) k ≡ true
      → has_key k (build_state_schema steps) ≡ true
  declared_own k h = has_key-schema_of step steps k m (ground arith)

  sentinel_declared : has_key "__failed_step__" (build_state_schema steps) ≡ true
  unfolding standard_fields
  sentinel_declared = declared_standard "__failed_step__" refl

  error_declared : has_key "error" (build_state_schema steps) ≡ true
  unfolding standard_fields
  error_declared = declared_standard "error" refl

  output_key_declared :
      (key : String) → step.output_key ≡ some key → has_key key (build_state_schema steps) ≡ true
  output_key_declared key e = declared_own key (ground (arith, eq_iff key key))

  mcp_failure-declared : (message : String) → OutcomeDeclared steps (mcp_failure step message)
  mcp_failure-declared message =
      AllDeclared-insert steps (get_or step.output_key "error") (text message) _
        (elim (Option-cases step.output_key) [
          | inl e ↦ rw e error_declared
          | inr (key, e) ↦ rw e (output_key_declared key e)
        ])
        (sentinel_declared, tt)

  mcp_key_declared :
      step.type ≡ StepType.mcp
      → has_key ("_mcp_output_" <> step.id) (build_state_schema steps) ≡ true
  unfolding typed_fields
  mcp_key_declared t = declared_own ("_mcp_output_" <> step.id) (
      rw (declares-append (optional step.output_key), t)
        (ground (arith, eq_iff ("_mcp_output_" <> step.id) ("_mcp_output_" <> step.id))))

  mcp_output-declared :
      (output : String) → step.type ≡ StepType.mcp → OutcomeDeclared steps (mcp_output step output)
  unfolding mcp_output
  mcp_output-declared output t = elim (Option-cases step.output_key) [
    | inl e ↦ rw (e, mcp_output) (mcp_key_declared t, tt)
    | inr (key, e) ↦
        rw (e, mcp_output)
          (AllDeclared-insert steps key (text output) _ (output_key_declared key e)
            (mcp_key_declared t, tt))
  ]

  -- What an `mcp` step of a graph returns, on success and on every failure, is all declared by the
  -- graph's schema.
  pub mcp_node-declared :
      (render : Render) (tools : String → Option (Dict String → Reply String)) (state : State)
      → step.type ≡ StepType.mcp
      → OutcomeDeclared steps (mcp_node render tools step state)
  unfolding mcp_node
  mcp_node-declared render tools state t = elim (Option-cases (tools step.tool)) [
    | inl e ↦ rw (e, mcp_node) (mcp_failure-declared _)
    | inr (call, e) ↦
        rw (e, mcp_node) (called (call (map_values (λ v. render v state) step.tool_input)))
  ]
    where
      called :
          (r : Reply String)
          → OutcomeDeclared steps (elim r [
            | answered output ↦ mcp_output step output
            | failed e ↦ mcp_failure step ("Error calling '" <> step.tool <> "': " <> e)
          ])
      called (answered output) = mcp_output-declared output t
      called (failed e) = mcp_failure-declared _

bare_schema :
    (step : Step) (k : String)
    → step_fields step ≡ []
    → has_key k (build_state_schema (step ∷ []))
      ≡ (declares standard_fields k || declares final_fields k)
bare_schema step k e =
    has_key-schema (step ∷ []) k
    ∙ ap (λ ds. (declares standard_fields k || declares (ds ++ []) k) || declares final_fields k) e
    ∙ drop_middle (declares standard_fields k) (declares final_fields k)
  where
    drop_middle : (a b : Bool) → ((a || false) || b) ≡ (a || b)
    drop_middle a b = ground arith

-- In a graph of one parallel step with a limit and no `output_key`, the key under which the node
-- stores the limit is in the schema only if it is the name of a standard or final field.
pub parallel_limit_undeclared :
    (id : String) (n : ℕ) (state : State)
    → let step = record (plain_step id StepType.parallel) { max_parallel = some (suc n) } in
      (parallel_node step state ≡ one ("_parallel_limit_" <> id) (int (pos (suc n))))
      × (has_key ("_parallel_limit_" <> id) (build_state_schema (step ∷ [])) ≡ (
          declares standard_fields ("_parallel_limit_" <> id)
          || declares final_fields ("_parallel_limit_" <> id)))
unfolding parallel_node typed_fields
parallel_limit_undeclared id n state = (refl, bare_schema _ ("_parallel_limit_" <> id) refl)

llm_one :
    (render : Render) (ask : String → String → Reply Value) (id : String) (state : State)
    → (v : Value) × (llm_node render ask (plain_step id StepType.llm) state ≡ one id v)
unfolding llm_node
llm_one render ask id state = answer (ask "" (render "{request}" state))
  where
    answer :
        (r : Reply Value)
        → (v : Value) × ((elim r [
          | answered content ↦ one id content
          | failed e ↦ one id (error_record e)
        ])
            ≡ one id v)
    answer (answered content) = (content, refl)
    answer (failed e) = (error_record e, refl)

-- An `llm` step without `output_key` returns one field, under its own id, and in a graph of that
-- step alone the schema has this field only if it is the name of a standard or final field.
pub llm_default_undeclared :
    (render : Render) (ask : String → String → Reply Value) (id : String) (state : State)
    → ((v : Value) × (llm_node render ask (plain_step id StepType.llm) state ≡ one id v))
      × (has_key id (build_state_schema (plain_step id StepType.llm ∷ []))
          ≡ (declares standard_fields id || declares final_fields id))
unfolding typed_fields
llm_default_undeclared render ask id state =
    (llm_one render ask id state, bare_schema (plain_step id StepType.llm) id refl)
