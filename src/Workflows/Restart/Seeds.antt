-- ===== src/Workflows/Restart/Seeds.antt =====
-- What the state holds that a retry and a restart start from: the counts of visits, and the failure
-- of a step.
use langgraph_backend.Base.{
  ◌≢◌, ℕ, String, ◌≡◌, refl, ◌∙◌, Bool, true, false, not, none, some, List, [], ◌∷◌, ◌++◌, ◌==◌,
  ◌&&◌, ◌||◌, Bool-cases, inl, inr, if◌then◌else◌, any, arith, eq_iff,
}
use langgraph_backend.Base.Dict.{
  lookup, update, remove, set_default, has_key, lookup-update, lookup-set_default, lookup-remove,
}
use langgraph_backend.Value.{Value, text, State}
use langgraph_backend.GraphRun.{GraphRun}
use langgraph_backend.Mongo.{Collection}
use langgraph_backend.Step.{StepType, Step, raised}
use langgraph_backend.Guards.{World, Node, make_node}
use langgraph_backend.Guards.Laws.{make_node_blocked}
use langgraph_backend.Recovery.{accumulate, seed, request_only, step_is_done, output_of}
use langgraph_backend.Workflows.Restart.{
  retry_keeps, retry_state, restart_keeps, not_counts, add_outputs, drop_transient, restart_state,
  steps_before,
}

-- A key that is not seeded stays missing.
seed-none :
    (keeps : String × Value → Bool) (j : String) (d acc : State)
    → ((v : Value) → keeps (j, v) ≡ false)
    → lookup j acc ≡ none
    → lookup j (seed keeps d acc) ≡ none
unfolding seed
seed-none keeps j [] acc k h = h
seed-none keeps j ((i, v) ∷ d) acc k h =
    seed-none keeps j d (if keeps (i, v) then set_default i v acc else acc) k
      (ground (arith, k v, eq_iff i j, lookup-set_default i j v acc))

seed-some :
    (keeps : String × Value → Bool) (j : String) (w : Value) (d acc : State)
    → lookup j acc ≡ some w
    → lookup j (seed keeps d acc) ≡ some w
unfolding seed
seed-some keeps j w [] acc h = h
seed-some keeps j w ((i, v) ∷ d) acc h =
    seed-some keeps j w d (if keeps (i, v) then set_default i v acc else acc)
      (ground (arith, lookup-set_default i j v acc))

seed-found :
    (keeps : String × Value → Bool) (j : String) (w : Value) (d acc : State)
    → ((v : Value) → keeps (j, v) ≡ true)
    → lookup j acc ≡ none
    → lookup j d ≡ some w
    → lookup j (seed keeps d acc) ≡ some w
unfolding seed lookup
seed-found keeps j w [] acc k h f = ground arith
seed-found keeps j w ((i, v) ∷ d) acc k h f =
    let acc' = if keeps (i, v) then set_default i v acc else acc in
    elim (Bool-cases (i == j)) [
      | inl e ↦
          seed-some keeps j w d acc' (ground (arith, k v, eq_iff i j, lookup-set_default i j v acc))
      | inr e ↦
          seed-found keeps j w d acc' k (ground (arith, lookup-set_default i j v acc))
            (ground arith)
    ]

add_outputs-none :
    (run : GraphRun) (ss : List Step) (acc : State)
    → lookup "_visit_counts" acc ≡ none
    → lookup "_visit_counts" (add_outputs run ss acc) ≡ none
unfolding add_outputs
add_outputs-none run [] acc h = h
add_outputs-none run (s ∷ ss) acc h =
    add_outputs-none run ss
      (if step_is_done run s then seed not_counts (output_of run s.id) acc else acc)
      (ground (arith, seed-none not_counts "_visit_counts" (output_of run s.id) acc (λ v. refl) h))

add_outputs-some :
    (run : GraphRun) (j : String) (w : Value) (ss : List Step) (acc : State)
    → lookup j acc ≡ some w
    → lookup j (add_outputs run ss acc) ≡ some w
unfolding add_outputs
add_outputs-some run j w [] acc h = h
add_outputs-some run j w (s ∷ ss) acc h =
    add_outputs-some run j w ss
      (if step_is_done run s then seed not_counts (output_of run s.id) acc else acc)
      (ground (arith, seed-some not_counts j w (output_of run s.id) acc h))

lookup-drop_transient :
    (j : String) (acc : State)
    → lookup j (drop_transient acc) ≡ (
        if "_pending_question" == j
          || "_slack_ask_context_channel" == j
          || "_slack_ask_context_ts" == j
        then none
        else lookup j acc)
unfolding drop_transient
lookup-drop_transient j acc = ground (
  arith,
  lookup-remove "_slack_ask_context_ts" j acc,
  lookup-remove "_slack_ask_context_channel" j (remove "_slack_ask_context_ts" acc),
  lookup-remove "_pending_question" j
      (remove "_slack_ask_context_channel" (remove "_slack_ask_context_ts" acc)),
)

-- Whatever the run's state and its outputs hold, a restarted run has no counts of visits.
restart_state_uncounted :
    (id : String) (steps : List Step) (run : GraphRun)
    → lookup "_visit_counts" (restart_state id steps run) ≡ none
unfolding restart_state lookup
restart_state_uncounted id steps run =
    lookup-drop_transient "_visit_counts" _
    ∙ add_outputs-none run (steps_before id steps) (seed restart_keeps run.state (request_only run))
        (seed-none restart_keeps "_visit_counts" run.state (request_only run) (λ v. refl) refl)

-- The failure that the run's state holds is still there behind a restart.
pub restart_state_failed :
    (id : String) (steps : List Step) (run : GraphRun) (w : Value)
    → lookup "__failed_step__" run.state ≡ some w
    → lookup "__failed_step__" (restart_state id steps run) ≡ some w
unfolding restart_state lookup
restart_state_failed id steps run w h =
    lookup-drop_transient "__failed_step__" _
    ∙ add_outputs-some run "__failed_step__" w (steps_before id steps)
        (seed restart_keeps run.state (request_only run))
        (seed-found restart_keeps "__failed_step__" w run.state (request_only run) (λ v. refl) refl
          h)

-- A run whose state holds the failure of one step, restarted at another step that is no join: that
-- step, run on the state that the restart sets up, aborts at once and changes nothing.
restart_aborts :
    (mongo : Collection GraphRun) (max_iterations : ℕ) (step : Step) (fn : Node mongo)
    (steps : List Step) (run : GraphRun) (failed : String) (w : World mongo)
    → lookup "__failed_step__" run.state ≡ some (text failed)
    → (failed == "") ≡ false
    → (failed == step.id) ≡ false
    → step.type ≢ StepType.join
    → (message : String) × (make_node mongo max_iterations step fn
          (restart_state step.id steps run)
          w
        ≡ (raised message, w))
restart_aborts mongo max_iterations step fn steps run failed w f e n t =
    make_node_blocked mongo max_iterations step fn (restart_state step.id steps run) w failed
      (rw (restart_state_failed step.id steps run (text failed) f) refl) e n t

-- No step of these is done with counts of visits in its output.
abbrev pub none_counts : GraphRun → List Step → Bool
none_counts run ss =
    not (any (λ s. step_is_done run s && has_key "_visit_counts" (output_of run s.id)) ss)

accumulate-none_counts :
    (run : GraphRun) (ss : List Step) (acc : State)
    → none_counts run ss ≡ true
    → lookup "_visit_counts" (accumulate run ss acc) ≡ lookup "_visit_counts" acc
unfolding accumulate
accumulate-none_counts run [] acc h = refl
accumulate-none_counts run (s ∷ ss) acc h = ground (
  arith,
  accumulate-none_counts run ss acc,
  accumulate-none_counts run ss (update acc (output_of run s.id)),
  lookup-update "_visit_counts" acc (output_of run s.id),
)

accumulate-counts :
    (run : GraphRun) (ahead : List Step) (s : Step) (behind : List Step) (counts : Value)
    (acc : State)
    → step_is_done run s ≡ true
    → lookup "_visit_counts" (output_of run s.id) ≡ some counts
    → none_counts run behind ≡ true
    → lookup "_visit_counts" (accumulate run (ahead ++ s ∷ behind) acc) ≡ some counts
unfolding accumulate
accumulate-counts run [] s behind counts acc d c b = ground (
  arith,
  accumulate-none_counts run behind (update acc (output_of run s.id)) b,
  lookup-update "_visit_counts" acc (output_of run s.id),
)
accumulate-counts run (t ∷ ahead) s behind counts acc d c b =
    accumulate-counts run ahead s behind counts
      (if step_is_done run t then update acc (output_of run t.id) else acc) d c b

-- A retried run starts with the counts of visits that the last done step with counts has in its
-- output.
retry_state_counted :
    (run : GraphRun) (ahead : List Step) (s : Step) (behind : List Step) (counts : Value)
    → step_is_done run s ≡ true
    → lookup "_visit_counts" (output_of run s.id) ≡ some counts
    → none_counts run behind ≡ true
    → lookup "_visit_counts" (retry_state (ahead ++ s ∷ behind) run) ≡ some counts
unfolding retry_state
retry_state_counted run ahead s behind counts d c b =
    seed-some retry_keeps "_visit_counts" counts run.state _
      (accumulate-counts run ahead s behind counts (request_only run) d c b)
