-- ===== src/Workflows/Restart/Statuses.antt =====
-- What a retry and a restart do to the statuses and outputs of the steps.
use langgraph_backend.Base.{
  String, ◌≡◌, refl, Bool, false, none, some, List, [], ◌∷◌, ◌++◌, ◌==◌, ◌||◌, if◌then◌else◌, any,
  All, arith, eq_iff,
}
use langgraph_backend.Base.Dict.{Dict, lookup, insert, lookup-insert, lookup-remove}
use langgraph_backend.GraphRun.{GraphRun, StepStatus}
use langgraph_backend.Step.{Step}
use langgraph_backend.Workflows.Display.{has_failed}
use langgraph_backend.Workflows.Restart.{
  reset_failed, retried, reset_step, reset_steps, steps_from, restarted,
}

not_failed :
    (j : String) (found : Bool) (ss : List Step) (d : Dict StepStatus)
    → has_failed (lookup j d) ≡ false
    → has_failed (lookup j (reset_failed found ss d)) ≡ false
unfolding reset_failed
not_failed j found [] d h = h
not_failed j found (s ∷ ss) d h = ground (
  arith,
  lookup-insert s.id j StepStatus.pending d,
  not_failed j (found || has_failed (lookup s.id d)) ss d,
  not_failed j (found || has_failed (lookup s.id d)) ss (insert s.id StepStatus.pending d),
)

-- No step of the workflow is failed behind a reset.
abbrev pub any_failed : List Step → Dict StepStatus → Bool
any_failed ss d = any (λ s. has_failed (lookup s.id d)) ss

reset_failed_lem :
    (found : Bool) (ss : List Step) (d : Dict StepStatus)
    → any_failed ss (reset_failed found ss d) ≡ false
unfolding reset_failed
reset_failed_lem found [] d = refl
reset_failed_lem found (s ∷ ss) d =
    let f = found || has_failed (lookup s.id d) in
    let d' = if f then insert s.id StepStatus.pending d else d in
    ground (
      arith,
      lookup-insert s.id s.id StepStatus.pending d,
      eq_iff s.id s.id,
      not_failed s.id f ss d',
      reset_failed_lem f ss d',
    )

untouched :
    (j : String) (found : Bool) (ss : List Step) (d : Dict StepStatus)
    → any (λ s. s.id == j) ss ≡ false
    → lookup j (reset_failed found ss d) ≡ lookup j d
unfolding reset_failed
untouched j found [] d h = refl
untouched j found (s ∷ ss) d h = ground (
  arith,
  lookup-insert s.id j StepStatus.pending d,
  untouched j (found || has_failed (lookup s.id d)) ss d,
  untouched j (found || has_failed (lookup s.id d)) ss (insert s.id StepStatus.pending d),
)

reset_failed-ahead :
    (ahead behind : List Step) (d : Dict StepStatus)
    → any_failed ahead d ≡ false
    → reset_failed false (ahead ++ behind) d ≡ reset_failed false behind d
unfolding reset_failed
reset_failed-ahead [] behind d h = refl
reset_failed-ahead (s ∷ ahead) behind d h = ground (arith, reset_failed-ahead ahead behind d)

-- A retry leaves the status of every step ahead of the first failed one as it was: of a step that
-- has none of the ids from the first failed step on.
retried_keeps_ahead :
    (ahead behind : List Step) (run : GraphRun) (j : String)
    → any_failed ahead run.step_statuses ≡ false
    → any (λ s. s.id == j) behind ≡ false
    → lookup j (retried (ahead ++ behind) run).step_statuses ≡ lookup j run.step_statuses
unfolding retried
retried_keeps_ahead ahead behind run j h b =
    rw (reset_failed-ahead ahead behind run.step_statuses h)
      (untouched j false behind run.step_statuses b)

-- No step of the workflow is shown as failed behind a retry.
pub retried_none_failed :
    (steps : List Step) (run : GraphRun)
    → any_failed steps (retried steps run).step_statuses ≡ false
unfolding retried
retried_none_failed steps run = reset_failed_lem false steps run.step_statuses

-- A step is shown as it is before it starts: pending, with neither input nor output.
abbrev pub IsReset : GraphRun → String → Type 0
IsReset run j =
    (lookup j run.step_statuses ≡ some StepStatus.pending)
    × (lookup j run.step_inputs ≡ none)
    × (lookup j run.step_outputs ≡ none)

reset_step-IsReset : (s : Step) (run : GraphRun) → IsReset (reset_step s run) s.id
reset_step-IsReset s run = ground (
  arith,
  lookup-insert s.id s.id StepStatus.pending run.step_statuses,
  lookup-remove s.id s.id run.step_inputs,
  lookup-remove s.id s.id run.step_outputs,
  eq_iff s.id s.id,
)

reset_step_keeps :
    (s : Step) (run : GraphRun) (j : String) → IsReset run j → IsReset (reset_step s run) j
reset_step_keeps s run j h = ground (
  arith,
  lookup-insert s.id j StepStatus.pending run.step_statuses,
  lookup-remove s.id j run.step_inputs,
  lookup-remove s.id j run.step_outputs,
)

reset_steps_keep :
    (ss : List Step) (run : GraphRun) (j : String) → IsReset run j → IsReset (reset_steps ss run) j
unfolding reset_steps
reset_steps_keep [] run j h = h
reset_steps_keep (s ∷ ss) run j h =
    reset_steps_keep ss (reset_step s run) j (reset_step_keeps s run j h)

reset_steps-IsReset :
    (ss : List Step) (run : GraphRun) → All (λ s. IsReset (reset_steps ss run) s.id) ss
unfolding reset_steps
reset_steps-IsReset [] run = tt
reset_steps-IsReset (s ∷ ss) run = (
  reset_steps_keep ss (reset_step s run) s.id (reset_step-IsReset s run),
  reset_steps-IsReset ss (reset_step s run),
)

-- A restart shows the chosen step and every step behind it as it is before it starts: pending,
-- with neither input nor output.
restarted-IsReset :
    (id : String) (steps : List Step) (run : GraphRun)
    → All (λ s. IsReset (restarted id steps run) s.id) (steps_from id steps)
unfolding restarted
restarted-IsReset id steps run = reset_steps-IsReset (steps_from id steps) run

reset_steps_other :
    (ss : List Step) (run : GraphRun) (j : String)
    → any (λ s. s.id == j) ss ≡ false
    → (lookup j (reset_steps ss run).step_statuses ≡ lookup j run.step_statuses)
      × (lookup j (reset_steps ss run).step_outputs ≡ lookup j run.step_outputs)
unfolding reset_steps
reset_steps_other [] run j h = (refl, refl)
reset_steps_other (s ∷ ss) run j h = ground (
  arith,
  reset_steps_other ss (reset_step s run) j,
  lookup-insert s.id j StepStatus.pending run.step_statuses,
  lookup-remove s.id j run.step_outputs,
)

-- A step with none of the ids from the chosen step on keeps its status and its output.
pub restarted_keeps_ahead :
    (id : String) (steps : List Step) (run : GraphRun) (j : String)
    → any (λ s. s.id == j) (steps_from id steps) ≡ false
    → (lookup j (restarted id steps run).step_statuses ≡ lookup j run.step_statuses)
      × (lookup j (restarted id steps run).step_outputs ≡ lookup j run.step_outputs)
unfolding restarted
restarted_keeps_ahead id steps run j h = reset_steps_other (steps_from id steps) run j h
