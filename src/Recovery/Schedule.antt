-- ===== src/Recovery/Schedule.antt =====
-- The jobs of cron steps: app/infrastructure/triggers/cron_scheduler.py, and in
-- app/core/container.py `_register_cron_steps`, `_setup_all_cron_triggers` and the part of
-- `refresh_runner` on them. Steps are their raw dicts, with texts for ids and schedules.
use langgraph_backend.Base.{
  String, ◌≡◌, refl, Bool, true, false, Option, none, some, List, [], ◌∷◌, ◌==◌, ◌&&◌, not,
  if◌then◌else◌, starts_with, or_else, is_some, keep, arith, eq_iff, Bool-cases, Option-cases,
  if_cases, inl, inr,
}
use langgraph_backend.Base.Dict.{
  Dict, lookup, insert, remove, lookup-insert, lookup-remove, lookup-keep,
}
use langgraph_backend.Value.{State, get, is_text}
use langgraph_backend.Texts.{◌<>◌}
use langgraph_backend.Webhook.{text_in}

-- What a job runs: the workflow and the template of its request.
pub record Job : Type 0 where
  pub workflow_id : String
  pub template : String

-- The calls of APScheduler, in order.
pub data Call : Type 0 where
  add_job : String → String → Job → Call
  remove_job : String → Call

-- The keys of `_jobs` with their job ids, and the calls so far, the last first.
pub record CronScheduler : Type 0 where
  pub jobs : Dict String
  pub calls : List Call

abbrev pub job_key : String → String → String
job_key workflow_id step_id = workflow_id <> (":" <> step_id)

-- A failure of APScheduler is passed over.
unfoldable pub remove_key : String → CronScheduler → CronScheduler
remove_key key s = elim (lookup key s.jobs) [
  | none ↦ s
  | some id ↦ record { jobs = remove key s.jobs; calls = remove_job key ∷ s.calls }
]

-- Whether APScheduler takes a cron expression is given.
unfoldable pub register : (String → Bool) → String → String → Job → CronScheduler → CronScheduler
unfolding remove_key
register accepts key cron_expr job s =
    let t = remove_key key s in
    if accepts cron_expr
    then record { jobs = insert key key t.jobs; calls = add_job key cron_expr job ∷ t.calls }
    else t

unfoldable pub unregister : String → String → CronScheduler → CronScheduler
unfolding remove_key
unregister workflow_id step_id s = remove_key (job_key workflow_id step_id) s

unfoldable pub remove_keys : Dict String → CronScheduler → CronScheduler
unfolding remove_key
remove_keys [] s = s
remove_keys ((key, id) ∷ keys) s = remove_keys keys (remove_key key s)

abbrev pub is_of : String → String × String → Bool
is_of workflow_id (key, id) = starts_with key (workflow_id <> ":")

unfoldable pub unregister_workflow : String → CronScheduler → CronScheduler
unfolding remove_keys
unregister_workflow workflow_id s = remove_keys (keep (is_of workflow_id) s.jobs) s

-- A cron step with a schedule; one without is skipped.
abbrev pub is_scheduled : State → Bool
is_scheduled step = is_text "cron" (get "type" step) && not (text_in "schedule" step == "")

abbrev pub template_of : String → State → String
template_of workflow_id step = elim (lookup "request_template" step) [
  | none ↦ "Scheduled run of " <> workflow_id
  | some v ↦ text_in "request_template" step
]

abbrev pub cron_key : String → State → String
cron_key workflow_id step = job_key workflow_id (text_in "id" step)

unfoldable pub register_cron_steps :
    (String → Bool) → String → List State → CronScheduler → CronScheduler
unfolding register
register_cron_steps accepts workflow_id [] s = s
register_cron_steps accepts workflow_id (step ∷ steps) s =
    register_cron_steps accepts workflow_id steps (
      if is_scheduled step
      then register accepts (cron_key workflow_id step) (text_in "schedule" step)
          record { workflow_id = workflow_id; template = template_of workflow_id step } s
      else s)

-- For each runner of the registry, with its steps.
unfoldable pub setup_all_cron_triggers :
    (String → Bool) → Dict (List State) → CronScheduler → CronScheduler
unfolding register_cron_steps
setup_all_cron_triggers accepts [] s = s
setup_all_cron_triggers accepts ((workflow_id, steps) ∷ runners) s =
    setup_all_cron_triggers accepts runners (register_cron_steps accepts workflow_id steps s)

-- What `refresh_runner` does to the jobs, with the steps of the definition, where there is one.
unfoldable pub refresh_cron :
    (String → Bool) → String → Option (List State) → CronScheduler → CronScheduler
unfolding unregister_workflow register_cron_steps
refresh_cron accepts workflow_id none s = unregister_workflow workflow_id s
refresh_cron accepts workflow_id (some steps) s =
    register_cron_steps accepts workflow_id steps (unregister_workflow workflow_id s)

-- What the last scheduled step with a key does to it: whether its expression is taken.
unfoldable pub taken : (String → Bool) → String → String → List State → Option Bool
taken accepts workflow_id key [] = none
taken accepts workflow_id key (step ∷ steps) = or_else (taken accepts workflow_id key steps) (
    if is_scheduled step && cron_key workflow_id step == key
    then some (accepts (text_in "schedule" step))
    else none)

lookup-remove_key :
    (key k : String) (s : CronScheduler)
    → lookup k (remove_key key s).jobs ≡ (if key == k then none else lookup k s.jobs)
unfolding remove_key
lookup-remove_key key k s = elim (Option-cases (lookup key s.jobs)) [
  | inl e ↦ rw (e, remove_key) (ground (arith, eq_iff key k))
  | inr (id, e) ↦ rw (e, remove_key) (lookup-remove key k s.jobs)
]

lookup-register :
    (accepts : String → Bool) (key cron_expr : String) (job : Job) (k : String) (s : CronScheduler)
    → lookup k (register accepts key cron_expr job s).jobs
      ≡ (if key == k then (if accepts cron_expr then some key else none) else lookup k s.jobs)
unfolding register
lookup-register accepts key cron_expr job k s =
    let t = remove_key key s in
    if_cases
      (λ (u : CronScheduler).
        lookup k u.jobs
        ≡ (if key == k then (if accepts cron_expr then some key else none) else lookup k s.jobs))
      (accepts cron_expr) _ _
      (λ b. ground (arith, lookup-insert key k key t.jobs, lookup-remove_key key k s))
      (λ b. ground (arith, lookup-remove_key key k s))

lookup-remove_keys :
    (k : String) (keys : Dict String) (s : CronScheduler)
    → lookup k (remove_keys keys s).jobs
      ≡ (if is_some (lookup k keys) then none else lookup k s.jobs)
unfolding remove_keys lookup
lookup-remove_keys k [] s = refl
lookup-remove_keys k ((key, id) ∷ keys) s =
    ground (arith, lookup-remove_keys k keys (remove_key key s), lookup-remove_key key k s)

lookup-register_cron_steps :
    (accepts : String → Bool) (workflow_id : String) (steps : List State) (k : String)
    (s : CronScheduler)
    → lookup k (register_cron_steps accepts workflow_id steps s).jobs
      ≡ (elim (taken accepts workflow_id k steps) [
        | none ↦ lookup k s.jobs
        | some true ↦ some k
        | some false ↦ none
      ])
unfolding register_cron_steps taken
lookup-register_cron_steps accepts workflow_id [] k s = refl
lookup-register_cron_steps accepts workflow_id (step ∷ steps) k s =
    let key = cron_key workflow_id step in
    let job : Job = record { workflow_id = workflow_id; template = template_of workflow_id step } in
    let cron = text_in "schedule" step in
    elim (Bool-cases (is_scheduled step)) [
      | inl b ↦ rw b (
          ground (
            arith,
            lookup-register_cron_steps accepts workflow_id steps k
                (register accepts key cron job s),
            lookup-register accepts key cron job k s,
            eq_iff key k,
          ))
      | inr b ↦ rw b (ground (arith, lookup-register_cron_steps accepts workflow_id steps k s))
    ]

is_some-keep :
    (p : String × String → Bool) (q : String → Bool)
    → ((j i : String) → p (j, i) ≡ q j)
    → (d : Dict String) (k : String) → is_some (lookup k (keep p d)) ≡ q k && is_some (lookup k d)
is_some-keep p q e d k = ground (arith, lookup-keep p q e d k)

lookup-unregister_workflow :
    (workflow_id k : String) (s : CronScheduler)
    → lookup k (unregister_workflow workflow_id s).jobs
      ≡ (if starts_with k (workflow_id <> ":") then none else lookup k s.jobs)
unfolding unregister_workflow
lookup-unregister_workflow workflow_id k s = ground (
  arith,
  lookup-remove_keys k (keep (is_of workflow_id) s.jobs) s,
  is_some-keep (is_of workflow_id) (λ j. starts_with j (workflow_id <> ":")) (λ j i. refl) s.jobs k,
)

-- Behind a refresh of a workflow with a definition, there is a job for a key exactly if the last of
-- its cron steps with a schedule and this key has an expression that is taken, and, for a key of
-- none of them, if there was one before and the key does not begin with the workflow's id and a
-- colon.
pub refresh_cron_lem :
    (accepts : String → Bool) (workflow_id : String) (steps : List State) (k : String)
    (s : CronScheduler)
    → lookup k (refresh_cron accepts workflow_id (some steps) s).jobs
      ≡ (elim (taken accepts workflow_id k steps) [
        | none ↦ if starts_with k (workflow_id <> ":") then none else lookup k s.jobs
        | some true ↦ some k
        | some false ↦ none
      ])
unfolding refresh_cron
refresh_cron_lem accepts workflow_id steps k s = ground (
  arith,
  lookup-register_cron_steps accepts workflow_id steps k (unregister_workflow workflow_id s),
  lookup-unregister_workflow workflow_id k s,
)
