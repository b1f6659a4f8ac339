-- ===== src/Workflows/Requests/Preserved.antt =====
-- Each route leaves a run that is cancelled or rejected as it is.
use langgraph_backend.Base.{
  [], ◌∷◌, List, any, String, ◌≡◌, refl, ◌∙◌, true, false, Option, none, some, ◌==◌, arith,
  Option-cases, Bool-cases, inl, inr,
}
use langgraph_backend.Base.Dict.{lookup}
use langgraph_backend.Value.{State}
use langgraph_backend.GraphRun.{new_run, GraphRun}
use langgraph_backend.Mongo.{Collection}
use langgraph_backend.Mongo.Runs.{create}
use langgraph_backend.Definition.{WorkflowDefinition, to_raw_dict}
use langgraph_backend.Recovery.{Build, Reseed, build_runner_for_recovery, last_done}
use langgraph_backend.Step.{Step}
use langgraph_backend.Approval.{Runner, Container, finish_step}
use langgraph_backend.Workflows.Tasks.{Task}
use langgraph_backend.Workflows.Routes.{
  RunRequest, get_runner_for_run, launch, start_run, answer_run, terminate_run, terminated,
  is_active,
}
use langgraph_backend.Workflows.Restart.{
  retry_run, retry_with, restart_from_step, restart_with, retried, restarted, reset_step,
  reset_steps, resume_point, retry_state, restart_state, is_failed, refuses_restart, steps_before,
  steps_from,
}
use langgraph_backend.Workflows.Requests.{is_final}
use langgraph_backend.Workflows.Requests.Stores.{Keeps, save-Keeps, create-Keeps, finish-Keeps}

reset_steps-id : (ss : List Step) (r : GraphRun) → (reset_steps ss r).id ≡ r.id
unfolding reset_steps
reset_steps-id [] r = refl
reset_steps-id (s ∷ ss) r = reset_steps-id ss (reset_step s r)

module _ (mongo : Collection GraphRun) (build : Build) (reseed : Reseed) (run_id : String)
    (run : GraphRun) (final : is_final run.status ≡ true) where
  open mongo use {find_one}

  launch-Keeps :
      (thread_id : String) (body : RunRequest) (runner : Runner) (snapshot : Option State)
      (c : Container mongo)
      → Keeps mongo run_id run c.runs
      → Keeps mongo run_id run (launch mongo thread_id body runner snapshot c).container.runs
  unfolding launch
  launch-Keeps thread_id body runner snapshot c k =
      let r = record (new_run thread_id body.workflow_id body.user_request []) {
        workflow_definition = snapshot;
      } in
      elim (Option-cases (create mongo r c.runs)) [
        | inl e ↦ rw (e, launch) k
        | inr (s', e) ↦ rw (e, launch) (create-Keeps mongo run_id run final r c.runs s' k e)
      ]

  pub start-Keeps :
      (definitions : Option (String → Option WorkflowDefinition)) (thread_id : String)
      (body : RunRequest) (c : Container mongo)
      → Keeps mongo run_id run c.runs
      → Keeps mongo run_id run (start_run mongo build definitions thread_id body c).container.runs
  unfolding start_run
  start-Keeps none thread_id body c k = elim (Option-cases (lookup body.workflow_id c.registry)) [
    | inl e ↦ rw (e, start_run) k
    | inr (runner, e) ↦ rw (e, start_run) (launch-Keeps thread_id body runner none c k)
  ]
  start-Keeps (some definition_of) thread_id body c k =
      elim (Option-cases (definition_of body.workflow_id)) [
        | inl e ↦ rw (e, start_run) k
        | inr (d, e) ↦ elim (Option-cases (build (to_raw_dict d))) [
          | inl f ↦ rw (e, start_run) (rw f k)
          | inr (runner, f) ↦
              rw (e, start_run)
                (rw f (launch-Keeps thread_id body runner (some (to_raw_dict d)) c k))
        ]
      ]

  pub answer-Keeps :
      (task : Runner → GraphRun → Task) (i : String) (claim : Option GraphRun) (c : Container mongo)
      → Keeps mongo run_id run c.runs
      → ((r : GraphRun)
          → claim ≡ some r
          → (find_one i c.runs ≡ some r) × (is_final r.status ≡ false))
      → Keeps mongo run_id run (answer_run mongo task i claim c).container.runs
  unfolding answer_run finish_step
  answer-Keeps task i none c k h = k
  answer-Keeps task i (some r) c k h = elim (Option-cases (get_runner_for_run mongo r c)) [
    | inl e ↦ rw (e, answer_run) k
    | inr (runner, e) ↦
        rw (e, answer_run)
          (finish-Keeps mongo run_id run final i r c.runs k (h r refl).0 (h r refl).1)
  ]

  pub terminate-Keeps :
      (i : String) (c : Container mongo)
      → Keeps mongo run_id run c.runs
      → Keeps mongo run_id run (terminate_run mongo i c).container.runs
  unfolding terminate_run
  terminate-Keeps i c k = elim (Option-cases (find_one i c.runs)) [
    | inl e ↦ rw (e, terminate_run) k
    | inr (r, e) ↦ elim (Bool-cases (is_active r.status)) [
      | inl a ↦
          rw (e, terminate_run)
            (rw a (
              save-Keeps mongo run_id run final i r (terminated r) c.runs k e (ground arith)
                (k.0 i r e)))
      | inr a ↦ rw (e, terminate_run) (rw a k)
    ]
  ]

  retry_with-Keeps :
      (i : String) (r : GraphRun) (runner : Runner) (c : Container mongo)
      → Keeps mongo run_id run c.runs
      → find_one i c.runs ≡ some r
      → is_final r.status ≡ false
      → Keeps mongo run_id run (retry_with mongo build reseed r runner c).container.runs
  unfolding retry_with
  retry_with-Keeps i r runner c k e n =
      elim (Option-cases
        (resume_point reseed (last_done r runner.steps) (retry_state runner.steps r) runner)) [
          | inl p ↦ rw (p, retry_with) k
          | inr (q, p) ↦
              rw (p, retry_with)
                (save-Keeps mongo run_id run final i r (retried runner.steps r) c.runs k e n
                  (k.0 i r e))
        ]

  pub retry_preserves :
      (i : String) (c : Container mongo)
      → Keeps mongo run_id run c.runs
      → Keeps mongo run_id run (retry_run mongo build reseed i c).container.runs
  unfolding retry_run
  retry_preserves i c k = elim (Option-cases (find_one i c.runs)) [
    | inl e ↦ rw (e, retry_run) k
    | inr (r, e) ↦ elim (Bool-cases (is_failed r.status)) [
      | inr a ↦ rw (e, retry_run) (rw a k)
      | inl a ↦ elim (Option-cases (build_runner_for_recovery build c.registry r)) [
        | inl b ↦ rw (e, retry_run) (rw a (rw b k))
        | inr (runner, b) ↦
            rw (e, retry_run) (rw a (rw b (retry_with-Keeps i r runner c k e (ground arith))))
      ]
    ]
  ]

  restart_with-Keeps :
      (id i : String) (r : GraphRun) (runner : Runner) (c : Container mongo)
      → Keeps mongo run_id run c.runs
      → find_one i c.runs ≡ some r
      → is_final r.status ≡ false
      → Keeps mongo run_id run (restart_with mongo build reseed id r runner c).container.runs
  unfolding restart_with restarted
  restart_with-Keeps id i r runner c k e n =
      let saved =
        save-Keeps mongo run_id run final i r (restarted id runner.steps r) c.runs k e n
          (reset_steps-id (steps_from id runner.steps) r ∙ k.0 i r e) in
      elim (Option-cases (
        resume_point reseed (last_done r (steps_before id runner.steps))
          (restart_state id runner.steps r) runner)) [
            | inl p ↦ rw (p, restart_with) saved
            | inr (q, p) ↦ rw (p, restart_with) saved
          ]

  pub restart_preserves :
      (id i : String) (c : Container mongo)
      → Keeps mongo run_id run c.runs
      → Keeps mongo run_id run (restart_from_step mongo build reseed id i c).container.runs
  unfolding restart_from_step
  restart_preserves id i c k = elim (Option-cases (find_one i c.runs)) [
    | inl e ↦ rw (e, restart_from_step) k
    | inr (r, e) ↦ elim (Bool-cases (refuses_restart r.status)) [
      | inl a ↦ rw (e, restart_from_step) (rw a k)
      | inr a ↦ elim (Option-cases (build_runner_for_recovery build c.registry r)) [
        | inl b ↦ rw (e, restart_from_step) (rw a (rw b k))
        | inr (runner, b) ↦ elim (Bool-cases (any (λ s. s.id == id) runner.steps)) [
          | inr m ↦ rw (e, restart_from_step) (rw a (rw b (rw m k)))
          | inl m ↦
              rw (e, restart_from_step)
                (rw a (rw b (rw m (restart_with-Keeps id i r runner c k e (ground arith)))))
        ]
      ]
    ]
  ]
