-- ===== src/Agent/Output.antt =====
-- `agent_output` and `_resume_with_output` of app/api/routes/agent_callbacks.py: an agent's result
-- fails the run or resumes it. The removal of the agent's containers is not modelled. `show` stands
-- for Python's str, which is not the program's.
use langgraph_backend.Base.{
  String, ◌≡◌, ◌≢◌, refl, ap, Bool, true, false, none, some, [], ◌∷◌, if◌then◌else◌,
}
use langgraph_backend.Base.Dict.{lookup, insert, lookup-inserted}
use langgraph_backend.Texts.{◌<>◌}
use langgraph_backend.Value.{Value, text, State, record_of}
use langgraph_backend.GraphRun.{GraphRun, Status, StepStatus}
use langgraph_backend.Mongo.{Collection}
use langgraph_backend.Mongo.Runs.{save, find-save}
use langgraph_backend.Guards.{World, persist}
use langgraph_backend.Stream.{resume}
use langgraph_backend.Stream.Failure.{error_output}
use langgraph_backend.Stream.Whole.Pauses.{stream_not_running}
use langgraph_backend.Approval.{
  Runner, not_found, conflict, Response, ok, error, Container, runner_of, resumed, close,
}
use langgraph_backend.Stream.Notices.{Outlet}

-- run.status in ("waiting_agent", "running")
abbrev pub takes_output : Status → Bool
takes_output Status.waiting_agent = true
takes_output Status.running = true
takes_output _ = false

-- The run of an agent that reports an error.
unfoldable pub agent_failed : String → GraphRun → GraphRun
agent_failed message run = record run {
  status = Status.failed;
  state = insert "error" (text ("Agent error: " <> message)) run.state;
  agent_url = none;
  step_statuses = elim run.current_step [
    | none ↦ run.step_statuses
    | some id ↦ insert id StepStatus.failed run.step_statuses
  ];
  step_outputs = elim run.current_step [
    | none ↦ run.step_outputs
    | some id ↦ insert id (error_output message) run.step_outputs
  ];
}

abbrev status_or : Status → Response Status → Status
status_or default (ok s) = s
status_or default (error e) = default

module _ (show : Value → String) (mongo : Collection GraphRun) where
  open mongo use {find_one}

  -- What the request is answered, with the arguments of the background task.
  pub data Accepted : Type 0 where
    reported_failure : Accepted
    resuming : Runner → World mongo → Accepted

  -- The body behind the lookup of the runner.
  unfoldable pub take_output :
      State → GraphRun → Runner → Container mongo → Response Accepted × Container mongo
  unfolding agent_failed
  take_output output run runner c = elim (lookup "error" output) [
    | some message ↦ (
      ok reported_failure,
      record c { runs = save mongo (agent_failed (show message) run) c.runs },
    )
    | none ↦
        let w =
          persist mongo (record run { status = Status.running; agent_url = none })
            (record { run = run; stored = c.runs }) in
        (ok (resuming runner w), record c { runs = w.stored })
  ]

  unfoldable pub agent_output :
      String → State → Container mongo → Response Accepted × Container mongo
  unfolding take_output
  agent_output run_id output c = elim (find_one run_id c.runs) [
    | none ↦ (error not_found, c)
    | some run ↦
        if takes_output run.status
        then (elim (runner_of mongo run run_id c) [
          | none ↦ (error not_found, c)
          | some runner ↦ take_output output run runner c
        ])
        else (error conflict, c)
  ]

  -- The background task, when nothing but the stream's own nodes raises.
  unfoldable pub resume_with_output :
      Outlet → State → Runner → World mongo → Container mongo → Response Status × Container mongo
  unfolding close
  resume_with_output outlet output runner w c =
      let w' = resumed mongo outlet runner (record_of (("output", record_of output) ∷ [])) w in
      close mongo w'.run.id w' c

  -- An agent's output that is an error, for a run that waits for the agent or runs, and has a
  -- runner and a current step, leaves the stored run failed, with the error in its state, and its
  -- current step shown as failed.
  pub agent_output_failed :
      (run_id step : String) (message : Value) (output : State) (run : GraphRun) (runner : Runner)
      (c : Container mongo)
      → find_one run_id c.runs ≡ some run
      → run.current_step ≡ some step
      → takes_output run.status ≡ true
      → runner_of mongo run run_id c ≡ some runner
      → lookup "error" output ≡ some message
      → let (response, c') = agent_output run_id output c in
        let run' = agent_failed (show message) run in
        (response ≡ ok reported_failure)
        × (find_one run.id c'.runs ≡ some run')
        × (run'.status ≡ Status.failed)
        × (lookup step run'.step_statuses ≡ some StepStatus.failed)
        × (lookup "error" run'.state ≡ some (text ("Agent error: " <> show message)))
  unfolding agent_output take_output agent_failed
  agent_output_failed run_id step message output run runner c f s t r o =
      rw (f, agent_output)
        (rw t (
          rw r (
            rw (o, take_output)
              (
                refl,
                find-save mongo (agent_failed (show message) run) c.runs,
                refl,
                rw s (lookup-inserted step StepStatus.failed run.step_statuses),
                lookup-inserted "error" (text ("Agent error: " <> show message)) run.state,
              ))))

  resumed_not_running :
      (outlet : Outlet) (output : State) (runner : Runner) (w : World mongo) (c : Container mongo)
      → (resume_with_output outlet output runner w c).0 ≢ ok Status.running
  unfolding resume_with_output close
  resumed_not_running outlet output runner w c h =
      stream_not_running mongo outlet runner.steps runner.graph
        (resume (record_of (("output", record_of output) ∷ []))) runner.values w
        (ap (status_or Status.failed) h)

  -- An output without an error, for a run that waits for the agent or runs and has a runner, is
  -- accepted; the run is resumed with the status running, and that is not its status any more when
  -- the background task is over.
  pub agent_output_resumes :
      (outlet : Outlet) (run_id : String) (output : State) (run : GraphRun) (runner : Runner)
      (c : Container mongo)
      → find_one run_id c.runs ≡ some run
      → takes_output run.status ≡ true
      → runner_of mongo run run_id c ≡ some runner
      → lookup "error" output ≡ none
      → (w : World mongo) × ((agent_output run_id output c).0 ≡ ok (resuming runner w))
        × (w.run.status ≡ Status.running)
        × (let (response, c') =
              resume_with_output outlet output runner w (agent_output run_id output c).1 in
            response ≢ ok Status.running)
  unfolding agent_output take_output
  agent_output_resumes outlet run_id output run runner c f t r o =
      rw (f, agent_output)
        (rw t (
          rw r (
            rw (o, take_output)
              (_, refl, refl, λ h. resumed_not_running outlet output runner _ _ h))))
