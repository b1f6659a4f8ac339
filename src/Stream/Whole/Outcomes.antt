-- ===== src/Stream/Whole/Outcomes.antt =====
-- What a returned stream leaves in the run: its status on each way out, the error of a failure, the
-- reset of an approval, and the progress that agents reported.
use langgraph_backend.Base.{
  String, ◌≡◌, refl, ◌∙◌, Bool, Option, none, some, List, ◌==◌, if◌then◌else◌, keep, arith,
}
use langgraph_backend.Base.Dict.{lookup, update, lookup-insert, lookup-inserted}
use langgraph_backend.Value.{Value, text, State}
use langgraph_backend.GraphRun.{GraphRun, Status, StepStatus}
use langgraph_backend.Mongo.{Collection}
use langgraph_backend.Step.{Step}
use langgraph_backend.Guards.{World, persist}
use langgraph_backend.Stream.Overlay.{merge_keeps_others}
use langgraph_backend.Stream.Failure.{
  error_output, on_exception, failed_run, failed_state, attribute, is_internal, fail_running,
  running_step, stored_state,
}
use langgraph_backend.Stream.Settle.{
  Snapshot, active_interrupt_type, effective_next, step_of, paused_status, settled,
  record_agent_url, reset_approval, follow_up, settle,
}

-- The status with which a stream that did not raise ends.
abbrev pub ended_status : List Step → Value → Option String → Status
ended_status steps interrupt none = Status.completed
ended_status steps interrupt (some id) = paused_status interrupt (step_of id steps)

module _ (mongo : Collection GraphRun) where
  -- A stream that raises leaves the run failed, with no current step, and with the error in its
  -- state, whatever the state, the checkpoint and the stored run hold.
  pub on_exception_lem :
      (leases : Bool) (message : String) (current checkpoint : State) (w : World mongo)
      → let run = (on_exception mongo leases message current checkpoint w).0.run in
        (run.status ≡ Status.failed)
        × (run.current_step ≡ none)
        × (lookup "error" run.state ≡ some (text message))
  unfolding on_exception failed_run failed_state
  on_exception_lem leases message current checkpoint w = (
    refl,
    refl,
    ground (
      arith,
      merge_keeps_others
          (stored_state (mongo.find_one (attribute message current w.run).id w.stored))
          (failed_state message current (attribute message current w.run).state checkpoint) "error",
      lookup-insert "error" "error" (text message) (
          update (update current (keep is_internal (attribute message current w.run).state))
            checkpoint),
    ),
  )

  -- The step shown as running when the stream raised is shown as failed, with the error for its
  -- output; the status of every other step stays.
  pub on_exception_running :
      (leases : Bool) (message : String) (current checkpoint : State) (w : World mongo)
      (sid j : String)
      → running_step w.run.step_statuses ≡ some sid
      → let run = (on_exception mongo leases message current checkpoint w).0.run in
        (lookup j run.step_statuses
          ≡ (if sid == j then some StepStatus.failed else lookup j w.run.step_statuses))
        × (lookup sid run.step_outputs ≡ some (error_output message))
  unfolding on_exception failed_run attribute fail_running
  on_exception_running leases message current checkpoint w sid j h =
      rw (h, attribute)
        (
          lookup-insert sid j StepStatus.failed w.run.step_statuses,
          lookup-inserted sid (error_output message) w.run.step_outputs,
        )

  -- The follow-up changes neither the status nor the current step.
  follow_up_keeps :
      (leases : Bool) (steps : List Step) (snap : Snapshot) (next : Option String) (status : Status)
      (w : World mongo)
      → let w' = (follow_up mongo leases steps snap next status w).0 in
        (w'.run.status ≡ w.run.status) × (w'.run.current_step ≡ w.run.current_step)
  unfolding follow_up record_agent_url reset_approval
  follow_up_keeps leases steps snap none status w = (refl, refl)
  follow_up_keeps leases steps snap (some id) Status.waiting_agent w = ground arith
  follow_up_keeps leases steps snap (some id) _ w = ground arith

  settled_status :
      (steps : List Step) (snap : Snapshot) (interrupt : Value) (next : Option String)
      (fresh : Option State) (run : GraphRun)
      → let r = settled steps snap interrupt next fresh run in
        (r.status ≡ ended_status steps interrupt next) × (r.current_step ≡ next)
  unfolding settled
  settled_status steps snap interrupt none fresh run = (refl, refl)
  settled_status steps snap interrupt (some id) fresh run = (refl, refl)

  -- In terms of the code's own reading of the snapshot.
  pub settle_ended :
      (leases : Bool) (steps : List Step) (snap : Snapshot) (output : Value) (w : World mongo)
      → let interrupt = active_interrupt_type snap output in
        let next = effective_next snap interrupt w.run.step_statuses in
        let run = (settle mongo leases steps snap output w).0.run in
        (run.status ≡ ended_status steps interrupt next) × (run.current_step ≡ next)
  unfolding settle
  settle_ended leases steps snap output w =
      let interrupt = active_interrupt_type snap output in
      let next = effective_next snap interrupt w.run.step_statuses in
      let fresh = stored_state (mongo.find_one w.run.id w.stored) in
      let run = settled steps snap interrupt next fresh w.run in
      let kept = follow_up_keeps leases steps snap next run.status (persist mongo run w) in
      let known = settled_status steps snap interrupt next fresh w.run in
      (kept.0 ∙ known.0, kept.1 ∙ known.1)
