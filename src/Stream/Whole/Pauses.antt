-- ===== src/Stream/Whole/Pauses.antt =====
-- What a run that paused or failed looks like: it is never left running, an approval that it waits
-- for is unset, and the progress that agents reported is still there.
use langgraph_backend.Base.{
  String, ◌≡◌, ◌≢◌, sym, ap, ◌∙◌, Bool, true, false, Option, none, some, List, arith, eq_iff,
}
use langgraph_backend.Base.Dict.{lookup-insert}
use langgraph_backend.Value.{Value, flag, State, get}
use langgraph_backend.GraphRun.{GraphRun, Status}
use langgraph_backend.Mongo.{Collection}
use langgraph_backend.Step.{Step, StepType}
use langgraph_backend.Node.{approved_key}
use langgraph_backend.Guards.{World}
use langgraph_backend.Stream.{Input, Session}
use langgraph_backend.Stream.Overlay.{is_out_of_band, merge_keeps_others}
use langgraph_backend.Stream.Failure.{stored_state}
use langgraph_backend.Stream.Settle.{
  Snapshot, active_interrupt_type, effective_next, step_of, paused_status, settled, key_to_reset,
  is_false, reset_approval, follow_up, settle,
}
use langgraph_backend.Stream.Notices.{Outlet, notify_pause}
use langgraph_backend.Stream.Whole.Saved.{send_keeps}
use langgraph_backend.Stream.Whole.{End, ended, failed, Graph, finish, stream_graph_to_pause}
use langgraph_backend.Stream.Whole.Outcomes.{ended_status, settle_ended, on_exception_lem}

ended_not_running :
    (steps : List Step) (interrupt : Value) (next : Option String)
    → ended_status steps interrupt next ≢ Status.running
unfolding paused_status
ended_not_running steps interrupt none h = cc
ended_not_running steps interrupt (some id) h = ground arith

module _ (mongo : Collection GraphRun) where
  finish_not_running :
      (outlet : Outlet) (steps : List Step) (end : End) (s : Session mongo)
      → (finish mongo outlet steps end s).0.run.status ≢ Status.running
  unfolding finish notify_pause
  finish_not_running outlet steps (ended snap) s h =
      ended_not_running steps (active_interrupt_type snap s.interrupt_output) _ (
        sym (settle_ended mongo outlet.leases steps snap s.interrupt_output s.world).0
        ∙ sym (send_keeps mongo outlet.post _ _).0
        ∙ h)
  finish_not_running outlet steps (failed message values) s h =
      cc (h, (on_exception_lem mongo outlet.leases message s.current_state values s.world).0)

  -- However a stream goes, the run that it returns is not left with the status running.
  pub stream_not_running :
      (outlet : Outlet) (steps : List Step) (graph : Graph) (input : Input) (values : State)
      (w : World mongo)
      → (stream_graph_to_pause mongo outlet steps graph input values w).0.run.status
        ≢ Status.running
  unfolding stream_graph_to_pause
  stream_not_running outlet steps graph input values w = finish_not_running outlet steps _ _

  get-reset_approval :
      (key : String) (values : State) (w : World mongo)
      → (is_false (get key values) ≡ true → get key w.run.state ≡ flag false)
      → get key (reset_approval mongo (some key) values w).0.run.state ≡ flag false
  unfolding reset_approval
  get-reset_approval key values w h =
      ground (arith, lookup-insert key key (flag false) w.run.state, eq_iff key key)

  follow_up_resets :
      (leases : Bool) (steps : List Step) (snap : Snapshot) (id : String) (s : Step)
      (status : Status) (w : World mongo)
      → status ≡ Status.waiting_approval
      → step_of id steps ≡ some s
      → s.type ≡ StepType.human_approval
      → (is_false (get (approved_key s) snap.values) ≡ true
          → get (approved_key s) w.run.state ≡ flag false)
      → get (approved_key s) (follow_up mongo leases steps snap (some id) status w).0.run.state
        ≡ flag false
  unfolding follow_up key_to_reset
  follow_up_resets leases steps snap id s status w e f t h =
      rw (e, follow_up)
        (rw f (rw (t, key_to_reset) (get-reset_approval (approved_key s) snap.values w h)))

  paused_at_approval :
      (interrupt : Value) (s : Step)
      → s.type ≡ StepType.human_approval
      → paused_status interrupt (some s) ≡ Status.waiting_approval
  unfolding paused_status
  paused_at_approval interrupt s t = ground arith

  -- A stream that ends at a `human_approval` step leaves the run waiting for approval, with the
  -- step's approval key false in its state, if the key has not the prefix of the progress fields.
  pub settle_resets_approval :
      (leases : Bool) (steps : List Step) (snap : Snapshot) (output : Value) (w : World mongo)
      (id : String) (s : Step)
      → effective_next snap (active_interrupt_type snap output) w.run.step_statuses ≡ some id
      → step_of id steps ≡ some s
      → s.type ≡ StepType.human_approval
      → is_out_of_band (approved_key s) ≡ false
      → let run = (settle mongo leases steps snap output w).0.run in
        (run.status ≡ Status.waiting_approval) × (get (approved_key s) run.state ≡ flag false)
  unfolding settle settled
  settle_resets_approval leases steps snap output w id s n f t o = (
    (settle_ended mongo leases steps snap output w).0
        ∙ ap (ended_status steps interrupt) n
        ∙ ap (paused_status interrupt) f
        ∙ paused_at_approval interrupt s t,
    rw n (
        follow_up_resets leases steps snap id s _ _
          (ap (paused_status interrupt) f ∙ paused_at_approval interrupt s t) f t
          (λ unset. ground (
            arith,
            merge_keeps_others (stored_state (mongo.find_one w.run.id w.stored)) snap.values
                (approved_key s),
          ))),
  )
    where
      interrupt : Value
      interrupt = active_interrupt_type snap output
