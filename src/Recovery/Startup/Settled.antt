-- ===== src/Recovery/Startup/Settled.antt =====
-- What the recovery of one incomplete run comes to (app/core/container.py, `_recover_run`).
use langgraph_backend.Base.{
  ◌≡◌, refl, Bool, true, false, Option, none, some, ◌||◌, is_some, arith, eq_iff, Option-cases,
  Bool-cases, inl, inr, if_intro,
}
use langgraph_backend.Base.Dict.{lookup, insert, lookup-insert}
use langgraph_backend.GraphRun.{GraphRun, Status}
use langgraph_backend.Mongo.{Collection}
use langgraph_backend.Mongo.Runs.{save}
use langgraph_backend.Approval.{Runner, Container}
use langgraph_backend.Recovery.{Build, Reseed, build_runner_for_recovery}
use langgraph_backend.Recovery.Startup.{
  Outside, Recovered, recover_agent, refire, recover_approval, recover_running, recover_by,
  recover_run, failed_with, lost_agent, has_checkpoint, reseeded, agent_alive,
}

module _ (mongo : Collection GraphRun) (build : Build) (reseed : Reseed) (outside : Outside) where
  -- The stored run has failed.
  abbrev pub stored_failed : Option GraphRun → Bool
  stored_failed none = false
  stored_failed (some run) = elim run.status [ Status.failed ↦ true | _ ↦ false ]

  -- The run has a live runner, or is stored as failed.
  abbrev pub is_settled : GraphRun → Container mongo → Bool
  is_settled run c =
      is_some (lookup run.id c.live_runners) || stored_failed (mongo.find_one run.id c.runs)

  -- A recovery stores the run as failed, or gives it a live runner, and does nothing else to the
  -- container.
  data Does (run : GraphRun) (c c' : Container mongo) : Type 0 where
    fails :
        (f : GraphRun)
        → f.id ≡ run.id
        → f.status ≡ Status.failed
        → c' ≡ record c { runs = save mongo f c.runs }
        → Does run c c'
    connects :
        (runner : Runner)
        → c' ≡ record c { live_runners = insert run.id runner c.live_runners }
        → Does run c c'

  agent-Does :
      (runner : Runner) (run : GraphRun) (c : Container mongo)
      → Does run c (recover_agent mongo build reseed outside runner run c).container
  unfolding recover_agent
  agent-Does runner run c = elim (Bool-cases (agent_alive outside run.agent_url)) [
    | inl e ↦ rw (e, recover_agent) (connects runner refl)
    | inr e ↦ rw (e, recover_agent) (fails (lost_agent run) refl refl refl)
  ]

  refire-Does :
      (runner : Runner) (run : GraphRun) (c : Container mongo)
      → Does run c (refire mongo build reseed outside runner run c).container
  unfolding refire
  refire-Does runner run c = elim (Option-cases (reseeded reseed runner run)) [
    | inl e ↦
        rw (e, refire)
          (fails (failed_with "State recovery failed after server restart" run) refl refl refl)
    | inr (q, e) ↦ elim (Bool-cases (outside.refires q.0 q.1)) [
      | inl f ↦ rw (e, refire) (rw f (connects q.0 refl))
      | inr f ↦
          rw (e, refire)
            (rw f (
              fails (failed_with "Approval state recovery failed after server restart" run) refl
                refl refl))
    ]
  ]

  running-Does :
      (runner : Runner) (run : GraphRun) (c : Container mongo)
      → Does run c (recover_running mongo build reseed outside runner run c).container
  unfolding recover_running
  running-Does runner run c = elim (Option-cases (reseeded reseed runner run)) [
    | inl e ↦
        rw (e, recover_running)
          (fails (failed_with "State recovery failed after server restart" run) refl refl refl)
    | inr (q, e) ↦ rw (e, recover_running) (connects q.0 refl)
  ]

  approval-Does :
      (runner : Runner) (run : GraphRun) (c : Container mongo)
      → Does run c (recover_approval mongo build reseed outside runner run c).container
  unfolding recover_approval
  approval-Does runner run c =
      if_intro (λ (r : Recovered mongo build reseed outside). Does run c r.container)
        (has_checkpoint (outside.snapshot run.id)) _ _ (connects runner refl)
        (refire-Does runner run c)

  by-Does :
      (status : Status) (runner : Runner) (run : GraphRun) (c : Container mongo)
      → Does run c (recover_by mongo build reseed outside status runner run c).container
  unfolding recover_by
  by-Does Status.waiting_agent runner run c = agent-Does runner run c
  by-Does Status.waiting_approval runner run c = approval-Does runner run c
  by-Does _ runner run c = running-Does runner run c

  recover_run-Does :
      (run : GraphRun) (c : Container mongo)
      → Does run c (recover_run mongo build reseed outside run c).container
  unfolding recover_run
  recover_run-Does run c = elim (Option-cases (build_runner_for_recovery build c.registry run)) [
    | inl e ↦
        rw (e, recover_run)
          (fails (failed_with "Workflow definition not available after server restart" run) refl
            refl refl)
    | inr (runner, e) ↦ rw (e, recover_run) (by-Does run.status runner run c)
  ]

  Does-settles :
      (run : GraphRun) (c c' : Container mongo) → Does run c c' → is_settled run c' ≡ true
  Does-settles run c c' (fails f i s e) =
      ground (arith, e, mongo.find-replace f.id f c.runs run.id, eq_iff f.id run.id)
  Does-settles run c c' (connects runner e) =
      ground (arith, e, lookup-insert run.id run.id runner c.live_runners, eq_iff run.id run.id)

  -- When the recovery of an incomplete run returns, whatever the agents, the checkpoints and LangGraph
  -- answer, and whatever the container holds by then: the run has a live runner, or is stored as
  -- failed.
  pub recover_run_settles :
      (run : GraphRun) (c : Container mongo)
      → is_settled run (recover_run mongo build reseed outside run c).container ≡ true
  recover_run_settles run c = Does-settles run c _ (recover_run-Does run c)
