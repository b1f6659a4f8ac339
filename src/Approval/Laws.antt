-- ===== src/Approval/Laws.antt =====
-- What the answers of persons do: who is refused, what a rejection ends as, and the claim that a
-- missing runner leaves behind.
use langgraph_backend.Base.{
  String, ◌≡◌, ◌≢◌, refl, ap, ◌∙◌, false, Option, none, some, arith, eq_iff, Option-cases, inl, inr,
}
use langgraph_backend.Value.{Value}
use langgraph_backend.GraphRun.{GraphRun, Status}
use langgraph_backend.Mongo.{Collection}
use langgraph_backend.Mongo.Runs.{claim_for_resume, set_running}
use langgraph_backend.Mongo.Claim.{claimable, claim_for_resume_lem, find-claim}
use langgraph_backend.Guards.{World}
use langgraph_backend.Approval.{
  Approver, Runner, not_found, conflict, Response, ok, error, Container, runner_of, refusal,
  resume_claimed, mark_rejected, reject_decision, do_approve, do_reject,
}
use langgraph_backend.Stream.Notices.{Outlet}

abbrev status_of : Response Status → Status
status_of (ok s) = s
status_of (error e) = Status.failed

module _ (mongo : Collection GraphRun) (outlet : Outlet) where
  claim_none :
      (run_id : String) (s : mongo.Store)
      → claimable (mongo.find_one run_id s) ≡ false
      → (claim_for_resume mongo run_id s).0 ≡ none
  claim_none run_id s h = ground (arith, claim_for_resume_lem mongo run_id s)

  find-claim_none :
      (run_id : String) (s : mongo.Store) (j : String)
      → claimable (mongo.find_one run_id s) ≡ false
      → mongo.find_one j (claim_for_resume mongo run_id s).1 ≡ mongo.find_one j s
  find-claim_none run_id s j h = ground (arith, find-claim mongo run_id s j)

  -- An approval of a run that does not wait for one is refused, with 404 if there is no such run and
  -- with 409 if there is; no stored run changes, and neither do the live runners.
  pub do_approve_refused :
      (approver : Approver) (decided_at run_id : String) (c : Container mongo)
      → claimable (mongo.find_one run_id c.runs) ≡ false
      → let (response, c') = do_approve mongo outlet approver decided_at run_id c in
        (response ≡ error (refusal (mongo.find_one run_id c.runs)))
        × ((j : String) → mongo.find_one j c'.runs ≡ mongo.find_one j c.runs)
        × (c'.live_runners ≡ c.live_runners)
  unfolding do_approve
  do_approve_refused approver decided_at run_id c h = rw (claim_none run_id c.runs h) (
    ap (λ o. error (refusal o)) (find-claim_none run_id c.runs run_id h),
    λ j. find-claim_none run_id c.runs j h,
    refl,
  )

  claim_some :
      (run_id : String) (s : mongo.Store) (run : GraphRun)
      → mongo.find_one run_id s ≡ some run
      → run.status ≡ Status.waiting_approval
      → (claim_for_resume mongo run_id s).0 ≡ some (set_running run)
  claim_some run_id s run f h = ground (arith, claim_for_resume_lem mongo run_id s)

  stranded :
      (approver : Approver) (at run_id : String) (c : Container mongo) (run : GraphRun)
      → mongo.find_one run_id c.runs ≡ some run
      → run.status ≡ Status.waiting_approval
      → runner_of mongo run run_id c ≡ none
      → do_approve mongo outlet approver at run_id c
        ≡ (error not_found, record c { runs = (claim_for_resume mongo run_id c.runs).1 })
  unfolding do_approve
  stranded approver at run_id c run f h r =
      rw (claim_some run_id c.runs run f h) (rw (r, resume_claimed))

  find-stranded :
      (run_id : String) (s : mongo.Store) (run : GraphRun)
      → mongo.find_one run_id s ≡ some run
      → run.status ≡ Status.waiting_approval
      → mongo.find_one run_id (claim_for_resume mongo run_id s).1 ≡ some (set_running run)
  find-stranded run_id s run f h =
      ground (arith, find-claim mongo run_id s run_id, eq_iff run_id run_id)

  -- An approval of a waiting run for which there is no runner is answered 404, but the claim
  -- stands: the stored run has the status running, with nobody to run it, and any later approval
  -- of it is answered 409.
  do_approve_strands :
      (approver later : Approver) (at later_at run_id : String) (c : Container mongo)
      (run : GraphRun)
      → mongo.find_one run_id c.runs ≡ some run
      → run.status ≡ Status.waiting_approval
      → runner_of mongo run run_id c ≡ none
      → let (response, c') = do_approve mongo outlet approver at run_id c in
        (response ≡ error not_found)
        × (mongo.find_one run_id c'.runs ≡ some (set_running run))
        × ((do_approve mongo outlet later later_at run_id c').0 ≡ error conflict)
  do_approve_strands approver later at later_at run_id c run f h r =
      let found = find-stranded run_id c.runs run f h in
      let c' : Container mongo = record c { runs = (claim_for_resume mongo run_id c.runs).1 } in
      rw (stranded approver at run_id c run f h r) (
        refl,
        found,
        (do_approve_refused later later_at run_id c' (ap claimable found)).0
            ∙ ap (λ o. error (refusal o)) found,
      )

  mark_rejected_not_completed :
      (w : World mongo) → (mark_rejected mongo w).run.status ≢ Status.completed
  unfolding mark_rejected
  mark_rejected_not_completed w h = ground arith

  reject_answer :
      (known : Runner → Runner) (prepared : GraphRun → GraphRun) (decision : Value)
      (run_id : String) (claim : Option GraphRun) (c : Container mongo)
      → (resume_claimed mongo outlet known prepared (mark_rejected mongo) decision run_id claim c).0
        ≢ ok Status.completed
  unfolding resume_claimed
  reject_answer known prepared decision run_id none c h = cc
  reject_answer known prepared decision run_id (some run) c h =
      elim (Option-cases (runner_of mongo run run_id c)) [
        | inl e ↦ refused (rw (e, resume_claimed) at h)
        | inr (runner, e) ↦
            mark_rejected_not_completed _ (ap status_of (rw (e, resume_claimed) at h))
      ]
    where
      refused : error not_found ≡ ok Status.completed → ⊥
      refused p = cc

  -- No rejection is answered with the status completed.
  pub do_reject_not_completed :
      (reason : Value) (approver : Approver) (decided_at run_id : String) (c : Container mongo)
      → (do_reject mongo outlet reason approver decided_at run_id c).0 ≢ ok Status.completed
  unfolding do_reject
  do_reject_not_completed reason approver decided_at run_id c h =
      reject_answer (λ runner. runner) (λ run. run) (reject_decision reason approver decided_at)
        run_id (claim_for_resume mongo run_id c.runs).0
        (record c { runs = (claim_for_resume mongo run_id c.runs).1 }) h
