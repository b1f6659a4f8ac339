-- ===== src/Mongo/Claim.antt =====
-- The claim of a paused run, which keeps two approvals of one pause apart.
use langgraph_backend.Base.{
  ℕ, zero, suc, String, ◌≡◌, refl, Bool, false, Option, none, some, ◌==◌, ◌&&◌, if◌then◌else◌,
  is_some, arith, eq_iff,
}
use langgraph_backend.GraphRun.{GraphRun, is_waiting_approval}
use langgraph_backend.Mongo.{Collection, claimed}
use langgraph_backend.Mongo.Runs.{claim_for_resume, set_running}

-- The run that a claim finds: the stored one, if it waits for approval.
abbrev pub claimable : Option GraphRun → Bool
claimable none = false
claimable (some run) = is_waiting_approval run.status

module _ (mongo : Collection GraphRun) where
  open mongo use {Store, find_one, update_returns, find-update}

  -- How many of n claims of one run succeed, made one after the other.
  unfoldable pub successes : String → ℕ → Store → ℕ
  successes run_id zero s = 0
  successes run_id (suc n) s =
      let (claim, s') = claim_for_resume mongo run_id s in
      let rest = successes run_id n s' in if is_some claim then suc rest else rest

  -- A claim succeeds exactly if the stored run waits for approval, and then returns that run with
  -- its status set to running and nothing else changed.
  pub claim_for_resume_lem :
      (run_id : String) (s : Store)
      → (claim_for_resume mongo run_id s).0
        ≡ claimed (λ run. is_waiting_approval run.status) set_running (find_one run_id s)
  unfolding claim_for_resume
  claim_for_resume_lem run_id s = update_returns run_id _ _ s

  pub find-claim :
      (run_id : String) (s : Store) (j : String)
      → find_one j (claim_for_resume mongo run_id s).1 ≡ (
          if run_id == j && claimable (find_one run_id s)
          then claimed (λ run. is_waiting_approval run.status) set_running (find_one run_id s)
          else find_one j s)
  unfolding claim_for_resume
  find-claim run_id s j =
      ground (arith, find-update run_id (λ run. is_waiting_approval run.status) set_running s j)

  claimable-claim :
      (run_id : String) (s : Store)
      → claimable (find_one run_id (claim_for_resume mongo run_id s).1) ≡ false
  claimable-claim run_id s = ground (arith, find-claim run_id s run_id, eq_iff run_id run_id)

  successes_of_unclaimable :
      (run_id : String) (n : ℕ) (s : Store)
      → claimable (find_one run_id s) ≡ false
      → successes run_id n s ≡ 0
  unfolding successes
  successes_of_unclaimable run_id zero s h = refl
  successes_of_unclaimable run_id (suc n) s h = ground (
    arith,
    claim_for_resume_lem run_id s,
    claimable-claim run_id s,
    successes_of_unclaimable run_id n (claim_for_resume mongo run_id s).1,
  )

  -- Of any number of claims of one run, made one after the other with no other write between
  -- them, exactly one succeeds if the run waits for approval, and none if it does not.
  pub successes_lem :
      (run_id : String) (n : ℕ) (s : Store)
      → successes run_id (suc n) s ≡ (if claimable (find_one run_id s) then 1 else 0)
  unfolding successes
  successes_lem run_id n s = ground (
    arith,
    claim_for_resume_lem run_id s,
    claimable-claim run_id s,
    successes_of_unclaimable run_id n (claim_for_resume mongo run_id s).1,
  )
