-- ===== src/Workflows/Requests/Stores.antt =====
-- Writes to other runs leave a run that is cancelled or rejected as it is.
use langgraph_backend.Base.{
  String, ◌≡◌, true, false, some, ◌==◌, arith, eq_iff, Option-cases, inl, inr,
}
use langgraph_backend.GraphRun.{GraphRun}
use langgraph_backend.Mongo.{Collection}
use langgraph_backend.Mongo.Runs.{create, save, claim_for_resume}
use langgraph_backend.Mongo.Claim.{find-claim, claim_for_resume_lem}
use langgraph_backend.Approval.{finish_step}
use langgraph_backend.Workflows.Requests.{is_final}

module _ (mongo : Collection GraphRun) where
  open mongo use {Store, find_one}

  -- Every document is stored under its run's id.
  abbrev pub IsKeyed : Store → Type 0
  IsKeyed s = (i : String) (d : GraphRun) → find_one i s ≡ some d → d.id ≡ i

  abbrev pub Keeps : String → GraphRun → Store → Type 0
  Keeps run_id run s = IsKeyed s × (find_one run_id s ≡ some run)

  module _ (run_id : String) (run : GraphRun) (final : is_final run.status ≡ true) where
    -- A stored run with another status is another run.
    other :
        (i : String) (r : GraphRun) (s : Store)
        → Keeps run_id run s
        → find_one i s ≡ some r
        → is_final r.status ≡ false
        → (i == run_id) ≡ false
    other i r s k f n = ground (arith, eq_iff i run_id)

    pub save-Keeps :
        (i : String) (r r' : GraphRun) (s : Store)
        → Keeps run_id run s
        → find_one i s ≡ some r
        → is_final r.status ≡ false
        → r'.id ≡ i
        → Keeps run_id run (save mongo r' s)
    save-Keeps i r r' s k f n e = (
      λ j d h. ground (arith, mongo.find-replace r'.id r' s j, eq_iff r'.id j, k.0 j d),
      ground (arith, mongo.find-replace r'.id r' s run_id, other i r s k f n),
    )

    pub create-Keeps :
        (r : GraphRun) (s s' : Store)
        → Keeps run_id run s
        → create mongo r s ≡ some s'
        → Keeps run_id run s'
    create-Keeps r s s' k h = (
      λ j d f. ground (arith, mongo.find-insert r.id r s s' h j, eq_iff r.id j, k.0 j d),
      ground (
        arith,
        mongo.find-insert r.id r s s' h run_id,
        eq_iff r.id run_id,
        mongo.insert_fails r.id r run s,
      ),
    )

    pub claim-Keeps :
        (i : String) (s : Store)
        → Keeps run_id run s
        → Keeps run_id run (claim_for_resume mongo i s).1
    claim-Keeps i s k = (
      λ j d f. elim (Option-cases (find_one i s)) [
        | inl e ↦ ground (arith, find-claim mongo i s j, k.0 j d)
        | inr (x, e) ↦ ground (arith, find-claim mongo i s j, eq_iff i j, k.0 i x e, k.0 j d)
      ],
      ground (arith, find-claim mongo i s run_id, eq_iff i run_id),
    )

    pub delete-Keeps :
        (i : String) (s : Store)
        → Keeps run_id run s
        → (i == run_id) ≡ false
        → Keeps run_id run (mongo.delete_one i s)
    delete-Keeps i s k n = (
      λ j d f. ground (arith, mongo.find-delete i s j, k.0 j d),
      ground (arith, mongo.find-delete i s run_id),
    )

    pub finish-Keeps :
        (i : String) (r : GraphRun) (s : Store)
        → Keeps run_id run s
        → find_one i s ≡ some r
        → is_final r.status ≡ false
        → Keeps run_id run (finish_step mongo r s).stored
    unfolding finish_step
    finish-Keeps i r s k f n = elim (Option-cases r.current_step) [
      | inl e ↦ rw (e, finish_step) k
      | inr (id, e) ↦ rw (e, finish_step) (save-Keeps i r _ s k f n (k.0 i r f))
    ]

    pub claim_found :
        (i : String) (r : GraphRun) (s : Store)
        → (claim_for_resume mongo i s).0 ≡ some r
        → (find_one i (claim_for_resume mongo i s).1 ≡ some r) × (is_final r.status ≡ false)
    claim_found i r s h =
        ground (arith, claim_for_resume_lem mongo i s, find-claim mongo i s i, eq_iff i i)
