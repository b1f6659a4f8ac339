-- ===== src/Recovery/Watch.antt =====
-- The watcher of app/core/container.py, `_watch_waiting_agents` with `_fail_lost_agent_run`: runs
-- whose agent no longer answers are failed. The removal of the agent's containers is left out.
use langgraph_backend.Base.{
  String, ◌≡◌, Bool, true, false, not, Option, none, some, List, [], ◌∷◌, ◌&&◌, if◌then◌else◌,
  arith, eq_iff, Option-cases, Bool-cases, inl, inr, if_intro,
}
use langgraph_backend.Base.Dict.{insert}
use langgraph_backend.Value.{text, record_of}
use langgraph_backend.GraphRun.{GraphRun, Status, StepStatus}
use langgraph_backend.Mongo.{Collection}
use langgraph_backend.Mongo.Runs.{save, list_incomplete}
use langgraph_backend.Workflows.Requests.Stores.{IsKeyed}

abbrev pub is_waiting_agent : Status → Bool
is_waiting_agent Status.waiting_agent = true
is_waiting_agent _ = false

-- The step that waited is shown as failed, with the reason.
abbrev pub show_lost : String → Option String → GraphRun → GraphRun
show_lost reason none run = run
show_lost reason (some id) run = record run {
  step_statuses = insert id StepStatus.failed run.step_statuses;
  step_outputs = insert id (record_of (("error", text reason) ∷ [])) run.step_outputs;
}

unfoldable pub fail_lost_agent_run : String → GraphRun → GraphRun
fail_lost_agent_run reason run = record (show_lost reason run.current_step run) {
  status = Status.failed;
  agent_url = none;
  state = insert "error" (text reason) run.state;
}

-- `healthy` tells whether the agent at a URL answers; a run without a URL is no candidate.
abbrev pub is_lost : (String → Bool) → GraphRun → Bool
is_lost healthy run = elim run.agent_url [
  | none ↦ false
  | some url ↦ is_waiting_agent run.status && not (healthy url)
]

module _ (mongo : Collection GraphRun) (healthy : String → Bool) where
  open mongo use {Store, find_one}

  -- The run is read again before it is failed.
  unfoldable pub fail_fresh : Option GraphRun → Store → Store
  unfolding fail_lost_agent_run
  fail_fresh none s = s
  fail_fresh (some fresh) s =
      if is_waiting_agent fresh.status
      then save mongo (fail_lost_agent_run "Agent pod health check failed" fresh) s
      else s

  unfoldable pub watch_runs : List GraphRun → Store → Store
  unfolding fail_fresh
  watch_runs [] s = s
  watch_runs (run ∷ runs) s =
      watch_runs runs (if is_lost healthy run then fail_fresh (find_one run.id s) s else s)

  unfoldable pub watch_waiting_agents : Store → Store
  unfolding watch_runs list_incomplete
  watch_waiting_agents s = watch_runs (list_incomplete mongo s) s

  -- Every run is stored under its id, and this one is there.
  abbrev Spares : String → GraphRun → Store → Type 0
  Spares j r s = IsKeyed mongo s × (find_one j s ≡ some r)

  failed-id : (reason : String) (run : GraphRun) → (fail_lost_agent_run reason run).id ≡ run.id
  unfolding fail_lost_agent_run
  failed-id reason run = ground arith

  fail_fresh-Spares :
      (j : String) (r : GraphRun) (id : String) (s : Store)
      → is_waiting_agent r.status ≡ false
      → Spares j r s
      → Spares j r (fail_fresh (find_one id s) s)
  unfolding fail_fresh
  fail_fresh-Spares j r id s n k = elim (Option-cases (find_one id s)) [
    | inl e ↦ rw (e, fail_fresh) k
    | inr (fresh, e) ↦ elim (Bool-cases (is_waiting_agent fresh.status)) [
      | inr w ↦ rw (e, fail_fresh) (rw w k)
      | inl w ↦
          rw (e, fail_fresh)
            (rw w (
              let f = fail_lost_agent_run "Agent pod health check failed" fresh in
              let i = failed-id "Agent pod health check failed" fresh in
              (
                λ l d h. ground (arith, mongo.find-replace f.id f s l, eq_iff f.id l, k.0 l d),
                ground (arith, mongo.find-replace f.id f s j, eq_iff f.id j, k.0 id fresh e, i),
              )))
    ]
  ]

  watch_runs-Spares :
      (j : String) (r : GraphRun) (rs : List GraphRun) (s : Store)
      → is_waiting_agent r.status ≡ false
      → Spares j r s
      → Spares j r (watch_runs rs s)
  unfolding watch_runs
  watch_runs-Spares j r [] s n k = k
  watch_runs-Spares j r (run ∷ rs) s n k =
      watch_runs-Spares j r rs (if is_lost healthy run then fail_fresh (find_one run.id s) s else s)
        n (if_intro (Spares j r) (is_lost healthy run) _ _ (fail_fresh-Spares j r run.id s n k) k)

  -- Of runs that are stored under their ids, the watcher changes none that does not wait for an
  -- agent, whichever agents answer.
  pub watch_spares :
      (j : String) (r : GraphRun) (s : Store)
      → IsKeyed mongo s
      → find_one j s ≡ some r
      → is_waiting_agent r.status ≡ false
      → find_one j (watch_waiting_agents s) ≡ some r
  unfolding watch_waiting_agents
  watch_spares j r s keyed f n = (watch_runs-Spares j r (list_incomplete mongo s) s n (keyed, f)).1
