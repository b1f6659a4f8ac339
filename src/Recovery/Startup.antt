-- ===== src/Recovery/Startup.antt =====
-- The recovery of app/core/container.py at the start of the server: `_recover_incomplete_runs`,
-- `_recover_run` and `_resume_run`.
pub mod Settled
use langgraph_backend.Base.{
  String, ◌≡◌, refl, ap, Bool, true, false, Option, none, some, List, [], ◌∷◌, ◌++◌, ◌||◌,
  if◌then◌else◌, is_some, arith, eq_iff, Option-cases, Bool-cases, inl, inr, if_intro,
}
use langgraph_backend.Base.Dict.{Dict, lookup, insert, lookup-inserted}
use langgraph_backend.Value.{text, State}
use langgraph_backend.GraphRun.{GraphRun, Status, is_terminal}
use langgraph_backend.Mongo.{Collection}
use langgraph_backend.Mongo.Runs.{save, list_incomplete, find-save}
use langgraph_backend.Guards.{World}
use langgraph_backend.Stream.{Input, initial, nothing, Effect, terminate_container}
use langgraph_backend.Stream.Settle.{Snapshot}
use langgraph_backend.Stream.Whole.{stream_graph_to_pause}
use langgraph_backend.Approval.{Runner, Container, Response, close}
use langgraph_backend.Recovery.{
  Build, Reseed, build_runner_for_recovery, accumulate, last_done, seed, is_internal_value,
  request_only,
}
use langgraph_backend.Stream.Notices.{Outlet, silent}

-- A failed run whose state is replaced by the error.
abbrev pub failed_with : String → GraphRun → GraphRun
failed_with message run = record run {
  status = Status.failed;
  state = ("error", text message) ∷ [];
}

-- A failed run whose agent is gone.
abbrev pub lost_agent : GraphRun → GraphRun
lost_agent run = record run {
  status = Status.failed;
  agent_url = none;
  state = insert "error" (text "Agent container lost due to server restart") run.state;
}

abbrev pub has_interrupts : Snapshot → Bool
has_interrupts snap = elim snap.interrupts [ [] ↦ false | i ∷ is ↦ true ]

abbrev pub has_checkpoint : Option Snapshot → Bool
has_checkpoint none = false
has_checkpoint (some snap) = elim snap.next [ [] ↦ has_interrupts snap | n ∷ ns ↦ true ]

-- What the recovery finds outside: whether an agent at a URL is alive, the snapshot of a run, and
-- whether LangGraph streams an input again without an exception.
pub record Outside : Type 0 where
  pub is_alive : String → Bool
  pub snapshot : String → Option Snapshot
  pub refires : Runner → Input → Bool

abbrev pub agent_alive : Outside → Option String → Bool
agent_alive outside none = false
agent_alive outside (some url) = outside.is_alive url

unfoldable pub recovered_state : Runner → GraphRun → State
unfolding accumulate seed
recovered_state runner run =
    seed is_internal_value run.state (accumulate run runner.steps (request_only run))

-- The runner behind the last step that is done, and the input; `none` where LangGraph refuses it.
unfoldable pub reseeded : Reseed → Runner → GraphRun → Option (Runner × Input)
unfolding recovered_state last_done
reseeded reseed runner run = elim (last_done run runner.steps) [
  | none ↦ some (runner, initial (recovered_state runner run))
  | some id ↦ elim (reseed runner (recovered_state runner run) id) [
    | none ↦ none
    | some seeded ↦ some (seeded, nothing)
  ]
]

module _ (mongo : Collection GraphRun) (build : Build) (reseed : Reseed) (outside : Outside) where
  -- The container, a run that streams in the background, and what is done elsewhere.
  pub record Recovered : Type 0 where
    pub container : Container mongo
    pub resumes : Option (Runner × Input)
    pub effects : List Effect

  abbrev pub stored_as : GraphRun → Container mongo → Recovered
  stored_as run c = record {
    container = record c { runs = save mongo run c.runs };
    resumes = none;
    effects = [];
  }

  abbrev pub reconnected : Runner → GraphRun → Container mongo → Recovered
  reconnected runner run c = record {
    container = record c { live_runners = insert run.id runner c.live_runners };
    resumes = none;
    effects = [];
  }

  unfoldable pub recover_agent : Runner → GraphRun → Container mongo → Recovered
  recover_agent runner run c =
      if agent_alive outside run.agent_url
      then reconnected runner run c
      else record (stored_as (lost_agent run) c) { effects = terminate_container run.id ∷ [] }

  -- Without a checkpoint the graph is streamed again up to its interrupt.
  unfoldable pub refire : Runner → GraphRun → Container mongo → Recovered
  unfolding reseeded
  refire runner run c = elim (reseeded reseed runner run) [
    | none ↦ stored_as (failed_with "State recovery failed after server restart" run) c
    | some (seeded, input) ↦
        if outside.refires seeded input
        then reconnected seeded run c
        else stored_as (failed_with "Approval state recovery failed after server restart" run) c
  ]

  unfoldable pub recover_approval : Runner → GraphRun → Container mongo → Recovered
  unfolding refire
  recover_approval runner run c =
      if has_checkpoint (outside.snapshot run.id)
      then reconnected runner run c
      else refire runner run c

  unfoldable pub recover_running : Runner → GraphRun → Container mongo → Recovered
  unfolding reseeded
  recover_running runner run c = elim (reseeded reseed runner run) [
    | none ↦ stored_as (failed_with "State recovery failed after server restart" run) c
    | some (seeded, input) ↦ record (reconnected seeded run c) { resumes = some (seeded, input) }
  ]

  -- By the status of the run; an incomplete run has one of three.
  unfoldable pub recover_by : Status → Runner → GraphRun → Container mongo → Recovered
  unfolding recover_agent recover_approval recover_running
  recover_by Status.waiting_agent runner run c = recover_agent runner run c
  recover_by Status.waiting_approval runner run c = recover_approval runner run c
  recover_by _ runner run c = recover_running runner run c

  unfoldable pub recover_run : GraphRun → Container mongo → Recovered
  unfolding recover_by
  recover_run run c = elim (build_runner_for_recovery build c.registry run) [
    | none ↦ stored_as (failed_with "Workflow definition not available after server restart" run) c
    | some runner ↦ recover_by run.status runner run c
  ]

  abbrev pub started_stream : GraphRun → Option (Runner × Input) → List (GraphRun × Runner × Input)
  started_stream run none = []
  started_stream run (some (runner, input)) = (run, runner, input) ∷ []

  -- Each run in turn, as it was listed. The streams of resumed runs are tasks of their own, which
  -- go on while later runs are recovered: `meanwhile` stands for what they do to the container by
  -- the time the recovery of the next run starts, from the streams that have been started.
  unfoldable pub recover_all :
      (List (GraphRun × Runner × Input) → Container mongo → Container mongo)
      → List (GraphRun × Runner × Input)
      → List GraphRun
      → Container mongo
      → Container mongo
  unfolding recover_run
  recover_all meanwhile streams [] c = c
  recover_all meanwhile streams (run ∷ runs) c =
      let recovered = recover_run run c in
      let streams' = streams ++ started_stream run recovered.resumes in
      recover_all meanwhile streams' runs (meanwhile streams' recovered.container)

  unfoldable pub recover_incomplete_runs :
      (List (GraphRun × Runner × Input) → Container mongo → Container mongo)
      → Container mongo
      → Container mongo
  unfolding recover_all list_incomplete
  recover_incomplete_runs meanwhile c = recover_all meanwhile [] (list_incomplete mongo c.runs) c

  -- The stream of a recovered run, and the end of its live runner.
  unfoldable pub resume_run :
      Outlet → Runner → GraphRun → Input → Container mongo → Response Status × Container mongo
  unfolding stream_graph_to_pause close
  resume_run outlet runner run input c =
      let w : World mongo = record { run = run; stored = c.runs } in
      close mongo run.id
        (stream_graph_to_pause mongo (silent outlet) runner.steps runner.graph input runner.values
          w).0
        c
