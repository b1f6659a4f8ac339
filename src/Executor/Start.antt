-- ===== src/Executor/Start.antt =====
-- How `execute_agent_step` of app/steps/agent_executor.py comes to a running agent, and how it leaves
-- it. What the runtime and the agent's server answer is given; each call is an effect. A call is a
-- request: what a spawn that raises leaves behind is unknown, and that `terminate` fails is passed
-- over by the source.
use langgraph_backend.Base.{
  String, Bool, false, Option, none, some, List, [], ◌∷◌, if◌then◌else◌, or_else,
}

-- What the runtime, the agent's server and the repositories answer for a run.
pub record Runtime : Type 0 where
  -- the URL of a warm pod, where the runtime is Kubernetes and has one
  pub warm_url : Option String
  pub is_healthy : String → Bool
  pub has_container_for_run : Bool
  -- the URL in the stored task, and the one that the runtime knows
  pub task_url : Option String
  pub known_url : Option String
  -- the URL of a new agent; `none` where the runtime raises
  pub spawn : Option String
  -- POST /start succeeds
  pub accepts_start : String → Bool
  -- the step mounts a volume and leases are kept
  pub keeps_lease : Bool
  -- the warm pods are kept, and the record of one can be written
  pub keeps_warm : Bool
  pub parks : Bool

pub data Call : Type 0 where
  delete_warm_pod terminate_by_run_id save_lease upsert_warm_pod spawn_raised : Call
  spawned start terminate save_task : String → Call

pub data Started : Type 0 where
  running : String → Started
  failed : String → Started

-- A new agent is started, and its termination is asked for where it does not accept the start.
unfoldable pub launch : Runtime → Bool → Started × List Call
launch rt leases = elim rt.spawn [
  | none ↦ (failed "spawn failed", spawn_raised ∷ [])
  | some url ↦
      if rt.accepts_start url
      then (
        running url,
        spawned url ∷ start url ∷ save_task url ∷ (if leases then save_lease ∷ [] else []),
      )
      else (failed "Failed to start agent", spawned url ∷ start url ∷ terminate url ∷ [])
]

abbrev pub reuse : Runtime → String → Started × List Call
reuse rt url =
    if rt.accepts_start url
    then (running url, start url ∷ save_task url ∷ [])
    else (failed "Failed to start warm agent", start url ∷ [])

-- A container is there already, as on the resume of an interrupted node; without a known URL it is
-- stale.
unfoldable pub rejoin : Runtime → Started × List Call
unfolding launch
rejoin rt = elim (or_else rt.task_url rt.known_url) [
  | some url ↦ (running url, [])
  | none ↦ let (started, calls) = launch rt false in (started, terminate_by_run_id ∷ calls)
]

unfoldable pub without_warm : Runtime → Started × List Call
unfolding launch rejoin
without_warm rt = if rt.has_container_for_run then rejoin rt else launch rt rt.keeps_lease

unfoldable pub start_agent : Runtime → Started × List Call
unfolding without_warm
start_agent rt = elim rt.warm_url [
  | none ↦ without_warm rt
  | some url ↦
      if rt.is_healthy url
      then reuse rt url
      else (let (started, calls) = without_warm rt in (started, delete_warm_pod ∷ calls))
]

-- Behind the poll loop the pod is parked, or terminated.
unfoldable pub release_agent : Runtime → List Call
release_agent rt =
    if rt.keeps_warm
    then (if rt.parks then upsert_warm_pod ∷ [] else upsert_warm_pod ∷ terminate_by_run_id ∷ [])
    else terminate_by_run_id ∷ []
