-- ===== src/Mongo/WarmPods.antt =====
-- `WarmPodRecord` and `MongoWarmPodRepository` of app/infrastructure/persistence/mongo.py: the pods of
-- agents that are kept for another visit of their run. Times are numbers; the time of creation and
-- the removal of all pods of a run are left out.
use langgraph_backend.Base.{ℕ, String, Bool, Option, List, leb}
use langgraph_backend.Texts.{◌<>◌}
use langgraph_backend.Mongo.{Collection}

pub record WarmPod : Type 0 where
  pub run_id : String
  pub agent_id : String
  pub agent_url : String
  pub release_name : String
  pub expires_at : ℕ

abbrev pub pod_id : String → String → String
pod_id run_id agent_id = run_id <> ("|" <> agent_id)

-- expires_at <= now
abbrev pub is_expired : ℕ → WarmPod → Bool
is_expired now pod = leb pod.expires_at now

module _ (mongo : Collection WarmPod) where
  open mongo use {Store}

  unfoldable pub get : String → String → Store → Option WarmPod
  get run_id agent_id = mongo.find_one (pod_id run_id agent_id)

  unfoldable pub upsert : WarmPod → Store → Store
  upsert pod = mongo.replace_one (pod_id pod.run_id pod.agent_id) pod

  unfoldable pub delete : String → String → Store → Store
  delete run_id agent_id = mongo.delete_one (pod_id run_id agent_id)

  unfoldable pub list_expired : ℕ → Store → List WarmPod
  list_expired now = mongo.find (is_expired now)
