-- ===== src/Recovery/Sweep.antt =====
-- `_cleanup_expired_warm_pods` of app/core/container.py: the pods whose time is over are uninstalled
-- and forgotten. A release that cannot be uninstalled is forgotten, too.
use langgraph_backend.Base.{
  ℕ, String, ◌≡◌, refl, Bool, none, List, [], ◌∷◌, ◌==◌, if◌then◌else◌, any, map, arith,
}
use langgraph_backend.Mongo.{Collection}
use langgraph_backend.Mongo.WarmPods.{WarmPod, pod_id, delete, list_expired}

abbrev pub has_id : String → WarmPod → Bool
has_id id pod = pod_id pod.run_id pod.agent_id == id

module _ (mongo : Collection WarmPod) where
  open mongo use {Store, find_one}

  -- The collection, and the releases that are uninstalled.
  unfoldable pub forget_pods : List WarmPod → Store → Store × List String
  unfolding delete
  forget_pods [] s = (s, [])
  forget_pods (pod ∷ pods) s =
      let (s', releases) = forget_pods pods (delete mongo pod.run_id pod.agent_id s) in
      (s', pod.release_name ∷ releases)

  -- The sweep at a time, where the container keeps warm pods.
  unfoldable pub cleanup_expired_warm_pods : ℕ → Store → Store × List String
  unfolding forget_pods list_expired
  cleanup_expired_warm_pods now s = forget_pods (list_expired mongo now s) s

  find-forget_pods :
      (id : String) (pods : List WarmPod) (s : Store)
      → find_one id (forget_pods pods s).0 ≡ (if any (has_id id) pods then none else find_one id s)
  unfolding forget_pods delete
  find-forget_pods id [] s = refl
  find-forget_pods id (pod ∷ pods) s = ground (
    arith,
    find-forget_pods id pods (delete mongo pod.run_id pod.agent_id s),
    mongo.find-delete (pod_id pod.run_id pod.agent_id) s id,
  )

  forget_pods_releases :
      (pods : List WarmPod) (s : Store)
      → (forget_pods pods s).1 ≡ map (λ pod. pod.release_name) pods
  unfolding forget_pods
  forget_pods_releases [] s = refl
  forget_pods_releases (pod ∷ pods) s =
      ground (arith, forget_pods_releases pods (delete mongo pod.run_id pod.agent_id s))

  -- Behind a sweep, the collection has no record under the id of a pod that the query for expired
  -- pods found, and under every other id what it had; exactly the releases of the pods that were
  -- found are uninstalled, in their order.
  cleanup_expired_warm_pods_lem :
      (now : ℕ) (id : String) (s : Store)
      → (find_one id (cleanup_expired_warm_pods now s).0
          ≡ (if any (has_id id) (list_expired mongo now s) then none else find_one id s))
        × ((cleanup_expired_warm_pods now s).1
            ≡ map (λ pod. pod.release_name) (list_expired mongo now s))
  unfolding cleanup_expired_warm_pods
  cleanup_expired_warm_pods_lem now id s = (
    find-forget_pods id (list_expired mongo now s) s,
    forget_pods_releases (list_expired mongo now s) s,
  )
