-- ===== src/K8s.antt =====
-- src/manager/k8s.service.ts: agents as pods with a service. The Kubernetes client is outside the
-- program: its calls are `create_pod`, `create_service`, `read_pod_status`, `delete_service` and
-- `delete_pod`.
pub mod Manifests
pub mod Objects
pub mod Ready
use aries_guardianship_agenc.Base.{
  String, Bool, true, false, some, List, [], ◌∷◌, str_eq, ◌==◌, ltb, if◌then◌else◌,
}
use aries_guardianship_agenc.Js.Number.{nat}
use aries_guardianship_agenc.Js.Value.{
  Value, num, str, array, object, variable, absent, nothing, given,
}
use aries_guardianship_agenc.Effects.{
  Env, M, pure, perform, ◌>>=◌, ◌>>◌, Date, PodCondition, read_file, load_kube_config, create_pod,
  create_service, read_pod_status, delete_service, delete_pod, current_time,
}
use aries_guardianship_agenc.Config.{AgentConfig}
use aries_guardianship_agenc.Config.Command.{get_start_args}
use aries_guardianship_agenc.AgentManager.{AgentManager}
unfoldable pub use aries_guardianship_agenc.K8s.Manifests.{pod_options, service_options}

-- `max < t` and the assignment, in the first loop over the conditions.
pub later : Date → PodCondition → Date
later max item = elim item.last_transition_time [
  | absent ↦ max
  | nothing ↦ max
  | given t ↦ if ltb max.time t.time then t else max
]

pub latest : Date → List PodCondition → Date
unfolding later
latest max [] = max
latest max (item ∷ rest) = latest (later max item) rest

pub is_status : PodCondition → Bool
is_status item = str_eq item.status "True"

-- `item.lastTransitionTime === max`: the same object.
pub is_latest : Date → PodCondition → Bool
is_latest max item = elim item.last_transition_time [
  | absent ↦ false
  | nothing ↦ false
  | given t ↦ t.ref == max.ref
]

-- `conditions.filter(p)`
pub filter_by : (PodCondition → Bool) → List PodCondition → List PodCondition
filter_by p [] = []
filter_by p (item ∷ rest) = let kept = filter_by p rest in if p item then item ∷ kept else kept

-- The loop that sets `ready`.
pub any_ready : Bool → List PodCondition → Bool
any_ready ready [] = ready
any_ready ready (item ∷ rest) = any_ready (if str_eq item.type "Ready" then true else ready) rest

-- `isReadyPod` on the conditions that were read and the date at which it looks.
unfoldable pub ready_since : Date → List PodCondition → Bool
unfolding latest is_status is_latest filter_by any_ready
ready_since now conditions =
    let max = latest now conditions in
    any_ready false (filter_by (is_latest max) (filter_by is_status conditions))

module _ (env : Env) where
  -- `newKubeClient` and `getNamespace`, the initialisers of the fields.
  unfoldable pub new_k8s_namespace : M String
  new_k8s_namespace = do
    perform env load_kube_config
    perform env (read_file (some "/var/run/secrets/kubernetes.io/serviceaccount/namespace"))

  module _ (namespace : String) where
    unfoldable pub start_agent : AgentConfig → M String
    start_agent c = do
      perform env (create_pod namespace (pod_options env c))
      perform env (create_service namespace (service_options c))
      pure c.agent_id

    unfoldable pub is_ready_pod : String → M Bool
    is_ready_pod name = do
      conditions ← perform env (read_pod_status name namespace)
      now ← perform env current_time
      pure (ready_since now conditions)

    unfoldable pub stop_agent : String → M Unit
    stop_agent id = do
      perform env (delete_service id namespace)
      perform env (delete_pod id namespace)

    unfoldable pub k8s_service : AgentManager
    k8s_service = record { start_agent = start_agent; stop_agent = stop_agent }
