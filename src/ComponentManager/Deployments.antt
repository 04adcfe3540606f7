-- ===== src/ComponentManager/Deployments.antt =====
-- pkg/apiserver/component.go: the methods on deployments.
use kuberboat.Prelude.{
  String, Bool, ◌&&◌, ◌==◌, string_eq, if◌then◌else◌, GoMap, lookup, contains, insert, delete,
  values, any, List, [], ◌∷◌, ◌++◌, Option, none, some,
}
use kuberboat.Core.{Kind, kind_eq, Deployment, HorizontalPodAutoscaler}
use kuberboat.ComponentManager.State.{ComponentManager, Addr, Heap, name_of}

-- `for it := pods.Front(); … { cm.pods[pod.Name] = pod }`
unfoldable pub set_all : Heap → List Addr → GoMap String Addr → GoMap String Addr
set_all h [] m = m
set_all h (a ∷ xs) m = set_all h xs (insert (name_of h a) a m)

unfoldable pub set_deployment : Deployment → List Addr → ComponentManager → ComponentManager
unfolding set_all insert
set_deployment d xs cm = record cm {
  pods = set_all cm.heap xs cm.pods;
  deployments = insert d.name d cm.deployments;
  deployment_to_pods = insert d.name xs cm.deployment_to_pods;
}

-- `d.field = v` through the pointer that the map holds.
unfoldable pub update_deployment : Deployment → ComponentManager → ComponentManager
unfolding insert
update_deployment d cm = record cm { deployments = insert d.name d cm.deployments }

-- `for it := pods.Front(); … { delete(cm.pods, pod.Name) }`
unfoldable pub delete_all : Heap → List Addr → GoMap String Addr → GoMap String Addr
delete_all h [] m = m
delete_all h (a ∷ xs) m = delete_all h xs (delete (name_of h a) m)

unfoldable pub targets : String → HorizontalPodAutoscaler → Bool
targets d s = s.spec.scale_target_ref.kind == Kind.deployment && s.spec.scale_target_ref.name == d

-- The loop over the autoscalers: the entries still to visit, and the map that it deletes from.
unfoldable pub delete_targeting :
    String
    → GoMap String HorizontalPodAutoscaler
    → GoMap String HorizontalPodAutoscaler
    → GoMap String HorizontalPodAutoscaler
unfolding targets delete
delete_targeting d [] m = m
delete_targeting d ((n, s) ∷ todo) m =
    delete_targeting d todo (if targets d s then delete n m else m)

-- `none` is the panic of `pods.Front()` on the nil list of an unknown deployment.
unfoldable pub delete_deployment_by_name : String → ComponentManager → Option ComponentManager
unfolding lookup delete delete_all delete_targeting
delete_deployment_by_name n cm = elim (lookup n cm.deployment_to_pods) [
  | none ↦ none
  | some xs ↦ some (record cm {
    pods = delete_all cm.heap xs cm.pods;
    deployment_to_pods = delete n cm.deployment_to_pods;
    deployments = delete n cm.deployments;
    autoscalers = delete_targeting n cm.autoscalers cm.autoscalers;
  })
]

unfoldable pub get_deployment_by_name : String → ComponentManager → Option Deployment
unfolding lookup
get_deployment_by_name n cm = lookup n cm.deployments

unfoldable pub deployment_exists_by_name : String → ComponentManager → Bool
unfolding contains
deployment_exists_by_name n cm = contains n cm.deployments

unfoldable pub list_deployments : ComponentManager → List Deployment
list_deployments cm = values cm.deployments

-- `none` is the nil list.
unfoldable pub list_pods_by_deployment_name : String → ComponentManager → Option (List Addr)
unfolding lookup
list_pods_by_deployment_name n cm = lookup n cm.deployment_to_pods

-- `for it := pods.Front(); … { if pod.Name == podName }`
unfoldable pub has_pod : Heap → String → List Addr → Bool
has_pod h n = any λ a. name_of h a == n

-- The name of the first deployment whose list has the pod.
unfoldable pub owner : Heap → String → GoMap String (List Addr) → Option String
unfolding has_pod
owner h n [] = none
owner h n ((d, xs) ∷ m) = if has_pod h n xs then some d else owner h n m

unfoldable pub get_deployment_by_pod_name : String → ComponentManager → Option Deployment
unfolding owner lookup
get_deployment_by_pod_name n cm = elim (owner cm.heap n cm.deployment_to_pods) [
  | none ↦ none
  | some d ↦ lookup d cm.deployments
]

unfoldable pub deployment_autoscaled : String → ComponentManager → Bool
unfolding targets
deployment_autoscaled n cm = any (targets n) (values cm.autoscalers)

-- `pods.PushBack(p)` on the list of a deployment, which the map shares.
unfoldable pub push_deployment_pod : String → Addr → ComponentManager → ComponentManager
unfolding lookup insert
push_deployment_pod n a cm = elim (lookup n cm.deployment_to_pods) [
  | none ↦ cm
  | some xs ↦ record cm { deployment_to_pods = insert n (xs ++ a ∷ []) cm.deployment_to_pods }
]
