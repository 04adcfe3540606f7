-- ===== src/ComponentManager/Pods.antt =====
-- pkg/apiserver/component.go: the methods on pods.
use kuberboat.Prelude.{
  String, Bool, ◌&&◌, ◌==◌, string_eq, if◌then◌else◌, lookup, contains, insert, delete, values,
  map_values, filter, List, [], ◌∷◌, Option,
}
use kuberboat.Core.{PodPhase, phase_eq, Labels}
use kuberboat.Util.{is_subset}
use kuberboat.ComponentManager.State.{ComponentManager, Addr, Heap, deref, name_of}

unfoldable pub set_pod : Addr → ComponentManager → ComponentManager
unfolding insert
set_pod a cm = record cm { pods = insert (name_of cm.heap a) a cm.pods }

-- The inner loop of `DeletePodByName`: the first entry of that name goes, and the loop ends.
unfoldable pub remove_pod : Heap → String → List Addr → List Addr
remove_pod h n [] = []
remove_pod h n (a ∷ xs) = let rest = remove_pod h n xs in if name_of h a == n then xs else a ∷ rest

unfoldable pub delete_pod_by_name : String → ComponentManager → ComponentManager
unfolding delete remove_pod
delete_pod_by_name n cm = record cm {
  pods = delete n cm.pods;
  services_to_pods = map_values (remove_pod cm.heap n) cm.services_to_pods;
  deployment_to_pods = map_values (remove_pod cm.heap n) cm.deployment_to_pods;
}

-- `none` is the nil pointer.
unfoldable pub get_pod_by_name : String → ComponentManager → Option Addr
unfolding lookup
get_pod_by_name n cm = lookup n cm.pods

unfoldable pub pod_exists_by_name : String → ComponentManager → Bool
unfolding contains
pod_exists_by_name n cm = contains n cm.pods

unfoldable pub list_pods : ComponentManager → List Addr
list_pods cm = values cm.pods

unfoldable pub list_pods_by_phase : PodPhase → ComponentManager → List Addr
list_pods_by_phase ph cm = filter (λ a. (deref cm.heap a).status.phase == ph) (values cm.pods)

unfoldable pub list_pods_by_labels_and_phase : Labels → PodPhase → ComponentManager → List Addr
list_pods_by_labels_and_phase ls ph cm =
    filter (λ a. (deref cm.heap a).status.phase == ph && is_subset ls (deref cm.heap a).labels)
      (values cm.pods)
