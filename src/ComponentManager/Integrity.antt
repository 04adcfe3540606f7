-- ===== src/ComponentManager/Integrity.antt =====
-- The cache is coherent: its maps agree with one another and with the objects.
use kuberboat.Prelude.{
  ◌≤◌, ◌<◌, String, ◌≡◌, refl, sym, ◌∙◌, string_eq, GoMap, lookup, contains, insert, delete,
  map_values, contains-insert, contains-delete, contains-map_values, IsMap, insert-IsMap,
  delete-IsMap, All-insert, All-delete, List, [], ◌∷◌, ◌++◌, length, All, All-map, none, arith,
  length-append, length-set,
}
use kuberboat.Core.{Pod, PodStatus, Deployment, Service}
use kuberboat.ComponentManager.State.{
  Addr, Heap, deref, name_of, ComponentManager, new_component_manager, alloc, set_status,
}
use kuberboat.ComponentManager.Pods.{set_pod, remove_pod, delete_pod_by_name}
use kuberboat.ComponentManager.Deployments.{set_deployment}
use kuberboat.ComponentManager.Services.{set_service, delete_service_by_name}
use kuberboat.ComponentManager.Links.{
  Linked, remove_pod-Linked, Linked-insert, Linked-heap, name_of-alloc, name_of-set_status,
}

-- A pod stands under its own name.
abbrev pub Named : Heap → String × Addr → Type 0
Named h e = (e.1 < length h) × (name_of h e.1 ≡ e.0)

abbrev pub LinkedEntry : Heap → GoMap String Addr → String × List Addr → Type 0
LinkedEntry h m e = Linked h m e.1

pub record IsCoherent (cm : ComponentManager) : Type 0 where
  pub pods_once : IsMap cm.pods
  pub pods_named : All (Named cm.heap) cm.pods
  pub deployments_linked : All (LinkedEntry cm.heap cm.pods) cm.deployment_to_pods
  pub services_linked : All (LinkedEntry cm.heap cm.pods) cm.services_to_pods
  pub deployments_listed :
      (n : String) → contains n cm.deployments ≡ contains n cm.deployment_to_pods
  pub services_listed : (n : String) → contains n cm.services ≡ contains n cm.services_to_pods

pub new-IsCoherent : IsCoherent new_component_manager
unfolding new_component_manager contains
new-IsCoherent = record {
  pods_once = tt;
  pods_named = tt;
  deployments_linked = tt;
  services_linked = tt;
  deployments_listed = λ n. refl;
  services_listed = λ n. refl;
}

-- A change of objects that keeps the live ones and their names keeps the cache coherent.
heap-IsCoherent :
    (cm : ComponentManager) (h : Heap)
    → length cm.heap ≤ length h
    → ((a : Addr) → a < length cm.heap → name_of h a ≡ name_of cm.heap a)
    → IsCoherent cm
    → IsCoherent (record cm { heap = h })
heap-IsCoherent cm h le same v = record {
  pods_once = v.pods_once;
  pods_named =
      All-map (Named cm.heap) (Named h) cm.pods (λ e p. (omega (arith, p.0), same e.1 p.0 ∙ p.1))
        v.pods_named;
  deployments_linked =
      All-map (LinkedEntry cm.heap cm.pods) (LinkedEntry h cm.pods) cm.deployment_to_pods
        (λ e. Linked-heap cm.heap h cm.pods e.1 le same) v.deployments_linked;
  services_linked =
      All-map (LinkedEntry cm.heap cm.pods) (LinkedEntry h cm.pods) cm.services_to_pods
        (λ e. Linked-heap cm.heap h cm.pods e.1 le same) v.services_linked;
  deployments_listed = v.deployments_listed;
  services_listed = v.services_listed;
}

pub alloc-IsCoherent : (p : Pod) (cm : ComponentManager) → IsCoherent cm → IsCoherent (alloc p cm)
unfolding alloc
alloc-IsCoherent p cm v =
    heap-IsCoherent cm (cm.heap ++ p ∷ []) (omega (arith, length-append cm.heap (p ∷ [])))
      (name_of-alloc cm p) v

pub set_status-IsCoherent :
    (a : Addr) (s : PodStatus) (cm : ComponentManager)
    → IsCoherent cm
    → IsCoherent (set_status a s cm)
unfolding set_status
set_status-IsCoherent a s cm v =
    heap-IsCoherent cm (set_status a s cm).heap
      (omega (arith, length-set cm.heap a (record (deref cm.heap a) { status = s })))
      (name_of-set_status cm a s) v

-- A pod of an unknown name may be added.
pub set_pod-IsCoherent :
    (a : Addr) (cm : ComponentManager)
    → a < length cm.heap
    → lookup (name_of cm.heap a) cm.pods ≡ none
    → IsCoherent cm
    → IsCoherent (set_pod a cm)
unfolding set_pod
set_pod-IsCoherent a cm lt new v = record {
  pods_once = insert-IsMap (name_of cm.heap a) a cm.pods v.pods_once;
  pods_named = All-insert (Named cm.heap) (name_of cm.heap a) a cm.pods (lt, refl) v.pods_named;
  deployments_linked =
      All-map (LinkedEntry cm.heap cm.pods) (LinkedEntry cm.heap after) cm.deployment_to_pods
        (λ e. Linked-insert cm.heap (name_of cm.heap a) a cm.pods e.1 new) v.deployments_linked;
  services_linked =
      All-map (LinkedEntry cm.heap cm.pods) (LinkedEntry cm.heap after) cm.services_to_pods
        (λ e. Linked-insert cm.heap (name_of cm.heap a) a cm.pods e.1 new) v.services_linked;
  deployments_listed = v.deployments_listed;
  services_listed = v.services_listed;
}
  where
    after : GoMap String Addr
    after = insert (name_of cm.heap a) a cm.pods

remove_everywhere :
    (h : Heap) (n : String) (m : GoMap String Addr) (lists : GoMap String (List Addr))
    → All (LinkedEntry h m) lists
    → All (LinkedEntry h (delete n m)) (map_values (remove_pod h n) lists)
remove_everywhere h n m [] l = tt
remove_everywhere h n m ((d, xs) ∷ lists) l =
    (remove_pod-Linked h n m xs l.0, remove_everywhere h n m lists l.1)

-- The deletion of a pod keeps the cache coherent: no list of a deployment or of a service is left
-- with the deleted pod, or with any other object that the map of pods does not hold.
pub delete_pod_by_name-IsCoherent :
    (n : String) (cm : ComponentManager) → IsCoherent cm → IsCoherent (delete_pod_by_name n cm)
unfolding delete_pod_by_name
delete_pod_by_name-IsCoherent n cm v = record {
  pods_once = delete-IsMap n cm.pods v.pods_once;
  pods_named = All-delete (Named cm.heap) n cm.pods v.pods_named;
  deployments_linked =
      remove_everywhere cm.heap n cm.pods cm.deployment_to_pods v.deployments_linked;
  services_linked = remove_everywhere cm.heap n cm.pods cm.services_to_pods v.services_linked;
  deployments_listed = λ k.
      v.deployments_listed k
      ∙ sym (contains-map_values (remove_pod cm.heap n) k cm.deployment_to_pods);
  services_listed = λ k.
      v.services_listed k ∙ sym (contains-map_values (remove_pod cm.heap n) k cm.services_to_pods);
}

-- A service may be stored with any linked list of pods.
pub set_service-IsCoherent :
    (s : Service) (xs : List Addr) (cm : ComponentManager)
    → Linked cm.heap cm.pods xs
    → IsCoherent cm
    → IsCoherent (set_service s xs cm)
unfolding set_service
set_service-IsCoherent s xs cm l v = record {
  pods_once = v.pods_once;
  pods_named = v.pods_named;
  deployments_linked = v.deployments_linked;
  services_linked =
      All-insert (LinkedEntry cm.heap cm.pods) s.name xs cm.services_to_pods l v.services_linked;
  deployments_listed = v.deployments_listed;
  services_listed = λ k. ground (
    arith,
    contains-insert s.name k s cm.services,
    contains-insert s.name k xs cm.services_to_pods,
    v.services_listed k,
  );
}

pub delete_service_by_name-IsCoherent :
    (n : String) (cm : ComponentManager) → IsCoherent cm → IsCoherent (delete_service_by_name n cm)
unfolding delete_service_by_name
delete_service_by_name-IsCoherent n cm v = record {
  pods_once = v.pods_once;
  pods_named = v.pods_named;
  deployments_linked = v.deployments_linked;
  services_linked =
      All-delete (LinkedEntry cm.heap cm.pods) n cm.services_to_pods v.services_linked;
  deployments_listed = v.deployments_listed;
  services_listed = λ k. ground (
    arith,
    contains-delete n k cm.services,
    contains-delete n k cm.services_to_pods,
    v.services_listed k,
  );
}

-- A deployment is created with the empty list.
pub set_deployment-IsCoherent :
    (d : Deployment) (cm : ComponentManager) → IsCoherent cm → IsCoherent (set_deployment d [] cm)
unfolding set_deployment
set_deployment-IsCoherent d cm v = record {
  pods_once = v.pods_once;
  pods_named = v.pods_named;
  deployments_linked =
      All-insert (LinkedEntry cm.heap cm.pods) d.name [] cm.deployment_to_pods tt
        v.deployments_linked;
  services_linked = v.services_linked;
  deployments_listed = λ k. ground (
    arith,
    contains-insert d.name k d cm.deployments,
    contains-insert d.name k no_pods cm.deployment_to_pods,
    v.deployments_listed k,
  );
  services_listed = v.services_listed;
}
  where
    no_pods : List Addr
    no_pods = []
