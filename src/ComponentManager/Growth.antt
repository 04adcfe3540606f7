-- ===== src/ComponentManager/Growth.antt =====
-- Pods join the lists of deployments and services; a deployment that has no pod left is deleted.
use kuberboat.Prelude.{
  ◌<◌, String, ◌≡◌, ◌≢◌, sym, ◌∙◌, true, ==_iff, string_eq, GoMap, lookup, contains,
  contains-lookup, insert, delete, contains-insert, contains-delete, All-insert, All-delete,
  All-lookup, List, [], ◌∷◌, ◌++◌, length, All, some, arith,
}
use kuberboat.Core.{Deployment}
use kuberboat.ComponentManager.State.{Addr, name_of, ComponentManager}
use kuberboat.ComponentManager.Deployments.{
  push_deployment_pod, update_deployment, delete_deployment_by_name, delete_targeting,
}
use kuberboat.ComponentManager.Services.{add_pod_to_service}
use kuberboat.ComponentManager.Links.{Linked-push}
use kuberboat.ComponentManager.Integrity.{LinkedEntry, IsCoherent}

-- The list of an entry, pushed to, leaves its map with the same keys.
contains-push :
    (n k : String) (xs ys : List Addr) (m : GoMap String (List Addr))
    → lookup n m ≡ some xs
    → contains k (insert n ys m) ≡ contains k m
contains-push n k xs ys m q =
    ground (arith, contains-insert n k ys m, contains-lookup k m, ==_iff n k, q)

module _ (n : String) (a : Addr) (xs : List Addr) (cm : ComponentManager)
    (live : a < length cm.heap) (held : lookup (name_of cm.heap a) cm.pods ≡ some a)
    (new : All (λ b. b ≢ a) xs) (v : IsCoherent cm) where
  -- A registered pod that the list of a deployment lacks may join it.
  pub push_deployment_pod-IsCoherent :
      lookup n cm.deployment_to_pods ≡ some xs → IsCoherent (push_deployment_pod n a cm)
  unfolding push_deployment_pod
  push_deployment_pod-IsCoherent q =
      rw (q, push_deployment_pod)
        (record {
          pods_once = v.pods_once;
          pods_named = v.pods_named;
          deployments_linked =
              All-insert (LinkedEntry cm.heap cm.pods) n (xs ++ a ∷ []) cm.deployment_to_pods
                (Linked-push cm.heap cm.pods a xs live held new (
                  All-lookup (LinkedEntry cm.heap cm.pods) n cm.deployment_to_pods
                    v.deployments_linked q))
                v.deployments_linked;
          services_linked = v.services_linked;
          deployments_listed = λ k.
              v.deployments_listed k
              ∙ sym (contains-push n k xs (xs ++ a ∷ []) cm.deployment_to_pods q);
          services_listed = v.services_listed;
        })

  -- So may a pod join the list of a service.
  pub add_pod_to_service-IsCoherent :
      lookup n cm.services_to_pods ≡ some xs
      → (next : ComponentManager) × (add_pod_to_service n a cm ≡ some next) × IsCoherent next
  unfolding add_pod_to_service
  add_pod_to_service-IsCoherent q = (
    record cm { services_to_pods = insert n (xs ++ a ∷ []) cm.services_to_pods },
    rw (q, add_pod_to_service),
    record {
      pods_once = v.pods_once;
      pods_named = v.pods_named;
      deployments_linked = v.deployments_linked;
      services_linked =
          All-insert (LinkedEntry cm.heap cm.pods) n (xs ++ a ∷ []) cm.services_to_pods
            (Linked-push cm.heap cm.pods a xs live held new
              (All-lookup (LinkedEntry cm.heap cm.pods) n cm.services_to_pods v.services_linked q))
            v.services_linked;
      deployments_listed = v.deployments_listed;
      services_listed = λ k.
          v.services_listed k ∙ sym (contains-push n k xs (xs ++ a ∷ []) cm.services_to_pods q);
    },
  )

-- The update of a known deployment through its pointer.
pub update_deployment-IsCoherent :
    (d : Deployment) (cm : ComponentManager)
    → contains d.name cm.deployments ≡ true
    → IsCoherent cm
    → IsCoherent (update_deployment d cm)
unfolding update_deployment
update_deployment-IsCoherent d cm known v = record {
  pods_once = v.pods_once;
  pods_named = v.pods_named;
  deployments_linked = v.deployments_linked;
  services_linked = v.services_linked;
  deployments_listed = λ k. ground (
    arith,
    contains-insert d.name k d cm.deployments,
    ==_iff d.name k,
    v.deployments_listed k,
    known,
  );
  services_listed = v.services_listed;
}

-- The deletion of a deployment whose pods are gone. With pods left it would delete them from the
-- map of pods, and leave the services with them.
pub delete_deployment_by_name-IsCoherent :
    (n : String) (cm : ComponentManager)
    → lookup n cm.deployment_to_pods ≡ some []
    → IsCoherent cm
    → (next : ComponentManager) × (delete_deployment_by_name n cm ≡ some next) × IsCoherent next
unfolding delete_deployment_by_name
delete_deployment_by_name-IsCoherent n cm q v = (
  record cm {
    deployment_to_pods = delete n cm.deployment_to_pods;
    deployments = delete n cm.deployments;
    autoscalers = delete_targeting n cm.autoscalers cm.autoscalers;
  },
  rw (q, delete_deployment_by_name),
  record {
    pods_once = v.pods_once;
    pods_named = v.pods_named;
    deployments_linked =
        All-delete (LinkedEntry cm.heap cm.pods) n cm.deployment_to_pods v.deployments_linked;
    services_linked = v.services_linked;
    deployments_listed = λ k. ground (
      arith,
      contains-delete n k cm.deployments,
      contains-delete n k cm.deployment_to_pods,
      v.deployments_listed k,
    );
    services_listed = v.services_listed;
  },
)
