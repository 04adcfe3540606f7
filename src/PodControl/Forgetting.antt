-- ===== src/PodControl/Forgetting.antt =====
-- What the deletion of a pod leaves behind.
use kuberboat.Prelude.{
  ◌⊎◌, Bool-cases, ◌∙◌, false, String, ◌≡◌, refl, sym, subst, inl, inr, ◌==◌, ==_iff, ==_refl,
  GoMap, contains-delete, lookup-delete, map_values, All, List, [], ◌∷◌, arith, string_eq,
}
use kuberboat.ComponentManager
use kuberboat.ComponentManager.{
  ComponentManager, Addr, Heap, get_pod_by_name, pod_exists_by_name, remove_pod,
}
use kuberboat.ComponentManager.Links.{Unnamed, remove_pod-Unnamed}
use kuberboat.ComponentManager.Integrity.{IsCoherent, LinkedEntry}
use kuberboat.Exec.{ok}
use kuberboat.World.{World, Env}
use kuberboat.PodControl
use kuberboat.PodControl.Deletion.{delete_pod_by_name-Deleted}

abbrev pub UnnamedEntry : Heap → String → String × List Addr → Type 0
UnnamedEntry h n e = Unnamed h n e.1

-- The name is in no map and in no list, and every other name stands for what it did.
pub record IsForgotten (n : String) (before after : ComponentManager) : Type 0 where
  pub unknown : pod_exists_by_name n after ≡ false
  pub no_deployment : All (UnnamedEntry after.heap n) after.deployment_to_pods
  pub no_service : All (UnnamedEntry after.heap n) after.services_to_pods
  pub others : (k : String) → (n ≡ k) ⊎ (get_pod_by_name k after ≡ get_pod_by_name k before)

pub unnamed_everywhere :
    (h : Heap) (n : String) (m : GoMap String Addr) (lists : GoMap String (List Addr))
    → All (LinkedEntry h m) lists
    → All (UnnamedEntry h n) (map_values (remove_pod h n) lists)
unnamed_everywhere h n m [] l = tt
unnamed_everywhere h n m ((d, xs) ∷ lists) l =
    (remove_pod-Unnamed h n m xs l.0, unnamed_everywhere h n m lists l.1)

forgotten :
    (n : String) (cm : ComponentManager)
    → IsCoherent cm
    → IsForgotten n cm (ComponentManager.delete_pod_by_name n cm)
unfolding ComponentManager.delete_pod_by_name pod_exists_by_name get_pod_by_name
forgotten n cm v = record {
  unknown = ground (arith, contains-delete n n cm.pods, ==_refl n);
  no_deployment = unnamed_everywhere cm.heap n cm.pods cm.deployment_to_pods v.deployments_linked;
  no_service = unnamed_everywhere cm.heap n cm.pods cm.services_to_pods v.services_linked;
  others = λ k. elim (Bool-cases (n == k)) [
    | inl same ↦ inl ((==_iff n k).0 same)
    | inr other ↦ inr (lookup-delete n k cm.pods ∙ rw other refl)
  ];
}

-- From a coherent cache, a deletion that succeeds forgets the pod: its name is unknown, no list of
-- a deployment or a service has a pod of that name, and all other names are as before.
pub delete_pod_by_name-IsForgotten :
    (env : Env) (n : String) (w : World)
    → IsCoherent w.cm
    → (PodControl.delete_pod_by_name env n w).0 ≡ ok tt
    → IsForgotten n w.cm (PodControl.delete_pod_by_name env n w).1.cm
delete_pod_by_name-IsForgotten env n w v done = elim ((delete_pod_by_name-Deleted env n w).0) [
  | inl (e, failed, _) ↦ cc (done, failed)
  | inr (_, same, _) ↦ subst (IsForgotten n w.cm) (sym same) (forgotten n w.cm v)
]
