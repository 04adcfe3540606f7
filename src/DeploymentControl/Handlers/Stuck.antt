-- ===== src/DeploymentControl/Handlers/Stuck.antt =====
-- The deletion of a deployment with a pod that cannot be deleted.
use kuberboat.Prelude.{
  String, ◌≡◌, refl, true, string_eq, lookup, contains, contains-lookup, none, some, List, ◌∷◌, ℕ,
  zero, suc,
}
use kuberboat.ComponentManager.{
  Addr, deref, name_of, get_pod_by_name, pod_exists_by_name, list_pods_by_deployment_name,
  deployment_exists_by_name,
}
use kuberboat.Exec.{err, no_client, out_of_fuel}
use kuberboat.World.{World, Env, key_eq}
use kuberboat.Nodes.{client_by_ip}
use kuberboat.PodControl
use kuberboat.PodControl.{retire, remove}
use kuberboat.DeploymentControl.Handlers.{delete_front, delete_deployment_by_name}

module _ (env : Env) (n : String) (w : World) (a : Addr) (xs : List Addr) where
  -- The deletion of a pod on an unknown worker changes nothing.
  unreachable :
      lookup (name_of w.cm.heap a) w.cm.pods ≡ some a
      → client_by_ip (deref w.cm.heap a).status.host_ip w ≡ none
      → PodControl.delete_pod_by_name env (name_of w.cm.heap a) w
        ≡ (err (no_client (deref w.cm.heap a).status.host_ip), w)
  unfolding PodControl.delete_pod_by_name pod_exists_by_name get_pod_by_name remove
  unreachable known gone =
      rw (contains-lookup (name_of w.cm.heap a) w.cm.pods, known, gone, remove) refl

  delete_front-stuck :
      lookup n w.cm.deployment_to_pods ≡ some (a ∷ xs)
      → lookup (name_of w.cm.heap a) w.cm.pods ≡ some a
      → client_by_ip (deref w.cm.heap a).status.host_ip w ≡ none
      → (fuel : ℕ) → delete_front env fuel n w ≡ (err out_of_fuel, w)
  unfolding delete_front list_pods_by_deployment_name
  delete_front-stuck q known gone zero = refl
  delete_front-stuck q known gone (suc fuel) =
      rw (delete_front, q, unreachable known gone) (delete_front-stuck q known gone fuel)

  -- When the worker of the first pod of a deployment is not registered, the deletion of the
  -- deployment does not end: no number of rounds is enough, and the cache stays as it is.
  pub delete_deployment_by_name-stuck :
      lookup n w.cm.deployment_to_pods ≡ some (a ∷ xs)
      → contains n w.cm.deployments ≡ true
      → lookup (name_of w.cm.heap a) w.cm.pods ≡ some a
      → client_by_ip (deref w.cm.heap a).status.host_ip w ≡ none
      → (fuel : ℕ) → delete_deployment_by_name env fuel n w ≡ (err out_of_fuel, w)
  unfolding delete_deployment_by_name list_pods_by_deployment_name deployment_exists_by_name
  delete_deployment_by_name-stuck q exists known gone fuel =
      rw (exists, q, delete_front-stuck q known gone fuel) refl
