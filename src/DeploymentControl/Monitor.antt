-- ===== src/DeploymentControl/Monitor.antt =====
-- pkg/apiserver/deployment/controller.go: the monitor, which makes the pods of each deployment as
-- many as wished, one pass of its loop over all deployments.
pub mod Coherence
use kuberboat.Prelude.{
  ℕ, zero, suc, ℤ, pos, negsuc, ltb, ◌-ℤ◌, String, Bool, true, false, not, ◌&&◌, ◌==◌, nat_eq,
  string_eq, contains, delete, insert, map, List, [], ◌∷◌, Option, none, some, if◌then◌else◌,
}
use kuberboat.Core.{Pod, PodPhase, Deployment}
use kuberboat.ComponentManager
use kuberboat.ComponentManager.{
  ComponentManager, Addr, deref, name_of, get_pod_by_name, pod_exists_by_name,
  deployment_autoscaled, deployment_exists_by_name, get_deployment_by_name,
  get_deployment_by_pod_name, list_pods_by_deployment_name, list_deployments, set_deployment,
  update_deployment,
}
use kuberboat.Exec.{
  Result, ok, err, panic, out_of_fuel, no_surge, deployment_monitored, no_such_deployment,
  no_pod_list, Exec, pure, raise, gets, modify, attempt, log_error, ◌>>=◌, ◌>>◌,
}
use kuberboat.World.{World, Env, Api, Key, Value, etcd_put, etcd_delete, draw, clock}
use kuberboat.PodControl
use kuberboat.DeploymentControl.{
  inc32, is_deployment_updated, is_pod_updated, update_deployment_template, init_deployment,
  update_status_on_pod_removal, compute_rolling_update_pod_deletion,
  compute_rolling_update_pod_creation,
}
use kuberboat.DeploymentControl.Scaling.{more_pods, fewer_pods}

module _ (env : Env) where
  unfoldable pub create_many : Deployment → ℤ → Api (Unit {0})
  unfolding more_pods
  create_many d (pos (suc k)) = more_pods env d (suc k)
  create_many d _ = pure tt

  unfoldable pub delete_many : Deployment → List Addr → ℤ → Api (Unit {0})
  unfolding fewer_pods
  delete_many d xs (pos (suc k)) = fewer_pods env d xs (suc k)
  delete_many d xs _ = pure tt

  -- The list and the counts are read again after the deletions.
  unfoldable pub create_missing : String → Api (Unit {0})
  unfolding get_deployment_by_name list_pods_by_deployment_name compute_rolling_update_pod_creation
      create_many
  create_missing n w = elim (get_deployment_by_name n w.cm) [
    | none ↦ (ok tt, w)
    | some d ↦ elim (list_pods_by_deployment_name n w.cm) [
      | none ↦ (ok tt, w)
      | some xs ↦ create_many d (compute_rolling_update_pod_creation env w.cm.heap d xs) w
    ]
  ]

  unfoldable pub monitor_rolling : Deployment → List Addr → Api (Unit {0})
  unfolding compute_rolling_update_pod_deletion delete_many create_missing
  monitor_rolling d xs w =
      (do
        delete_many d xs (compute_rolling_update_pod_deletion env w.cm.heap d xs)
        create_missing d.name)
        w

  unfoldable pub monitor_steady : Deployment → List Addr → Api (Unit {0})
  unfolding create_many delete_many ◌-ℤ◌
  monitor_steady d xs = do
    create_many d (pos d.spec.replicas -ℤ pos d.status.replicas)
    delete_many d xs (pos d.status.replicas -ℤ pos d.spec.replicas)

  unfoldable pub monitor_one : String → Api (Unit {0})
  unfolding get_deployment_by_name list_pods_by_deployment_name monitor_rolling monitor_steady
  monitor_one n w = elim (get_deployment_by_name n w.cm) [
    | none ↦ (ok tt, w)
    | some d ↦ elim (list_pods_by_deployment_name n w.cm) [
      | none ↦ (ok tt, w)
      | some xs ↦
          (if ltb d.status.updated_replicas d.status.ready_replicas
              then monitor_rolling d xs
              else monitor_steady d xs)
            w
    ]
  ]

  unfoldable pub monitor_each : List String → Api (Unit {0})
  unfolding monitor_one
  monitor_each [] = pure tt
  monitor_each (n ∷ ns) = do monitor_one n; monitor_each ns

  unfoldable pub monitor_deployment : Api (Unit {0})
  unfolding list_deployments monitor_each
  monitor_deployment w = monitor_each (map (λ d. d.name) (list_deployments w.cm)) w
