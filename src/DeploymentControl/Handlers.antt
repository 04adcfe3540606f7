-- ===== src/DeploymentControl/Handlers.antt =====
-- pkg/apiserver/deployment/controller.go: the requests and the events. The lock of the
-- controller is held for the whole of each.
pub mod Outcome
pub mod Applying
pub mod Deleting
pub mod Stuck
pub mod Once
use kuberboat.Prelude.{
  ℕ, zero, suc, ℤ, pos, negsuc, ltb, ◌-ℤ◌, String, Bool, true, false, not, ◌&&◌, ◌==◌, nat_eq,
  string_eq, contains, delete, insert, map, List, [], ◌∷◌, Option, none, some, if◌then◌else◌,
}
use kuberboat.Core.{Pod, PodPhase, Deployment}
use kuberboat.ComponentManager
use kuberboat.ComponentManager.{
  ComponentManager, Addr, deref, name_of, get_pod_by_name, pod_exists_by_name,
  deployment_autoscaled, deployment_exists_by_name, get_deployment_by_name,
  get_deployment_by_pod_name, list_pods_by_deployment_name, list_deployments, set_deployment,
  update_deployment,
}
use kuberboat.Exec.{
  Result, ok, err, panic, out_of_fuel, no_surge, deployment_monitored, no_such_deployment,
  no_pod_list, Exec, pure, raise, gets, modify, attempt, log_error, ◌>>=◌, ◌>>◌,
}
use kuberboat.World.{World, Env, Api, Key, Value, etcd_put, etcd_delete, draw, clock}
use kuberboat.PodControl
use kuberboat.DeploymentControl.{
  inc32, is_deployment_updated, is_pod_updated, update_deployment_template, init_deployment,
  update_status_on_pod_removal, compute_rolling_update_pod_deletion,
  compute_rolling_update_pod_creation,
}
use kuberboat.DeploymentControl.Scaling.{adjust, delete_deployment_pod, more_pods, fewer_pods}

-- The new numbers of a deployment that exists, and the mark that its pods are outdated.
unfoldable pub restart : Deployment → Deployment → Deployment
unfolding update_deployment_template
restart old new =
    let d = update_deployment_template old new in
    record d { status = record d.status { updated_replicas = 0 } }

unfoldable pub rescale : Deployment → Deployment → Deployment
rescale d new = record d {
  spec = record d.spec { replicas = new.spec.replicas; rolling_update = new.spec.rolling_update };
}

unfoldable pub ready_one : Env → Pod → Deployment → Deployment
unfolding inc32 is_pod_updated
ready_one env p d = record d {
  status = record d.status {
    ready_replicas = inc32 d.status.ready_replicas;
    updated_replicas =
        if is_pod_updated env d p
        then inc32 d.status.updated_replicas
        else d.status.updated_replicas;
  };
}

module _ (env : Env) where
  -- The object changes before etcd is told.
  unfoldable pub rewrite : Deployment → Api (Unit {0})
  unfolding update_deployment etcd_put
  rewrite d = do
    modify λ w. record w { cm = update_deployment d w.cm }
    etcd_put env (Key.deployments_meta d.name) (Value.deployment d)

  unfoldable pub apply_existing : Deployment → Deployment → Api (Unit {0})
  unfolding is_deployment_updated restart rescale rewrite
  apply_existing old new =
      if is_deployment_updated env old new
      then rewrite (rescale old new)
      else if new.spec.rolling_update.max_surge == 0 && new.spec.rolling_update.max_unavailable == 0
      then raise no_surge
      else rewrite (rescale (restart old new) new)

  unfoldable pub apply_new : Deployment → Api (Unit {0})
  unfolding draw clock init_deployment etcd_put set_deployment
  apply_new d = do
    id ← draw env.uuid
    t ← clock env.now
    etcd_put env (Key.deployments_meta d.name) (Value.deployment (init_deployment id t d))
    modify λ w. record w { cm = set_deployment (init_deployment id t d) [] w.cm }

  unfoldable pub apply_deployment : Deployment → Api (Unit {0})
  unfolding deployment_autoscaled get_deployment_by_name deployment_exists_by_name apply_existing
      apply_new
  apply_deployment d w =
      if deployment_autoscaled d.name w.cm
      then (err (deployment_monitored d.name), w)
      else if deployment_exists_by_name d.name w.cm
      then elim (get_deployment_by_name d.name w.cm) [
        | none ↦ (err panic, w)
        | some old ↦ apply_existing old d w
      ]
      else apply_new d w

  -- `for i := podList.Front(); podList.Len() > 0; i = podList.Front()`: the loop has no bound of
  -- its own, so it takes fuel here.
  unfoldable pub delete_front : ℕ → String → Api (Unit {0})
  unfolding list_pods_by_deployment_name PodControl.delete_pod_by_name
  delete_front zero n w = (err out_of_fuel, w)
  delete_front (suc fuel) n w = elim (list_pods_by_deployment_name n w.cm) [
    | none ↦ (ok tt, w)
    | some [] ↦ (ok tt, w)
    | some (a ∷ xs) ↦
        (do attempt (PodControl.delete_pod_by_name env (name_of w.cm.heap a)); delete_front fuel n)
          w
  ]

  unfoldable pub delete_deployment_in_etcd : String → Api (Unit {0})
  unfolding etcd_delete
  delete_deployment_in_etcd n = do
    etcd_delete env (Key.deployments_meta n)
    etcd_delete env (Key.deployments_pods n)

  unfoldable pub drop_deployment : String → Api (Unit {0})
  unfolding ComponentManager.delete_deployment_by_name
  drop_deployment n w = elim (ComponentManager.delete_deployment_by_name n w.cm) [
    | none ↦ (err panic, w)
    | some cm ↦ (ok tt, record w { cm = cm })
  ]

  unfoldable pub delete_deployment_by_name : ℕ → String → Api (Unit {0})
  unfolding deployment_exists_by_name list_pods_by_deployment_name delete_front
      delete_deployment_in_etcd drop_deployment
  delete_deployment_by_name fuel n w =
      if deployment_exists_by_name n w.cm
      then elim (list_pods_by_deployment_name n w.cm) [
        | none ↦ (err (no_pod_list n), w)
        | some xs ↦
            (do delete_front fuel n; log_error (delete_deployment_in_etcd n); drop_deployment n) w
      ]
      else (err (no_such_deployment n), w)

  unfoldable pub count_down : Pod → String → Api (Unit {0})
  unfolding get_deployment_by_name adjust update_status_on_pod_removal etcd_put
  count_down p n w = elim (get_deployment_by_name n w.cm) [
    | none ↦ (ok tt, w)
    | some d ↦
        (do
          modify (adjust n (λ e. update_status_on_pod_removal env e p))
          etcd_put env (Key.deployments_meta n)
              (Value.deployment (update_status_on_pod_removal env d p)))
          w
  ]

  -- A deletion that the controller asked for was counted then.
  unfoldable pub handle_pod_deletion : Pod → String → Api (Unit {0})
  unfolding contains delete count_down
  handle_pod_deletion p n w =
      if contains p.name w.expect_deleted_pod
      then (ok tt, record w { expect_deleted_pod = delete p.name w.expect_deleted_pod })
      else count_down p n w

  -- etcd is told only of pods of the current template.
  unfoldable pub count_ready : Addr → Deployment → Api (Unit {0})
  unfolding adjust ready_one is_pod_updated etcd_put deref
  count_ready a d w =
      (do
        modify (adjust d.name (ready_one env (deref w.cm.heap a)))
        (if is_pod_updated env d (deref w.cm.heap a)
            then etcd_put env (Key.deployments_meta d.name)
                (Value.deployment (ready_one env (deref w.cm.heap a) d))
            else pure tt))
        w

  unfoldable pub handle_pod_ready : String → Api (Unit {0})
  unfolding pod_exists_by_name get_pod_by_name get_deployment_by_pod_name count_ready deref
  handle_pod_ready n w = elim (get_pod_by_name n w.cm) [
    | none ↦ (ok tt, w)
    | some a ↦ elim (get_deployment_by_pod_name (name_of w.cm.heap a) w.cm) [
      | none ↦ (ok tt, w)
      | some d ↦ count_ready a d w
    ]
  ]

  unfoldable pub handle_pod_fail : String → Api (Unit {0})
  unfolding get_pod_by_name get_deployment_by_pod_name delete_deployment_pod
  handle_pod_fail n w = elim (get_pod_by_name n w.cm) [
    | none ↦ (ok tt, w)
    | some a ↦ elim (get_deployment_by_pod_name n w.cm) [
      | none ↦ (ok tt, w)
      | some d ↦ attempt (delete_deployment_pod env d.name a) w
    ]
  ]
