-- ===== src/Tests/Deployments.antt =====
-- Examples for deployments and autoscalers.
use kuberboat.Prelude.{
  ◌≡◌, refl, ◌⊎◌, true, false, arith, lookup, contains, string_eq, none, some, [], ◌∷◌,
}
use kuberboat.Core.{Deployment, Pod, PodPhase, phase_beq}
use kuberboat.ComponentManager.{Heap, deref, name_of, new_component_manager, deployment_autoscaled}
use kuberboat.ComponentManager.Integrity.{IsCoherent}
use kuberboat.Exec.{ok, err, out_of_fuel, deployment_monitored}
use kuberboat.World.{World}
use kuberboat.Nodes.{client_by_ip, registered_nodes}
use kuberboat.DeploymentControl.{update_status_on_pod_removal, is_pod_updated, was_ready}
use kuberboat.DeploymentControl.Counting.{IsCounted, count, update_status_on_pod_removal-IsCounted}
use kuberboat.DeploymentControl.Handlers.{
  apply_deployment, delete_deployment_by_name, handle_pod_deletion,
}
use kuberboat.DeploymentControl.Handlers.Outcome.{Applied, OwnNames}
use kuberboat.DeploymentControl.Handlers.Applying.{
  apply_deployment-Applied, apply_deployment-IsCoherent,
}
use kuberboat.DeploymentControl.Handlers.Deleting.{Gone, Reachable, delete_deployment_by_name-Gone}
use kuberboat.DeploymentControl.Handlers.Stuck.{delete_deployment_by_name-stuck}
use kuberboat.DeploymentControl.Monitor.{monitor_deployment}
use kuberboat.DeploymentControl.Monitor.Coherence.{monitor_deployment-IsCoherent}
use kuberboat.AutoscaleControl.{create_autoscaler}
use kuberboat.AutoscaleControl.Monitored.{IsMonitored, create_autoscaler-IsMonitored}
use kuberboat.DeploymentControl.Scaling.{delete_deployment_pod}
use kuberboat.DeploymentControl.Handlers.Once.{handle_pod_deletion-once}
use kuberboat.Tests.{env, empty_world, shop, scaler, web, empty_world-IsCoherent}

-- The deployment is applied, and the monitor makes its pods.
abbrev applied : World
applied = (apply_deployment env (shop 1) empty_world).1

abbrev running : World
running = (monitor_deployment env applied).1

own_names : OwnNames empty_world.cm
unfolding new_component_manager
own_names = tt

applied-IsCoherent : IsCoherent applied.cm
applied-IsCoherent =
    apply_deployment-IsCoherent env (shop 1) empty_world own_names empty_world-IsCoherent

running-IsCoherent : IsCoherent running.cm
running-IsCoherent = monitor_deployment-IsCoherent env applied applied-IsCoherent

apply_deployment-Applied_example :
    Applied env (shop 1) empty_world (apply_deployment env (shop 1) empty_world)
    × ((deployment_autoscaled "shop" empty_world.cm ≡ false)
        ⊎ (apply_deployment env (shop 1) empty_world
            ≡ (err (deployment_monitored "shop"), empty_world)))
apply_deployment-Applied_example = apply_deployment-Applied env (shop 1) empty_world own_names

monitor_deployment-IsCoherent_example : IsCoherent (monitor_deployment env applied).1.cm
monitor_deployment-IsCoherent_example = monitor_deployment-IsCoherent env applied applied-IsCoherent

has_pod : lookup "shop" running.cm.deployment_to_pods ≡ some (0 ∷ [])
unfolding apply_deployment monitor_deployment new_component_manager registered_nodes
has_pod = refl

reachable : Reachable running 0
unfolding apply_deployment monitor_deployment new_component_manager registered_nodes client_by_ip
reachable = (record { url = "10.0.0.2"; kubelet_port = 4000 }, refl)

delete_deployment_by_name-Gone_example :
    Gone "shop" (delete_deployment_by_name env 2 "shop" running)
delete_deployment_by_name-Gone_example =
    delete_deployment_by_name-Gone env "shop" (λ k. refl) (0 ∷ []) 2 running (omega arith) has_pod
      running-IsCoherent (reachable, tt)

-- The same, after its worker is gone.
abbrev lost : World
lost = record running { nodes = [] }

exists : contains "shop" lost.cm.deployments ≡ true
unfolding apply_deployment monitor_deployment new_component_manager registered_nodes
exists = refl

registered : lookup (name_of lost.cm.heap 0) lost.cm.pods ≡ some 0
unfolding apply_deployment monitor_deployment new_component_manager registered_nodes
registered = refl

unreachable : client_by_ip (deref lost.cm.heap 0).status.host_ip lost ≡ none
unfolding client_by_ip
unreachable = refl

delete_deployment_by_name-stuck_example :
    delete_deployment_by_name env 100 "shop" lost ≡ (err out_of_fuel, lost)
delete_deployment_by_name-stuck_example =
    delete_deployment_by_name-stuck env "shop" lost 0 [] has_pod exists registered unreachable 100

-- Two pods of a deployment whose template has changed.
abbrev old : Pod
old = record web {
  meta = record web.meta { labels = [] };
  status = record web.status { phase = PodPhase.ready };
}

abbrev heap : Heap
heap = old ∷ web ∷ []

abbrev rolling : Deployment
rolling = record (shop 2) {
  status = record { replicas = 2; updated_replicas = 0; ready_replicas = 1 };
}

counted : IsCounted env heap rolling (0 ∷ 1 ∷ [])
unfolding count was_ready is_pod_updated phase_beq deref
counted = record { replicas = refl; ready = refl; updated = refl; few = omega arith }

update_status_on_pod_removal-IsCounted_example :
    IsCounted env heap (update_status_on_pod_removal env rolling (deref heap 0)) (1 ∷ [])
update_status_on_pod_removal-IsCounted_example =
    update_status_on_pod_removal-IsCounted env heap rolling 0 (1 ∷ []) counted

scaled : (create_autoscaler env scaler running).0 ≡ ok tt
unfolding apply_deployment monitor_deployment create_autoscaler new_component_manager
    registered_nodes
scaled = refl

create_autoscaler-IsMonitored_example : IsMonitored scaler (create_autoscaler env scaler running).1
create_autoscaler-IsMonitored_example =
    create_autoscaler-IsMonitored env scaler running refl (omega arith) scaled

asked : (delete_deployment_pod env "shop" 0 running).0 ≡ ok tt
unfolding apply_deployment monitor_deployment new_component_manager registered_nodes
    delete_deployment_pod
asked = refl

handle_pod_deletion-once_example :
    let before = (delete_deployment_pod env "shop" 0 running).1 in
    let after = (handle_pod_deletion env (deref running.cm.heap 0) "shop" before).1 in
    (after.cm ≡ before.cm)
    × (after.etcd ≡ before.etcd)
    × (contains (name_of running.cm.heap 0) after.expect_deleted_pod ≡ false)
handle_pod_deletion-once_example =
    handle_pod_deletion-once env "shop" 0 running (deref running.cm.heap 0) "shop" refl asked
