-- ===== src/Tests/Rolling.antt =====
-- Examples for rolling updates: a deployment of two ready pods, of which one is outdated.
use kuberboat.Prelude.{◌≡◌, refl, inl, false, lookup, contains, string_eq, some, [], ◌∷◌, arith}
use kuberboat.Core.{Deployment, Pod}
use kuberboat.ComponentManager.{deref, new_component_manager}
use kuberboat.ComponentManager.Integrity.{IsCoherent}
use kuberboat.World.{World}
use kuberboat.Nodes.{client_by_ip, registered_nodes}
use kuberboat.PodControl.{create_pod}
use kuberboat.DeploymentControl.{is_pod_updated}
use kuberboat.DeploymentControl.Scaling.{from_template}
use kuberboat.DeploymentControl.Scaling.Adding.{IsCreatable}
use kuberboat.DeploymentControl.Handlers.Deleting.{Reachable}
use kuberboat.DeploymentControl.Monitor.{monitor_one}
use kuberboat.DeploymentControl.Rolling.Round.{Progressed}
use kuberboat.DeploymentControl.Rolling.Progress.{monitor_one-Progressed}
use kuberboat.Tests.{env, empty_world, shop, web, web_labels, meta, ready_status}

abbrev old : Pod
old = record web { meta = meta "shop-old" []; status = ready_status }

abbrev new : Pod
new = record web { meta = meta "shop-new" web_labels; status = ready_status }

abbrev rolling : Deployment
rolling = record (shop 2) {
  spec = record (shop 2).spec { rolling_update = record { max_surge = 1; max_unavailable = 1 } };
  status = record { replicas = 2; updated_replicas = 1; ready_replicas = 2 };
}

abbrev mixed : World
mixed = record empty_world {
  cm = record new_component_manager {
    heap = old ∷ new ∷ [];
    pods = ("shop-old", 0) ∷ ("shop-new", 1) ∷ [];
    deployments = ("shop", rolling) ∷ [];
    deployment_to_pods = ("shop", 0 ∷ 1 ∷ []) ∷ [];
  };
}

mixed-IsCoherent : IsCoherent mixed.cm
unfolding new_component_manager contains lookup deref
mixed-IsCoherent = record {
  pods_once = (refl, (refl, tt));
  pods_named = ((omega arith, refl), ((omega arith, refl), tt));
  deployments_linked =
      ((omega arith, refl, (λ e. omega (arith, e), tt), (omega arith, refl, tt, tt)), tt);
  services_linked = tt;
  deployments_listed = λ n. refl;
  services_listed = λ n. refl;
}

known : lookup "shop" mixed.cm.deployments ≡ some rolling
unfolding lookup
known = refl

listed : lookup "shop" mixed.cm.deployment_to_pods ≡ some (0 ∷ 1 ∷ [])
unfolding lookup
listed = refl

old_is_outdated : is_pod_updated env rolling (deref mixed.cm.heap 0) ≡ false
unfolding is_pod_updated deref
old_is_outdated = refl

near : (Reachable mixed 0) × (Reachable mixed 1)
unfolding client_by_ip deref
near = (
  (record { url = "10.0.0.2"; kubelet_port = 4000 }, refl),
  (record { url = "10.0.0.2"; kubelet_port = 4000 }, refl),
)

made : IsCreatable env rolling mixed 2
unfolding create_pod from_template registered_nodes new_component_manager
made = refl

monitor_one-Progressed_example :
    Progressed env rolling (0 ∷ 1 ∷ []) mixed (monitor_one env "shop" mixed).1
monitor_one-Progressed_example =
    monitor_one-Progressed env rolling (0 ∷ 1 ∷ []) mixed known listed refl refl 2 0
      mixed-IsCoherent (omega arith) (omega arith) (inl refl) old_is_outdated (λ k. refl)
      (near.0, (near.1, tt)) made
