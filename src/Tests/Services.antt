-- ===== src/Tests/Services.antt =====
-- Examples for services and their addresses.
use kuberboat.Prelude.{
  NoneTwice, All, suc, ◌+◌, ◌<◌, ◌^◌, ◌≡◌, refl, ◌⊎◌, inl, true, false, arith, lookup, string_eq,
  nat_eq, some, [], ◌∷◌,
}
use kuberboat.Core.{phase_beq}
use kuberboat.Util.{is_subset}
use kuberboat.ComponentManager.{
  deref, get_pod_by_name, service_exists_by_name, list_services_by_labels,
  list_pods_by_labels_and_phase, new_component_manager,
}
use kuberboat.ComponentManager.Integrity.{IsCoherent}
use kuberboat.Exec.{ok, err, service_exists, no_such_service}
use kuberboat.World.{World, Ip}
use kuberboat.Nodes.{registered_nodes}
use kuberboat.PodControl.{create_pod, update_pod_status}
use kuberboat.ClusterIp.{next_cluster_ip, ip_string, in_range}
use kuberboat.ClusterIp.Sequence.{
  Assigned, IsReady, calls, ip_value, next_cluster_ip-Assigned, next_cluster_ip-increases,
}
use kuberboat.ServiceControl.{create_service, delete_service_by_name, handle_pod_ready}
use kuberboat.ServiceControl.Coherence.{
  ServiceCreated, ServiceDeleted, create_service-ServiceCreated, create_service-IsCoherent,
  delete_service_by_name-ServiceDeleted,
}
use kuberboat.ServiceControl.Membership.{Stale, handle_pod_ready-Stale}
use kuberboat.ServiceControl.Joining.{IsFree, Joined, handle_pod_ready-Joined}
use kuberboat.PodControl.Status.{update_pod_status-IsCoherent}
use kuberboat.Tests.{
  env, empty_world, one_pod, one_ready, ready_status, front, one_pod-IsCoherent,
  one_ready-IsCoherent,
}

-- The service is created when its pod is ready, but before the event of the pod is handled.
abbrev served : World
served = (create_service env front one_ready).1

served-IsCoherent : IsCoherent served.cm
served-IsCoherent = create_service-IsCoherent env front one_ready one_ready-IsCoherent

create_service-ServiceCreated_example :
    ServiceCreated env front one_ready.cm (create_service env front one_ready)
    × ((service_exists_by_name "front" one_ready.cm ≡ false)
        ⊎ (create_service env front one_ready ≡ (err (service_exists "front"), one_ready)))
create_service-ServiceCreated_example = create_service-ServiceCreated env front one_ready

delete_service_by_name-ServiceDeleted_example :
    ServiceDeleted env "front" served.cm (delete_service_by_name env "front" served)
    × ((service_exists_by_name "front" served.cm ≡ true)
        ⊎ (delete_service_by_name env "front" served ≡ (err (no_such_service "front"), served)))
delete_service_by_name-ServiceDeleted_example =
    delete_service_by_name-ServiceDeleted env "front" served

known : get_pod_by_name "web" served.cm ≡ some 0
unfolding create_pod update_pod_status create_service new_component_manager registered_nodes
    get_pod_by_name
known = refl

selected : list_services_by_labels (deref served.cm.heap 0).labels served.cm ≡ "front" ∷ []
unfolding create_pod update_pod_status create_service new_component_manager registered_nodes
    list_services_by_labels is_subset
selected = refl

listed : lookup "front" served.cm.services_to_pods ≡ some (0 ∷ [])
unfolding create_pod update_pod_status create_service new_component_manager registered_nodes
    list_pods_by_labels_and_phase phase_beq is_subset
listed = refl

handled : (handle_pod_ready env "web" served).0 ≡ ok tt
unfolding create_pod update_pod_status create_service new_component_manager registered_nodes
    handle_pod_ready is_subset
handled = refl

handle_pod_ready-Stale_example : Stale "front" 0 (handle_pod_ready env "web" served).1.cm
handle_pod_ready-Stale_example =
    handle_pod_ready-Stale env "web" "front" 0 (0 ∷ []) served known selected listed (inl refl)
      handled

first_address : IsReady empty_world.current_ip
unfolding in_range
first_address =
    (record { b0 = omega arith; b1 = omega arith; b2 = omega arith; b3 = omega arith }, refl)

next_cluster_ip-Assigned_example : Assigned empty_world (next_cluster_ip env empty_world)
next_cluster_ip-Assigned_example = next_cluster_ip-Assigned env empty_world first_address

first_call : (next_cluster_ip env (calls env 0 empty_world)).0 ≡ ok "240.0.1.0"
unfolding next_cluster_ip calls
first_call = refl

third_call : (next_cluster_ip env (calls env (1 + suc 0) empty_world)).0 ≡ ok "240.0.1.2"
unfolding next_cluster_ip calls
third_call = refl

next_cluster_ip-increases_example :
    (i : Ip) × (j : Ip) × ("240.0.1.0" ≡ ip_string i)
    × ("240.0.1.2" ≡ ip_string j)
    × (ip_value i < ip_value j)
    × (ip_value j < 2 ^ 32)
next_cluster_ip-increases_example =
    next_cluster_ip-increases env 0 1 empty_world first_address first_call third_call

-- The service is created before its pod is ready.
abbrev early : World
early = (update_pod_status env "web" ready_status (create_service env front one_pod).1).1

early-IsCoherent : IsCoherent early.cm
early-IsCoherent =
    update_pod_status-IsCoherent env "web" ready_status (create_service env front one_pod).1
      (create_service-IsCoherent env front one_pod one_pod-IsCoherent)

early_known : get_pod_by_name "web" early.cm ≡ some 0
unfolding create_pod update_pod_status create_service new_component_manager registered_nodes
    get_pod_by_name
early_known = refl

early-NoneTwice : NoneTwice (list_services_by_labels (deref early.cm.heap 0).labels early.cm)
unfolding create_pod update_pod_status create_service new_component_manager registered_nodes
    list_services_by_labels is_subset
early-NoneTwice = (tt, tt)

early-IsFree :
    All (IsFree 0 early.cm) (list_services_by_labels (deref early.cm.heap 0).labels early.cm)
unfolding create_pod update_pod_status create_service new_component_manager registered_nodes
    list_services_by_labels list_pods_by_labels_and_phase phase_beq is_subset
early-IsFree = (([], refl, tt), tt)

handle_pod_ready-Joined_example :
    Joined 0
      (list_services_by_labels (deref early.cm.heap 0).labels early.cm)
      early.cm
      (handle_pod_ready env "web" early)
handle_pod_ready-Joined_example =
    handle_pod_ready-Joined env "web" 0 early early_known early-IsCoherent early-NoneTwice
      early-IsFree
