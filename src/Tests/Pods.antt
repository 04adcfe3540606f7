-- ===== src/Tests/Pods.antt =====
-- Examples for pods.
use kuberboat.Prelude.{◌≡◌, refl, ◌⊎◌, true, false, string_eq}
use kuberboat.Core.{phase_eq}
use kuberboat.ComponentManager.{pod_exists_by_name, new_component_manager}
use kuberboat.Exec.{ok, err, pod_exists, no_such_pod}
use kuberboat.Nodes.{registered_nodes}
use kuberboat.PodControl.{create_pod, delete_pod_by_name}
use kuberboat.PodControl.Creation.{Created, create_pod-Created}
use kuberboat.PodControl.Deletion.{Deleted, delete_pod_by_name-Deleted}
use kuberboat.PodControl.Forgetting.{IsForgotten, delete_pod_by_name-IsForgotten}
use kuberboat.Tests.{env, empty_world, web, one_pod, one_pod-IsCoherent}

create_pod-Created_example :
    Created web empty_world.cm (create_pod env web empty_world)
    × ((pod_exists_by_name "web" empty_world.cm ≡ false)
        ⊎ (create_pod env web empty_world ≡ (err (pod_exists "web"), empty_world)))
create_pod-Created_example = create_pod-Created env web empty_world

deleted : (delete_pod_by_name env "web" one_pod).0 ≡ ok tt
unfolding delete_pod_by_name create_pod new_component_manager registered_nodes
deleted = refl

delete_pod_by_name-IsForgotten_example :
    IsForgotten "web" one_pod.cm (delete_pod_by_name env "web" one_pod).1.cm
delete_pod_by_name-IsForgotten_example =
    delete_pod_by_name-IsForgotten env "web" one_pod one_pod-IsCoherent deleted

delete_pod_by_name-Deleted_example :
    Deleted "web" one_pod.cm (delete_pod_by_name env "web" one_pod)
    × ((pod_exists_by_name "web" one_pod.cm ≡ true)
        ⊎ (delete_pod_by_name env "web" one_pod ≡ (err (no_such_pod "web"), one_pod)))
delete_pod_by_name-Deleted_example = delete_pod_by_name-Deleted env "web" one_pod
