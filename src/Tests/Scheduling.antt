-- ===== src/Tests/Scheduling.antt =====
-- Examples for the choice of workers and of pods.
use kuberboat.Prelude.{
  ℕ, ◌+◌, ◌%◌, ◌<◌, ◌≡◌, ◌↔◌, arith, length, get_elem?, lookup, string_eq, map, values, some, In,
}
use mathlib.Core.List.{Perm}
use kuberboat.Core.{PodPhase}
use kuberboat.Util.Subset.{IsSubset}
use kuberboat.ComponentManager.{deref, name_of, list_pods_by_labels_and_phase}
use kuberboat.ComponentManager.Selection.{list_pods_by_labels_and_phase_iff}
use kuberboat.Nodes.{registered_nodes}
use kuberboat.Nodes.Sorting.{IsSorted, registered_nodes_lem}
use kuberboat.Schedule.{start, schedule_by_round_robin}
use kuberboat.Schedule.RoundRobin.{
  after, schedule_by_round_robin_lem, schedule_by_round_robin-visits,
}
use kuberboat.Tests.{empty_world, one_ready, web_labels, one_ready-IsCoherent}

registered_nodes_lem_example :
    IsSorted (registered_nodes empty_world)
    × Perm (registered_nodes empty_world) (map (λ n. n.node) (values empty_world.nodes))
registered_nodes_lem_example = registered_nodes_lem empty_world

two_nodes : 1 < length (registered_nodes empty_world)
unfolding registered_nodes
two_nodes = omega arith

some_node : 0 < length (registered_nodes empty_world)
some_node = omega (arith, two_nodes)

schedule_by_round_robin_lem_example :
    (schedule_by_round_robin (after 3 empty_world)).0
    ≡ get_elem? (registered_nodes empty_world) (
        (start (length (registered_nodes empty_world)) empty_world.next_idx + 3)
        % length (registered_nodes empty_world))
schedule_by_round_robin_lem_example = schedule_by_round_robin_lem 3 empty_world some_node

schedule_by_round_robin-visits_example :
    (k : ℕ) × (k < length (registered_nodes empty_world))
    × ((schedule_by_round_robin (after k empty_world)).0
        ≡ get_elem? (registered_nodes empty_world) 1)
schedule_by_round_robin-visits_example = schedule_by_round_robin-visits empty_world 1 two_nodes

list_pods_by_labels_and_phase_iff_example :
    In 0 (list_pods_by_labels_and_phase web_labels PodPhase.ready one_ready.cm) ↔ (
      (lookup (name_of one_ready.cm.heap 0) one_ready.cm.pods ≡ some 0)
      × ((deref one_ready.cm.heap 0).status.phase ≡ PodPhase.ready)
      × IsSubset web_labels (deref one_ready.cm.heap 0).labels)
list_pods_by_labels_and_phase_iff_example =
    list_pods_by_labels_and_phase_iff web_labels PodPhase.ready one_ready.cm 0 one_ready-IsCoherent
