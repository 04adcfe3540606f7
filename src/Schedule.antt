-- ===== src/Schedule.antt =====
-- pkg/apiserver/schedule/schedueler.go: the choice of a worker for a pod.
pub mod RoundRobin
pub mod Affinity
use kuberboat.Prelude.{
  ℕ, zero, suc, String, Bool, leb, ◌==◌, string_eq, nat_eq, if◌then◌else◌, length, get_elem?,
  Option, none, some,
}
use kuberboat.Core.{Pod, Node}
use kuberboat.ComponentManager.{deref, pod_exists_by_name, get_pod_by_name}
use kuberboat.Exec.{Result, ok, err, no_affinity_pod, no_affinity_ip, panic}
use kuberboat.World.{World, Api}
use kuberboat.Nodes.{registered_nodes, node_by_ip}

-- `if s.nextIdx >= len(nodes) { s.nextIdx = 0 }`
unfoldable pub start : ℕ → ℕ → ℕ
start n i = if leb n i then 0 else i

-- `none` is the nil node.
unfoldable pub schedule_by_round_robin : World → Option Node × World
unfolding start
schedule_by_round_robin w =
    let ns = registered_nodes w in
    let i = start (length ns) w.next_idx in
    if length ns == 0
    then (none, record w { next_idx = i })
    else (get_elem? ns i, record w { next_idx = suc i })

unfoldable pub schedule_by_affinity : Pod → Api (Option Node)
unfolding pod_exists_by_name get_pod_by_name deref node_by_ip
schedule_by_affinity p w =
    if pod_exists_by_name p.spec.affinity w.cm
    then elim (get_pod_by_name p.spec.affinity w.cm) [
      | none ↦ (err panic, w)
      | some a ↦
          if (deref w.cm.heap a).status.host_ip == ""
          then (err (no_affinity_ip p.spec.affinity), w)
          else (ok (node_by_ip (deref w.cm.heap a).status.host_ip w), w)
    ]
    else (err (no_affinity_pod p.spec.affinity), w)

unfoldable pub schedule_pod : Pod → Api (Option Node)
unfolding schedule_by_affinity schedule_by_round_robin
schedule_pod p w =
    if p.spec.affinity == ""
    then (let (n, w') = schedule_by_round_robin w in (ok n, w'))
    else schedule_by_affinity p w
