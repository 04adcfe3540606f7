-- ===== src/Schedule/Affinity.antt =====
-- Pods that ask to stand beside another pod.
use mathlib.Core.List.{Mem, mem-cons_self, mem-cons_of_mem}
use kuberboat.Prelude.{
  String, ◌≡◌, ◌≢◌, subst, false, ◌==◌, ==_iff, string_eq, Bool-cases, Option-cases, values, map,
  List, [], ◌∷◌, none, some, inl, inr, arith,
}
use kuberboat.Core.{Pod, Node}
use kuberboat.ComponentManager.{Addr, deref, get_pod_by_name}
use kuberboat.Exec.{ok}
use kuberboat.World.{World, NodeWithClient}
use kuberboat.Nodes.{find_ip, node_by_ip}
use kuberboat.Schedule.{schedule_pod}

-- What a search of the registry by address finds is registered there at that address.
find_ip-finds :
    (ip : String) (ns : List NodeWithClient) {n : NodeWithClient}
    → find_ip ip ns ≡ some n
    → Mem n.node (map (λ m. m.node) ns) × (n.node.status.address ≡ ip)
unfolding find_ip
find_ip-finds ip [] q = cc
find_ip-finds ip (m ∷ ns) {n} q = elim (Bool-cases (m.node.status.address == ip)) [
  | inl hit ↦
      subst
        (λ (k : NodeWithClient).
          Mem k.node (map (λ x. x.node) (m ∷ ns)) × (k.node.status.address ≡ ip))
        {x = m} {y = n} (ground (arith, q, hit))
        (mem-cons_self, (==_iff m.node.status.address ip).0 hit)
  | inr miss ↦
      let rest = find_ip-finds ip ns {n = n} (ground (arith, q, miss)) in
      (mem-cons_of_mem m.node rest.0, rest.1)
]

node_by_ip-finds :
    (ip : String) (w : World) {n : Node}
    → node_by_ip ip w ≡ some n
    → Mem n (map (λ m. m.node) (values w.nodes)) × (n.status.address ≡ ip)
unfolding node_by_ip
node_by_ip-finds ip w {n} q = elim (Option-cases (find_ip ip (values w.nodes))) [
  | inl missing ↦ cc (rw (missing, node_by_ip) at q)
  | inr (m, found) ↦
      subst (λ (k : Node). Mem k (map (λ x. x.node) (values w.nodes)) × (k.status.address ≡ ip))
        {x = m.node} {y = n} (ground (arith, q, found)) (find_ip-finds ip (values w.nodes) found)
]

module _ (p : Pod) (w v : World) {n : Node} (named : p.spec.affinity ≢ "")
    (placed : schedule_pod p w ≡ (ok (some n), v)) where
  has_affinity : (p.spec.affinity == "") ≡ false
  has_affinity = ground (arith, ==_iff p.spec.affinity "", named)

  beside :
      (a : Addr)
      → get_pod_by_name p.spec.affinity w.cm ≡ some a
      → (node_by_ip (deref w.cm.heap a).status.host_ip w ≡ some n) × (v ≡ w)
  unfolding schedule_pod
  beside a found = ground (arith, has_affinity, found, placed)

  not_missing : get_pod_by_name p.spec.affinity w.cm ≢ none
  unfolding schedule_pod
  not_missing missing = ground (arith, has_affinity, missing, placed)

-- A pod with an affinity is placed, if at all, on a registered worker whose address is the host of
-- the pod that it names; the state of the server, the rotation included, does not change.
pub schedule_pod-affinity :
    (p : Pod) (w v : World) {n : Node}
    → p.spec.affinity ≢ ""
    → schedule_pod p w ≡ (ok (some n), v)
    → (a : Addr) × (get_pod_by_name p.spec.affinity w.cm ≡ some a)
      × Mem n (map (λ m. m.node) (values w.nodes))
      × (n.status.address ≡ (deref w.cm.heap a).status.host_ip)
      × (v ≡ w)
schedule_pod-affinity p w v named q = elim (Option-cases (get_pod_by_name p.spec.affinity w.cm)) [
  | inl missing ↦ absurd (not_missing p w v named q missing)
  | inr (a, found) ↦
      let r = beside p w v named q a found in
      let s = node_by_ip-finds (deref w.cm.heap a).status.host_ip w r.0 in (a, found, s.0, s.1, r.1)
]
