-- ===== src/ServiceControl.antt =====
-- pkg/apiserver/service/controller.go: the controller of services. Its lock is held for the whole
-- of each method. The goroutines that tell the workers all run to their end, also when an error
-- makes the method return before; they are one loop here.
pub mod Coherence
pub mod Membership
pub mod Joining
pub mod Describing
use kuberboat.Prelude.{
  ℕ, String, Bool, true, false, ◌==◌, string_eq, if◌then◌else◌, map, List, [], ◌∷◌, Option, none,
  some,
}
use kuberboat.Core.{Pod, PodPhase, Service}
use kuberboat.ComponentManager
use kuberboat.ComponentManager.{
  ComponentManager, Addr, Heap, deref, name_of, get_pod_by_name, list_pods_by_labels_and_phase,
  set_service, service_exists_by_name, get_service_by_name, list_services, list_services_by_labels,
  add_pod_to_service, list_pods_by_service_name,
}
use kuberboat.Exec.{
  Error, Result, ok, err, service_exists, no_such_service, race_condition, panic, Exec, pure, raise,
  gets, modify, log_error, ◌>>=◌, ◌>>◌,
}
use kuberboat.World.{
  World, Env, Api, Client, Rpc, Key, Value, send, etcd_put, etcd_delete, draw, clock,
}
use kuberboat.Nodes.{clients}
use kuberboat.ClusterIp.{next_cluster_ip}

-- pkg/api/core/util.go: `GetPodNames`
unfoldable pub get_pod_names : Heap → List Addr → List String
get_pod_names h = map (name_of h)

-- The addresses of the pods, which the client's `CreateService` collects beside the names.
unfoldable pub get_pod_ips : Heap → List Addr → List String
unfolding deref
get_pod_ips h = map (λ a. (deref h a).status.pod_ip)

-- An error of either.
unfoldable pub both : Result (Unit {0}) → Result (Unit {0}) → Result (Unit {0})
both (ok a) r = r
both (err e) r = err e

unfoldable pub assigned : String → String → ℕ → Service → Service
assigned ip id t s = record s {
  meta = record s.meta { uuid = id; creation_timestamp = t };
  spec = record s.spec { cluster_ip = ip };
}

-- `AddPodToService` for each name.
unfoldable pub add_to_all : Addr → List String → ComponentManager → Option ComponentManager
unfolding add_pod_to_service
add_to_all a [] cm = some cm
add_to_all a (n ∷ ns) cm = elim (add_pod_to_service n a cm) [
  | none ↦ none
  | some next ↦ add_to_all a ns next
]

-- What was added before a panic is lost with the process.
unfoldable pub join : Addr → List String → Api (Unit {0})
unfolding add_to_all
join a ns w = elim (add_to_all a ns w.cm) [
  | none ↦ (err panic, w)
  | some cm ↦ (ok tt, record w { cm = cm })
]

module _ (env : Env) where
  unfoldable pub broadcast : List Client → Rpc → Api (Unit {0})
  unfolding send both
  broadcast [] r w = (ok tt, w)
  broadcast (c ∷ cs) r w =
      let rest = broadcast cs r (send env c r w).1 in (both (send env c r w).0 rest.0, rest.1)

  -- etcd first, then the cache.
  unfoldable pub store : Service → List String → List Addr → Api (Unit {0})
  unfolding etcd_put set_service
  store s names xs = do
    etcd_put env (Key.services_meta s.name) (Value.service s)
    etcd_put env (Key.services_pods s.name) (Value.names names)
    modify λ w. record w { cm = set_service s xs w.cm }

  -- From the new address on.
  unfoldable pub publish : Service → List Addr → Api (Unit {0})
  unfolding clients broadcast get_pod_names get_pod_ips store
  publish s xs = do
    cs ← gets clients
    h ← gets (λ w. w.cm.heap)
    broadcast cs (Rpc.create_service s (get_pod_names h xs) (get_pod_ips h xs))
    store s (get_pod_names h xs) xs

  unfoldable pub issue : Service → String → Api (Unit {0})
  unfolding draw clock assigned publish
  issue s ip = do
    id ← draw env.uuid
    t ← clock env.now
    xs ← gets (λ v. list_pods_by_labels_and_phase s.spec.selector PodPhase.ready v.cm)
    publish (assigned ip id t s) xs

  unfoldable pub create_service : Service → Api (Unit {0})
  unfolding service_exists_by_name next_cluster_ip issue
  create_service s w =
      (if service_exists_by_name s.name w.cm
          then raise (service_exists s.name)
          else (do ip ← next_cluster_ip env; issue s ip))
        w

  -- The second deletion is made only if the first one succeeds.
  unfoldable pub delete_service_in_etcd : String → Api (Unit {0})
  unfolding etcd_delete
  delete_service_in_etcd n = do
    etcd_delete env (Key.services_meta n)
    etcd_delete env (Key.services_pods n)

  unfoldable pub withdraw : String → Service → Api (Unit {0})
  unfolding clients broadcast delete_service_in_etcd ComponentManager.delete_service_by_name
  withdraw n s = do
    cs ← gets clients
    broadcast cs (Rpc.delete_service n)
    log_error (delete_service_in_etcd s.name)
    modify λ w. record w { cm = ComponentManager.delete_service_by_name n w.cm }

  unfoldable pub delete_service_by_name : String → Api (Unit {0})
  unfolding service_exists_by_name get_service_by_name withdraw
  delete_service_by_name n w =
      if service_exists_by_name n w.cm
      then elim (get_service_by_name n w.cm) [
        | none ↦ (err (race_condition n), w)
        | some s ↦ withdraw n s w
      ]
      else (err (no_such_service n), w)

  unfoldable pub delete_each : List Service → Api (Unit {0})
  unfolding delete_service_by_name
  delete_each [] = pure tt
  delete_each (s ∷ todo) = do delete_service_by_name s.name; delete_each todo

  unfoldable pub delete_all_services : Api (Unit {0})
  unfolding list_services delete_each
  delete_all_services w = delete_each (list_services w.cm) w

  -- `len(serviceNames) == 0` returns at once.
  unfoldable pub notify_ready : String → Addr → List String → Api (Unit {0})
  unfolding clients broadcast join deref
  notify_ready n a [] = pure tt
  notify_ready n a (s ∷ ss) = do
    cs ← gets clients
    ip ← gets (λ w. (deref w.cm.heap a).status.pod_ip)
    broadcast cs (Rpc.add_pod_to_services (s ∷ ss) n ip)
    join a (s ∷ ss)

  -- The labels of a nil pod panic.
  unfoldable pub handle_pod_ready : String → Api (Unit {0})
  unfolding get_pod_by_name list_services_by_labels notify_ready deref
  handle_pod_ready n w = elim (get_pod_by_name n w.cm) [
    | none ↦ (err panic, w)
    | some a ↦ notify_ready n a (list_services_by_labels (deref w.cm.heap a).labels w.cm) w
  ]

  unfoldable pub notify_deletion : String → List String → Api (Unit {0})
  unfolding clients broadcast
  notify_deletion n [] = pure tt
  notify_deletion n (s ∷ ss) = do
    cs ← gets clients
    broadcast cs (Rpc.delete_pod_from_services (s ∷ ss) n)

  -- The pod is the worker's last view of it.
  unfoldable pub handle_pod_deletion : Pod → Api (Unit {0})
  unfolding list_services_by_labels notify_deletion
  handle_pod_deletion p w = notify_deletion p.name (list_services_by_labels p.labels w.cm) w
