-- ===== src/PodControl.antt =====
-- pkg/apiserver/pod/controller.go: the controller of pods.
--
-- The lock of the controller is held for the whole of each method. A pod that a caller hands over
-- is a fresh object: it is given its address when the cache first sees it, before which no other
-- pointer to it exists.
pub mod Deletion
pub mod Creation
pub mod Forgetting
pub mod Status
pub mod Finding
use kuberboat.Prelude.{
  ℕ, String, Bool, true, false, ◌==◌, string_eq, if◌then◌else◌, lookup, contains, List, [], ◌∷◌,
  Option, none, some,
}
use kuberboat.Core.{Pod, PodPhase, PodStatus, Node}
use kuberboat.ComponentManager
use kuberboat.ComponentManager.{
  ComponentManager, Addr, deref, name_of, fresh, alloc, set_status, set_pod, get_pod_by_name,
  pod_exists_by_name, list_pods,
}
use kuberboat.Exec.{
  Error, Result, ok, err, pod_exists, no_such_pod, race_condition, no_worker, no_client, panic,
  Exec, pure, raise, gets, modify, ◌>>=◌, ◌>>◌,
}
use kuberboat.World.{
  World, Env, Api, Client, Rpc, Key, Value, transfer_file, send, etcd_put, etcd_delete, read_file,
  draw, clock,
}
use kuberboat.Nodes.{client_by_ip, client_by_name}
use kuberboat.Schedule.{schedule_pod}
use kuberboat.Legacy.{set_pod_legacy}

-- The names that exist, as objects, and those that do not.
unfoldable pub find_pods : ComponentManager → List String → List Addr × List String
unfolding pod_exists_by_name get_pod_by_name
find_pods cm [] = ([], [])
find_pods cm (n ∷ ns) =
    let (found, missing) = find_pods cm ns in
    if pod_exists_by_name n cm
    then elim (get_pod_by_name n cm) [ none ↦ (found, missing) | some a ↦ (a ∷ found, missing) ]
    else (found, n ∷ missing)

unfoldable pub get_pods : Bool → List String → World → List Addr × List String
unfolding find_pods list_pods
get_pods every ns w = if every then (list_pods w.cm, []) else find_pods w.cm ns

-- The nil node, and the nil client, which is followed by the first request.
unfoldable pub or_no_worker : Option Node → Api Node
or_no_worker none = raise no_worker
or_no_worker (some n) = pure n

unfoldable pub or_panic : Option Client → Api Client
or_panic none = raise panic
or_panic (some c) = pure c

-- The fields that the controller fills in.
unfoldable pub fill : String → ℕ → String → Pod → Pod
fill id t address p = record p {
  meta = record p.meta { uuid = id; creation_timestamp = t };
  status = record p.status { phase = PodPhase.pending; host_ip = address; running_containers = 0 };
}

unfoldable pub forget : String → World → World
unfolding ComponentManager.delete_pod_by_name
forget n w = record w { cm = ComponentManager.delete_pod_by_name n w.cm }

-- `SetPod` of an object that the cache has not seen.
unfoldable pub register : Pod → World → World
unfolding alloc fresh set_pod
register p w = record w { cm = set_pod (fresh w.cm) (alloc p w.cm) }

module _ (env : Env) where
  -- The pod of a job takes its files along.
  unfoldable pub send_job_files : Pod → Client → Api (Unit {0})
  unfolding contains read_file send
  send_job_files p c =
      if contains "JobSpecificLabel" p.labels
      then (do
        read_file env
        send env c (transfer_file "cuda.cu")
        read_file env
        send env c (transfer_file "Makefile"))
      else pure tt

  -- The pod is filled in, stored, registered and sent to its worker.
  unfoldable pub launch : Pod → Node → Client → Api Addr
  unfolding draw clock fill etcd_put register fresh send
  launch p n c = do
    id ← draw env.uuid
    t ← clock env.now
    let q = fill id t n.status.address p
    etcd_put env (Key.pods q.name) (Value.pod q)
    a ← gets (λ w. fresh w.cm)
    modify (register q)
    send env c (Rpc.create_pod q)
    pure a

  -- From the chosen worker on.
  unfoldable pub place_pod : Pod → Node → Api Addr
  unfolding or_panic client_by_name send_job_files launch
  place_pod p n = do
    found ← gets (client_by_name n.name)
    c ← or_panic found
    send_job_files p c
    launch p n c

  -- The pointer that the caller gave is returned, as its address.
  unfoldable pub create_pod : Pod → Api Addr
  unfolding pod_exists_by_name schedule_pod or_no_worker place_pod
  create_pod p w =
      (if pod_exists_by_name p.name w.cm
          then raise (pod_exists p.name)
          else (do chosen ← schedule_pod p; n ← or_no_worker chosen; place_pod p n))
        w

  -- The worker, etcd, the legacy and the cache, in this order.
  unfoldable pub retire : String → Client → Api (Unit {0})
  unfolding send etcd_delete set_pod_legacy forget
  retire n c = do
    send env c (Rpc.delete_pod n)
    etcd_delete env (Key.pods n)
    modify (set_pod_legacy n)
    modify (forget n)

  -- From the object that the name stands for on.
  unfoldable pub remove : String → Addr → Api (Unit {0})
  unfolding deref client_by_ip retire
  remove n a w = elim (client_by_ip (deref w.cm.heap a).status.host_ip w) [
    | none ↦ (err (no_client (deref w.cm.heap a).status.host_ip), w)
    | some c ↦ retire n c w
  ]

  unfoldable pub delete_pod_by_name : String → Api (Unit {0})
  unfolding pod_exists_by_name get_pod_by_name remove
  delete_pod_by_name n w =
      if pod_exists_by_name n w.cm
      then elim (get_pod_by_name n w.cm) [
        | none ↦ (err (race_condition n), w)
        | some a ↦ remove n a w
      ]
      else (err (no_such_pod n), w)

  -- The loop over a snapshot of the pods, which the first error ends.
  unfoldable pub delete_each : List Addr → Api (Unit {0})
  unfolding delete_pod_by_name deref
  delete_each [] = pure tt
  delete_each (a ∷ todo) = do
    n ← gets (λ w. name_of w.cm.heap a)
    delete_pod_by_name n
    delete_each todo

  unfoldable pub delete_all_pods : Api (Unit {0})
  unfolding list_pods delete_each
  delete_all_pods w = delete_each (list_pods w.cm) w

  -- The status of the object changes before etcd is told, and returns as it was.
  unfoldable pub update_status : Addr → PodStatus → Api PodStatus
  unfolding deref set_status etcd_put
  update_status a s = do
    p ← gets (λ w. deref w.cm.heap a)
    modify λ w. record w { cm = set_status a s w.cm }
    etcd_put env (Key.pods p.name) (Value.pod (record p { status = s }))
    pure p.status

  unfoldable pub update_pod_status : String → PodStatus → Api PodStatus
  unfolding pod_exists_by_name get_pod_by_name update_status
  update_pod_status n s w =
      if pod_exists_by_name n w.cm
      then elim (get_pod_by_name n w.cm) [
        | none ↦ (err (race_condition n), w)
        | some a ↦ update_status a s w
      ]
      else (err (no_such_pod n), w)
