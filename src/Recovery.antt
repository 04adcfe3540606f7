-- ===== src/Recovery.antt =====
-- pkg/apiserver/recover/recover.go: a new API server takes over what etcd holds.
-- `etcd.Get` with a prefix gives the values of all keys below it, in any order. A key holds one type
-- of value only, so a value of another type is no value of that key.
pub mod Pods
pub mod Lists
pub mod Nodes
pub mod Coherence
pub mod Safety
pub mod Names
pub mod Contents
pub mod Restored
pub mod Restoring
pub mod Lookup
pub mod Durable
use kuberboat.Prelude.{
  ℕ, String, Bool, true, false, if◌then◌else◌, ◌==◌, nat_eq, string_eq, lookup, insert, GoMap, List,
  [], ◌∷◌, ◌++◌, Option, none, some,
}
use kuberboat.Core.{Pod, Service, Deployment, Node}
use kuberboat.ComponentManager.{
  ComponentManager, Addr, fresh, alloc, set_pod, set_service, set_deployment,
}
use kuberboat.Exec.{
  Result, ok, err, no_pod_list, etcd_failed, Exec, pure, raise, gets, modify, ◌>>=◌, ◌>>◌,
}
use kuberboat.World.{World, Env, Api, Key, Value, Ip, key_eq, call}
use kuberboat.Nodes.{register_node, unregister_node, client_by_name}
use kuberboat.NodeControl.{greet, write_targets}
use kuberboat.ServiceControl.Describing.{set_current_ip}

abbrev pub Decoder : Type 0 → Type 0
Decoder A = Key × Value → List A

-- The keys below "/Nodes", "/Pods", "/Services/Meta" and "/Deployments/Meta", and "/IPAssigner".
unfoldable pub as_node : Decoder Node
as_node (Key.nodes k, Value.node n) = n ∷ []
as_node _ = []

unfoldable pub as_pod : Decoder Pod
as_pod (Key.pods k, Value.pod p) = p ∷ []
as_pod _ = []

unfoldable pub as_service : Decoder Service
as_service (Key.services_meta k, Value.service s) = s ∷ []
as_service _ = []

unfoldable pub as_deployment : Decoder Deployment
as_deployment (Key.deployments_meta k, Value.deployment d) = d ∷ []
as_deployment _ = []

unfoldable pub as_ip : Decoder Ip
as_ip (Key.ip_assigner, Value.ip i) = i ∷ []
as_ip _ = []

module _ {A : Type 0} where
  unfoldable pub stored : Decoder A → GoMap Key Value → List A
  stored f [] = []
  stored f (kv ∷ m) = f kv ++ stored f m

  unfoldable pub get : Env → Decoder A → Api (List A)
  unfolding call stored
  get env f = do call env etcd_failed; gets (λ w. stored f w.etcd)

-- Of the type `[]string`, where a key without a value is an error.
unfoldable pub names_at : Option Value → String → Api (List String)
names_at (some (Value.names ns)) n = pure ns
names_at _ n = raise (no_pod_list n)

unfoldable pub get_names : Env → Key → String → Api (List String)
unfolding call lookup names_at
get_names env k n = do call env etcd_failed; found ← gets (λ w. lookup k w.etcd); names_at found n

-- `for _, rawPod := range pods { nameToPods[pod.Name] = &pod; cm.SetPod(&pod) }`
unfoldable pub recover_pods :
    List Pod → GoMap String Addr → ComponentManager → GoMap String Addr × ComponentManager
unfolding insert fresh alloc set_pod
recover_pods [] known cm = (known, cm)
recover_pods (p ∷ ps) known cm =
    recover_pods ps (insert p.name (fresh cm) known) (set_pod (fresh cm) (alloc p cm))

unfoldable pub set_pods : List Pod → Api (GoMap String Addr)
unfolding recover_pods
set_pods ps w = let r = recover_pods ps [] w.cm in (ok r.0, record w { cm = r.1 })

unfoldable pub set_current_ips : List Ip → World → World
unfolding set_current_ip
set_current_ips [] w = w
set_current_ips (ip ∷ ips) w = set_current_ips ips (set_current_ip ip w)

-- The pods of the names; a name that is unknown is skipped.
unfoldable pub known_pods : GoMap String Addr → List String → List Addr
unfolding lookup
known_pods known [] = []
known_pods known (n ∷ ns) = elim (lookup n known) [
  | none ↦ known_pods known ns
  | some a ↦ a ∷ known_pods known ns
]

-- `status` is what the worker answers to the n-th call.
module _ (env : Env) (status : ℕ → ℕ) where
  unfoldable pub recover_nodes : List Node → Api Bool
  unfolding register_node greet
  recover_nodes [] = pure true
  recover_nodes (n ∷ ns) = do
    register_node env n
    on ← greet env status n
    if on then recover_nodes ns else pure false

  unfoldable pub recover_services : GoMap String Addr → List Service → Api (Unit {0})
  unfolding get_names known_pods set_service
  recover_services known [] = pure tt
  recover_services known (s ∷ ss) = do
    ns ← get_names env (Key.services_pods s.name) s.name
    modify λ w. record w { cm = set_service s (known_pods known ns) w.cm }
    recover_services known ss

  unfoldable pub recover_deployments : GoMap String Addr → List Deployment → Api (Unit {0})
  unfolding get_names known_pods set_deployment
  recover_deployments known [] = pure tt
  recover_deployments known (d ∷ ds) = do
    ns ← get_names env (Key.deployments_pods d.name) d.name
    modify λ w. record w { cm = set_deployment d (known_pods known ns) w.cm }
    recover_deployments known ds

  -- From the file of the targets on.
  unfoldable pub recover_components : Api (Unit {0})
  unfolding write_targets get as_pod set_pods as_ip set_current_ips as_service recover_services
      as_deployment recover_deployments
  recover_components = do
    write_targets env
    ps ← get env as_pod
    known ← set_pods ps
    ips ← get env as_ip
    modify (set_current_ips ips)
    ss ← get env as_service
    recover_services known ss
    ds ← get env as_deployment
    recover_deployments known ds

  unfoldable pub recover : Api (Unit {0})
  unfolding get as_node recover_nodes recover_components
  recover = do
    ns ← get env as_node
    on ← recover_nodes ns
    if on then recover_components else pure tt
