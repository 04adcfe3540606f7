-- ===== src/ComponentManager/State.antt =====
-- pkg/apiserver/component.go: the state of the cache and of the pod objects that it points to.
-- Go shares pods by pointer: a list of a deployment or a service and the map of pods hold the same
-- object. An address is an index into `heap`, which holds the objects. Deployments, services, DNS
-- configurations and autoscalers are each reachable through one map entry only, so they are held
-- by value there. The methods are atomic, since each takes the read-write lock for its whole body.
use kuberboat.Prelude.{ℕ, String, GoMap, List, [], ◌∷◌, ◌++◌, length, get_or, set}
use kuberboat.Core.{Pod, PodStatus, zero_pod, Service, Deployment, Dns, HorizontalPodAutoscaler}

abbrev pub Addr : Type 0
Addr = ℕ

abbrev pub Heap : Type 0
Heap = List Pod

-- `*p`; the zero pod stands for what no pointer of the program reaches.
unfoldable pub deref : Heap → Addr → Pod
deref h a = get_or h a zero_pod

abbrev pub name_of : Heap → Addr → String
name_of h a = (deref h a).name

pub record ComponentManager : Type 0 where
  pub heap : Heap
  pub pods : GoMap String Addr
  pub services : GoMap String Service
  pub deployments : GoMap String Deployment
  pub dns : GoMap String Dns
  pub autoscalers : GoMap String HorizontalPodAutoscaler
  pub deployment_to_pods : GoMap String (List Addr)
  pub services_to_pods : GoMap String (List Addr)

unfoldable pub new_component_manager : ComponentManager
new_component_manager = record {
  heap = [];
  pods = [];
  services = [];
  deployments = [];
  dns = [];
  autoscalers = [];
  deployment_to_pods = [];
  services_to_pods = [];
}

-- `&pod`: the address of a new object, which is the next free one.
unfoldable pub fresh : ComponentManager → Addr
fresh cm = length cm.heap

unfoldable pub alloc : Pod → ComponentManager → ComponentManager
alloc p cm = record cm { heap = cm.heap ++ p ∷ [] }

-- `p.Status = s`, seen through every pointer to the object.
unfoldable pub set_status : Addr → PodStatus → ComponentManager → ComponentManager
unfolding deref
set_status a s cm = record cm { heap = set cm.heap a (record (deref cm.heap a) { status = s }) }
