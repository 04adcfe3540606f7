-- ===== src/Lib.antt =====
-- Kuberboat, a small container orchestrator, as a model whose properties are checked.
--
-- An API server (cmd/apiserver, pkg/apiserver) holds the cluster in a cache and in etcd, and tells
-- the workers (cmd/kubelet, pkg/kubelet) over gRPC which pods to run and which services to route;
-- the workers report the phases of their pods. Controllers for pods, services, deployments, jobs
-- and autoscalers share the cache and the registry of workers by pointer.
--
-- What models what:
--   Core               pkg/api/core/types.go, the resources field by field
--   Util               pkg/api/util.go
--   ComponentManager   pkg/apiserver/component.go, the cache: State has the maps and the heap of
--                      pod objects, Pods, Deployments and Services have its methods
--   Exec               methods that return an error or panic, and keep what they wrote before
--   World              the state of the whole API server, with etcd and the requests sent
--                      (pkg/apiserver/etcd/etcd.go, pkg/apiserver/client/client.go)
--   Nodes              pkg/apiserver/node/node.go, the registry of workers
--   NodeControl        pkg/apiserver/node/controller.go
--   Schedule           pkg/apiserver/schedule/schedueler.go
--   Legacy             pkg/apiserver/legacy.go
--   PodControl         pkg/apiserver/pod/controller.go
--   ClusterIp          pkg/apiserver/service/cluster_ip.go
--   ServiceControl     pkg/apiserver/service/controller.go
--   DeploymentControl  pkg/apiserver/deployment/controller.go: its computations, Scaling for
--                      morePods and fewerPods, Handlers for requests and events, Monitor for one
--                      pass of monitorDeployment
--   JobControl         pkg/apiserver/job/controller.go
--   AutoscaleControl   pkg/apiserver/scale/controller.go, without the monitor
--   Recovery           pkg/apiserver/recover/recover.go, with Get of pkg/apiserver/etcd/etcd.go
--   Events             pkg/apiserver/event.go, pkg/apiserver/dispatcher.go, and the reports of the
--                      workers in cmd/apiserver/app/server.go
--   Kubelet            monitorPods of pkg/kubelet/kubelet.go
--   PodManager         pkg/kubelet/pod/pod_manager.go, the pods and containers a worker knows
--   Worker             AddPod and DeletePodByName of pkg/kubelet/kubelet.go with what they ask of
--                      Docker, and pkg/kubelet/client/client.go
--   Proxy              pkg/kubelet/kube_proxy.go and pkg/kubelet/proxy: Meta for the metadata of
--                      services, Iptables and Client for the kernel's tables, Setup, Services and
--                      Membership for the requests
--
-- A method of the source is a function of the same name in antt's spelling, `DeletePodByName` as
-- `delete_pod_by_name`; a part of a long method is a function of its own, named for what it does.
-- The children of a module have its proofs, and the description of its objects. Pods are objects on a
-- heap, since the lists of deployments and services and the map of pods share them; what only one
-- map entry reaches is held by value. A Go map is an association list, and statements hold for every order of its entries.
--
-- Outside code is not defined but assumed: an `Env` says for the n-th call of etcd, gRPC or the file
-- system whether it succeeds, and gives the random UUIDs, the clock and the hashes of templates.
-- Statements are for every `Env` unless they say otherwise. What Docker answers on a container is an
-- input of the worker's monitor, and an `Env` of the worker says which of Docker's calls succeed.
-- The package go-iptables is a record `Iptables` over any type of kernel tables, with the behaviour
-- its documentation promises as the laws `Documented` and `Succeeds`; net.ParseIP and the random names
-- of chains are fields of the worker's `Host`.
--
-- Each method runs under the lock of its controller from start to end, and is one step here.
-- Interleavings of methods of different controllers between two calls are not modelled, nor are the
-- goroutines of a broadcast, whose requests are sent in the order of the workers. Numbers of type
-- uint32 wrap where the code computes with them. The one loop without a bound of its own, that of
-- the deployment controller's DeleteDeploymentByName, runs on fuel: one round more than the
-- deployment has pods is enough when its pods can be deleted.
--
-- Not modelled: kubectl and Prometheus, which are input and output; the decoding of requests, which
-- only forwards; the DNS controller, whose work is the text of an nginx configuration; the monitor of
-- autoscalers, which computes with float64 from what Prometheus answers; and of the workers the
-- connection to the API server, the name server file, cAdvisor, the logs and the lookup of a network
-- interface.
mod Prelude
pub mod Core
pub mod Util
pub mod ComponentManager
pub mod Exec
pub mod World
pub mod Nodes
pub mod NodeControl
pub mod Schedule
pub mod Legacy
pub mod PodControl
pub mod ClusterIp
pub mod ServiceControl
pub mod DeploymentControl
pub mod JobControl
pub mod AutoscaleControl
pub mod Kubelet
pub mod PodManager
pub mod Worker
pub mod Proxy
pub mod Recovery
pub mod Events
mod Tests
