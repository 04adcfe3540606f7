-- ===== src/Tests/Proxy.antt =====
-- Examples for the service proxy, on a host with a small kernel.
use kuberboat.Prelude.{
  String, true, false, lookup, insert, List, [], ◌∷◌, All, inl, inr, ◌≡◌, refl, arith, none,
  string_eq, contains, All-lookup, Option-cases, ◌<◌, ◌⊎◌,
}
use kuberboat.Core.{ServicePort}
use kuberboat.Exec.{err, Error}
use kuberboat.PodManager.{new_meta_manager as no_pods}
use kuberboat.Proxy.Names.{Chain, chain_eq, service_chain, Rule}
use kuberboat.Proxy.Meta.{
  new_meta_manager, get_pod_chains, get_service_chains, service_exists, ServiceManager,
}
use kuberboat.Proxy.Iptables.{is_ok}
use kuberboat.Proxy.Client.{KubeProxy}
use kuberboat.Proxy.Services.{create_service, delete_service}
use kuberboat.Proxy.Membership.{add_pod_to_services, delete_pod_from_services}
use kuberboat.Proxy.Routing.{IsRouted, stack}
use kuberboat.Proxy.Routing.Adding.{add_pod_to_services-IsRouted}
use kuberboat.Proxy.Routing.Rewriting.{IsOnce, others}
use kuberboat.Proxy.Routing.Removing.{IsOrderly}
use kuberboat.Proxy.Routing.Requests.{delete_pod_from_services-IsOrderly}
use kuberboat.Proxy.Routing.Removed.{delete_pod_from_services-removes}
use kuberboat.Proxy.Creation.Outcomes.{endpoints}
use kuberboat.Proxy.Creation.Ports.{IsFresh}
use kuberboat.Proxy.Creation.Request.{IsCreated, create_service-IsCreated}
use kuberboat.Proxy.Deletion.Traces.{delete_service-IsDeleted}
use kuberboat.Proxy.Deletion.RoundTrip.{IsBack, delete_service-create_service}
use kuberboat.Tests.Kernel.{
  Table, rules_of, kernel-Documented, host, host_distinct, host-Documented, host-Succeeds,
}

start : KubeProxy Table
unfolding no_pods new_meta_manager
start = record { pod_meta = no_pods; service_meta = new_meta_manager; table = []; drawn = 1 }

start-IsFresh : IsFresh host start
unfolding start get_pod_chains lookup
start-IsFresh j n = refl

start-IsRouted : IsRouted host host-Documented start
unfolding start host-Documented kernel-Documented rules_of get_pod_chains get_service_chains stack
    lookup
start-IsRouted = record { routed = λ i. refl; pods_named = λ i. tt; services_named = λ s. tt }

abbrev http : List ServicePort
http = record { port = 80; target_port = 8080 } ∷ []

abbrev two : List String
two = "a" ∷ "b" ∷ []

abbrev two_ips : List String
two_ips = "10.2.0.1" ∷ "10.2.0.2" ∷ []

start_unknown : service_exists "front" start.service_meta ≡ false
unfolding start service_exists contains
start_unknown = refl

start_no_chains : get_service_chains "front" start.service_meta ≡ []
unfolding start get_service_chains lookup
start_no_chains = refl

start_drawn : 0 < start.drawn
unfolding start
start_drawn = omega arith

served : KubeProxy Table
unfolding create_service host start
served = (create_service host "front" "10.3.0.1" http two two_ips start).1

served_ok : is_ok (create_service host "front" "10.3.0.1" http two two_ips start).0 ≡ true
unfolding create_service host start contains lookup
served_ok = refl

create_service-IsCreated_example :
    IsCreated host host_distinct host-Documented "front" "10.3.0.1"
      (endpoints two two_ips)
      http
      start
      (create_service host "front" "10.3.0.1" http two two_ips start)
    × ((service_exists "front" start.service_meta ≡ false)
        ⊎ (create_service host "front" "10.3.0.1" http two two_ips start
            ≡ (err (Error.service_exists "front"), start)))
create_service-IsCreated_example =
    create_service-IsCreated host host_distinct host-Documented "front" "10.3.0.1" http two two_ips
      start start-IsFresh start-IsRouted

served-IsRouted : IsRouted host host-Documented served
unfolding served
served-IsRouted = create_service-IsCreated_example.0.routed

add_pod_to_services-IsRouted_example :
    IsRouted host host-Documented (add_pod_to_services host ("front" ∷ []) "c" "10.2.0.3" served).1
add_pod_to_services-IsRouted_example =
    add_pod_to_services-IsRouted host host-Documented ("front" ∷ []) "c" "10.2.0.3" served
      served-IsRouted

get_pod_chains-IsOnce :
    (n : String) (m : ServiceManager)
    → All (λ e. IsOnce n e.1) m.pod_chains
    → (d : Chain) → IsOnce n (get_pod_chains d m)
unfolding get_pod_chains
get_pod_chains-IsOnce n m h d = elim (Option-cases (lookup d m.pod_chains)) [
  | inl missing ↦ rw missing (omega arith)
  | inr (l, found) ↦ rw found (All-lookup (λ e. IsOnce n e.1) d m.pod_chains h found)
]

served-IsOnce : (d : Chain) → IsOnce "a" (get_pod_chains d served.service_meta)
unfolding served contains lookup insert kuberboat.Proxy.Names.chain_beq
served-IsOnce = get_pod_chains-IsOnce "a" served.service_meta (omega arith, tt)

delete_pod_from_services-IsOrderly_example :
    IsOrderly host host-Documented host-Succeeds "a"
      (delete_pod_from_services host ("front" ∷ []) "a" served).1
delete_pod_from_services-IsOrderly_example =
    delete_pod_from_services-IsOrderly host host-Documented host-Succeeds "a" ("front" ∷ []) served
      (served-IsRouted, λ i. served-IsOnce (service_chain i))

served_known : service_exists "front" served.service_meta ≡ true
unfolding served contains lookup insert
served_known = refl

delete_pod_from_services-removes_example :
    All
      (λ c.
        get_pod_chains c.chain_name
          (delete_pod_from_services host ("front" ∷ []) "a" served).1.service_meta
        ≡ others "a" (get_pod_chains c.chain_name served.service_meta))
      (get_service_chains "front" served.service_meta)
    × (others "a" (
          get_pod_chains
            (service_chain "A")
            (delete_pod_from_services host ("front" ∷ []) "a" served).1.service_meta)
        ≡ others "a" (get_pod_chains (service_chain "A") served.service_meta))
delete_pod_from_services-removes_example =
    delete_pod_from_services-removes host "a" ("front" ∷ []) "front" (service_chain "A") served
      served-IsOnce (inl refl) served_known

delete_service-IsDeleted_example :
    (is_ok (delete_service host "front" served).0 ≡ true)
    × (lookup "front" (delete_service host "front" served).1.service_meta.service_to_cluster_ip
        ≡ none)
    × (get_service_chains "front" (delete_service host "front" served).1.service_meta ≡ [])
    × All
        (λ c. get_pod_chains c.chain_name (delete_service host "front" served).1.service_meta ≡ [])
        (get_service_chains "front" served.service_meta)
delete_service-IsDeleted_example = delete_service-IsDeleted host "front" "front" served served_known

delete_service-create_service_example :
    IsBack host host_distinct host-Documented "front" 0 start (
      delete_service host "front" (create_service host "front" "10.3.0.1" http two two_ips start).1)
delete_service-create_service_example =
    delete_service-create_service host host_distinct host-Documented "front" "10.3.0.1" "front" http
      two two_ips 0 start start-IsFresh start-IsRouted start_unknown start_no_chains start_drawn
      served_ok
