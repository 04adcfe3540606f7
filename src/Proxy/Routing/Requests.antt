-- ===== src/Proxy/Routing/Requests.antt =====
-- DeletePodFromServices over all chains of all services of a request.
use kuberboat.Prelude.{String, not, string_eq, List, [], ◌∷◌, ◌++◌, All}
use kuberboat.Exec.{Result, ok, err, pure}
use kuberboat.Exec.Keeps.{Keeps, Leads-pure, Leads-raise, Leads-if, Keeps-bind}
use kuberboat.Proxy.Names.{chain_eq}
use kuberboat.Proxy.Meta.{ServiceChain, get_service_chains, service_exists}
use kuberboat.Proxy.Iptables.{Documented, Succeeds}
use kuberboat.Proxy.Client.{Host, KubeProxy}
use kuberboat.Proxy.Membership.{
  delete_from_chains, delete_from_known, delete_from_service, delete_from_each,
  delete_pod_from_services, conclude, give_back,
}
use kuberboat.Proxy.Routing.{IsServiceChain}
use kuberboat.Proxy.Routing.Removing.{IsOrderly, delete_from_chain-IsOrderly}

module _ {T : Type 0} (host : Host T) (doc : Documented host.client.iptables)
    (fine : Succeeds host.client.iptables) (n : String) where
  delete_from_chains-IsOrderly :
      (cs : List ServiceChain) (e : Result (Unit {0}))
      → All IsServiceChain cs
      → Keeps (IsOrderly host doc fine n) (delete_from_chains host n cs e)
  unfolding delete_from_chains
  delete_from_chains-IsOrderly [] e a = Leads-pure _ (λ p h. h)
  delete_from_chains-IsOrderly (c ∷ cs) e a =
      Keeps-bind _ _
        (record { at = λ p h. delete_from_chain-IsOrderly host doc fine n c a.0.0 e p a.0.1 h })
        (λ r. delete_from_chains-IsOrderly cs r a.1)

  delete_from_known-IsOrderly :
      (s : String) (e : Result (Unit {0})) (missing : List String)
      → Keeps (IsOrderly host doc fine n) (delete_from_known host n s e missing)
  unfolding delete_from_known
  delete_from_known-IsOrderly s e missing = record {
    at = λ p h.
        (Keeps-bind (delete_from_chains host n (get_service_chains s p.service_meta) e)
            (λ r. pure (r, missing))
            (delete_from_chains-IsOrderly (get_service_chains s p.service_meta) e
              (h.0.services_named s))
            (λ r. Leads-pure (r, missing) (λ q k. k))).at
          p h;
  }

  delete_from_service-IsOrderly :
      (s : String) (e : Result (Unit {0})) (missing : List String)
      → Keeps (IsOrderly host doc fine n) (delete_from_service host n s e missing)
  unfolding delete_from_service
  delete_from_service-IsOrderly s e missing = record {
    at = λ p h.
        (Leads-if (not (service_exists s p.service_meta)) (pure (e, missing ++ s ∷ []))
            (delete_from_known host n s e missing) (λ _. Leads-pure _ (λ q k. k))
            (λ _. delete_from_known-IsOrderly s e missing)).at
          p h;
  }

  delete_from_each-IsOrderly :
      (ss : List String) (e : Result (Unit {0})) (missing : List String)
      → Keeps (IsOrderly host doc fine n) (delete_from_each host n ss e missing)
  unfolding delete_from_each
  delete_from_each-IsOrderly [] e missing = Leads-pure _ (λ p h. h)
  delete_from_each-IsOrderly (s ∷ ss) e missing =
      Keeps-bind _ _ (delete_from_service-IsOrderly s e missing)
        (λ r. delete_from_each-IsOrderly ss r.0 r.1)

  conclude-IsOrderly :
      (e : Result (Unit {0})) (missing : List String)
      → Keeps (IsOrderly host doc fine n) (conclude host e missing)
  unfolding conclude give_back
  conclude-IsOrderly (ok u) [] = Leads-pure _ (λ p h. h)
  conclude-IsOrderly (err e) [] = Leads-raise _ (λ p h. h)
  conclude-IsOrderly e (s ∷ ss) = Leads-raise _ (λ p h. h)

  -- Where no insertion and no clearing of a chain fails, the deletion of a pod from services,
  -- some of which may be missing, leaves each service chain with exactly the rules of the pods
  -- that the proxy still has for it, numbered from one on without a gap, if it was so before and
  -- no chain had the pod twice.
  pub delete_pod_from_services-IsOrderly :
      (ss : List String) (p : KubeProxy T)
      → IsOrderly host doc fine n p
      → IsOrderly host doc fine n (delete_pod_from_services host ss n p).1
  unfolding delete_pod_from_services
  delete_pod_from_services-IsOrderly ss p h =
      (Keeps-bind _ _ (delete_from_each-IsOrderly ss (ok tt) [])
          (λ r. conclude-IsOrderly r.0 r.1)).at
        p h
