-- ===== src/Proxy/Routing/Adding.antt =====
-- The requests that add pods and services keep the rules of the chains in step, also if they fail.
use kuberboat.Prelude.{ℕ, ◌+◌, String, not, string_eq, List, [], ◌∷◌, ◌++◌, length, All, ◌≡◌, refl}
use kuberboat.Exec.{Result, ok, err, pure}
use kuberboat.Exec.Keeps.{Keeps, Leads-raise, Leads-pure, Leads-if, Keeps-bind}
use kuberboat.Proxy.Names.{Chain, chain_eq, service_chain}
use kuberboat.Proxy.Meta.{ServiceChain, get_pod_chains, get_service_chains, service_exists}
use kuberboat.Proxy.Iptables.{Documented}
use kuberboat.Proxy.Client.{Host, KubeProxy}
use kuberboat.Proxy.Services.{link_pod}
use kuberboat.Proxy.Membership.{
  add_to_chains, add_to_known, add_to_service, add_to_each, give_back, conclude,
  add_pod_to_services,
}
use kuberboat.Proxy.Routing.{IsRouted, IsServiceChain}
use kuberboat.Proxy.Routing.Linking.{link_pod-IsRouted}

module _ {T : Type 0} (host : Host T) (doc : Documented host.client.iptables) where
  link_chain-IsRouted :
      (c : Chain) (id : String) (port : ℕ) (n ip : String) (p : KubeProxy T)
      → c ≡ service_chain id
      → IsRouted host doc p
      → IsRouted host doc
          (link_pod host c port n ip (length (get_pod_chains c p.service_meta) + 1) p).1
  link_chain-IsRouted c id port n ip p e h =
      rw e (link_pod-IsRouted host doc id port n ip _ p refl h)

  add_to_chains-IsRouted :
      (n ip : String) (cs : List ServiceChain) (e : Result (Unit {0}))
      → All IsServiceChain cs
      → Keeps (IsRouted host doc) (add_to_chains host n ip cs e)
  unfolding add_to_chains
  add_to_chains-IsRouted n ip [] e a = Leads-pure _ (λ s h. h)
  add_to_chains-IsRouted n ip (c ∷ cs) e a = record {
    at = λ p h.
        (add_to_chains-IsRouted n ip cs _ a.1).at _
          (link_chain-IsRouted c.chain_name a.0.0 c.service_port.target_port n ip p a.0.1 h);
  }

  add_to_known-IsRouted :
      (n ip s : String) (e : Result (Unit {0})) (missing : List String)
      → Keeps (IsRouted host doc) (add_to_known host n ip s e missing)
  unfolding add_to_known
  add_to_known-IsRouted n ip s e missing = record {
    at = λ p h.
        (Keeps-bind (add_to_chains host n ip (get_service_chains s p.service_meta) e)
            (λ r. pure (r, missing))
            (add_to_chains-IsRouted n ip (get_service_chains s p.service_meta) e
              (h.services_named s))
            (λ r. Leads-pure (r, missing) (λ q k. k))).at
          p h;
  }

  add_to_service-IsRouted :
      (n ip s : String) (e : Result (Unit {0})) (missing : List String)
      → Keeps (IsRouted host doc) (add_to_service host n ip s e missing)
  unfolding add_to_service
  add_to_service-IsRouted n ip s e missing = record {
    at = λ p h.
        (Leads-if (not (service_exists s p.service_meta)) (pure (e, missing ++ s ∷ []))
            (add_to_known host n ip s e missing) (λ _. Leads-pure _ (λ q k. k))
            (λ _. add_to_known-IsRouted n ip s e missing)).at
          p h;
  }

  add_to_each-IsRouted :
      (n ip : String) (ss : List String) (e : Result (Unit {0})) (missing : List String)
      → Keeps (IsRouted host doc) (add_to_each host n ip ss e missing)
  unfolding add_to_each
  add_to_each-IsRouted n ip [] e missing = Leads-pure _ (λ p h. h)
  add_to_each-IsRouted n ip (s ∷ ss) e missing =
      Keeps-bind _ _ (add_to_service-IsRouted n ip s e missing)
        λ r. add_to_each-IsRouted n ip ss r.0 r.1

  pub conclude-IsRouted :
      (e : Result (Unit {0})) (missing : List String)
      → Keeps (IsRouted host doc) (conclude host e missing)
  unfolding conclude give_back
  conclude-IsRouted (ok u) [] = Leads-pure _ (λ p h. h)
  conclude-IsRouted (err e) [] = Leads-raise _ (λ p h. h)
  conclude-IsRouted e (s ∷ ss) = Leads-raise _ (λ p h. h)

  -- Whatever calls of iptables fail and whatever services are missing, a request to add a pod to
  -- services leaves each service chain with exactly the rules of the pods that the proxy has for
  -- it, numbered from one on, if it was so before.
  pub add_pod_to_services-IsRouted :
      (ss : List String) (n ip : String) (p : KubeProxy T)
      → IsRouted host doc p
      → IsRouted host doc (add_pod_to_services host ss n ip p).1
  unfolding add_pod_to_services
  add_pod_to_services-IsRouted ss n ip p h =
      (Keeps-bind _ _ (add_to_each-IsRouted n ip ss (ok tt) []) (λ r. conclude-IsRouted r.0 r.1)).at
        p h
