-- ===== src/Proxy/Creation/Ports.antt =====
-- The ports of a service that is created, one service chain for each.
use kuberboat.Prelude.{
  ℕ, suc, ◌≤◌, ◌<◌, String, false, not, ◌==◌, string_eq, List, [], ◌∷◌, ◌++◌, map, All, All-append,
  All-if, subst, ◌≡◌, ◌⊎◌, refl, ap, ◌∙◌, arith, if◌then◌else◌, lookup-insert,
}
use kuberboat.Core.{ServicePort}
use kuberboat.Exec.{Result}
use kuberboat.Proxy.Names.{Chain, chain_eq, services, service_chain, services-service_chain}
use kuberboat.Proxy.Meta.{
  ServiceManager, ServiceChain, get_pod_chains, get_service_chains, add_service_chain,
}
use kuberboat.Proxy.Iptables.{Documented, nat_table, is_ok}
use kuberboat.Proxy.Client.{Host, KubeProxy, apply_service_chain, service_rule}
use kuberboat.Proxy.Services.{update}
use kuberboat.Proxy.Routing.{
  stack, IsRouted, RoutedWith, IsServiceChain, IsPodChain, on_table-RoutedWith,
}
use kuberboat.Exec.Keeps.{Keeps, Leads-if, Leads-raise}
use kuberboat.Proxy.Creation.{Same, on_table-Same}
use kuberboat.Proxy.Creation.Outcomes.{endpoint, pods_at}

pub get_service_chains-add_service_chain :
    (s t : String) (c : ServiceChain) (m : ServiceManager)
    → get_service_chains t (add_service_chain s c m)
      ≡ (if s == t then get_service_chains s m ++ c ∷ [] else get_service_chains t m)
unfolding get_service_chains add_service_chain
get_service_chains-add_service_chain s t c m =
    ground (arith, lookup-insert s t (get_service_chains s m ++ c ∷ []) m.service_chains)

module _ {T : Type 0} (host : Host T) where
  -- Chains with identifiers that are not drawn yet have no pods.
  abbrev pub IsFresh : KubeProxy T → Type 0
  IsFresh p = (j : ℕ) → p.drawn ≤ j → pods_at host j p ≡ []

  -- The chain has these pods, and an identifier that was drawn.
  abbrev pub Serves : ℕ → List (String × String) → KubeProxy T → ServiceChain → Type 0
  Serves from l p c =
      (k : ℕ) × (from ≤ k)
      × (k < p.drawn)
      × (c.chain_name ≡ service_chain (host.id k))
      × (map endpoint (pods_at host k p) ≡ l)

  abbrev pub port_of : ServiceChain → ServicePort
  port_of c = c.service_port

  -- Between two states, nothing that was there changes but the chains of `s`.
  pub record IsLater (s : String) (p q : KubeProxy T) : Type 0 where
    pub grows : p.drawn ≤ q.drawn
    pub older : (j : ℕ) → j < p.drawn → pods_at host j q ≡ pods_at host j p
    pub names :
        (t : String)
        → (s == t) ≡ false
        → get_service_chains t q.service_meta ≡ get_service_chains t p.service_meta
    pub ips : q.service_meta.service_to_cluster_ip ≡ p.service_meta.service_to_cluster_ip

  pub IsLater-trans :
      (s : String) (p q r : KubeProxy T) → IsLater s p q → IsLater s q r → IsLater s p r
  IsLater-trans s p q r a b = record {
    grows = omega (arith, a.grows, b.grows);
    older = λ j n. b.older j (omega (arith, a.grows)) ∙ a.older j n;
    names = λ t n. b.names t n ∙ a.names t n;
    ips = b.ips ∙ a.ips;
  }

  -- A chain that serves still serves later.
  pub Serves-IsLater :
      (s : String) (from : ℕ) (l : List (String × String)) (p q : KubeProxy T) (c : ServiceChain)
      → IsLater s p q
      → Serves from l p c
      → Serves from l q c
  Serves-IsLater s from l p q c a (k, b, n, e, h) =
      (k, b, omega (arith, a.grows), e, ap (map endpoint) (a.older k n) ∙ h)

  module _ (doc : Documented host.client.iptables) where
    -- The outcome for a list of ports.
    pub record IsOpened (s : String) (l : List (String × String)) (ports : List ServicePort)
        (p : KubeProxy T) (r : Result (Unit {0}) × KubeProxy T) : Type 0 where
      pub routed : IsRouted host doc r.1
      pub fresh : IsFresh r.1
      pub later : IsLater s p r.1
      pub opened :
          (is_ok r.0 ≡ false)
          ⊎ ((cs : List ServiceChain) × (get_service_chains s r.1.service_meta
                ≡ get_service_chains s p.service_meta ++ cs)
              × (map port_of cs ≡ ports)
              × All (Serves p.drawn l r.1) cs)

    apply_service_chain-RoutedWith :
        (m : ServiceManager) (s ip : String) (c : Chain) (port : ℕ)
        → Keeps (RoutedWith host doc m) (apply_service_chain host s ip c port)
    unfolding apply_service_chain
    apply_service_chain-RoutedWith m s ip c port =
        Leads-if (not (host.is_ip ip)) _ _ (λ _. Leads-raise _ (λ p h. h))
          (λ _.
            on_table-RoutedWith host doc m
              (host.client.iptables.insert nat_table services 1 (service_rule s ip c port))
              (λ i t. ground (
                arith,
                doc.rules-insert services (service_chain i) (service_rule s ip c port) t,
                services-service_chain i,
              )))

    pub same_pods :
        (s : String) (c : ServiceChain) (m : ServiceManager) (i : String)
        → get_pod_chains (service_chain i) m
          ≡ get_pod_chains (service_chain i) (add_service_chain s c m)
    unfolding get_pod_chains add_service_chain
    same_pods s c m i = refl

    -- The chain of the port: its rules are none yet.
    unfoldable pub started : KubeProxy T → KubeProxy T
    started p = record p {
      table =
          (host.client.iptables.new_chain nat_table (service_chain (host.id p.drawn)) p.table).1;
      drawn = suc p.drawn;
    }

    pub started-IsRouted : (p : KubeProxy T) → IsRouted host doc p → IsRouted host doc (started p)
    unfolding started
    started-IsRouted p h = record {
      routed = λ i.
          doc.rules-new_chain (service_chain (host.id p.drawn)) (service_chain i) p.table
          ∙ h.routed i;
      pods_named = h.pods_named;
      services_named = h.services_named;
    }

    -- The end of a port, after its pods.
    unfoldable pub registered : String → String → Chain → ServicePort → KubeProxy T → KubeProxy T
    registered s ip c port p =
        update (add_service_chain s (record { chain_name = c; service_port = port }))
          (apply_service_chain host s ip c port.port p).1

    pub registered-IsRouted :
        (s ip : String) (k : ℕ) (port : ServicePort) (p : KubeProxy T)
        → IsRouted host doc p
        → IsRouted host doc (registered s ip (service_chain (host.id k)) port p)
    unfolding registered
    registered-IsRouted s ip k port p h =
        let q : KubeProxy T =
          (apply_service_chain host s ip (service_chain (host.id k)) port.port p).1 in
        let c : ServiceChain = record {
          chain_name = service_chain (host.id k);
          service_port = port;
        } in
        let g : RoutedWith host doc p.service_meta q =
          (apply_service_chain-RoutedWith p.service_meta s ip (service_chain (host.id k))
              port.port).at
            p (h, refl) in
        record {
          routed = λ i. g.0.routed i ∙ ap (λ l. stack 0 l []) (same_pods s c q.service_meta i);
          pods_named =
              λ i. subst (All IsPodChain) (same_pods s c q.service_meta i) (g.0.pods_named i);
          services_named = λ t. rw (get_service_chains-add_service_chain s t c q.service_meta) (
              All-if IsServiceChain _ _ (s == t)
                (All-append IsServiceChain (get_service_chains s q.service_meta) (c ∷ [])
                  (g.0.services_named s) ((host.id k, refl), tt))
                (g.0.services_named t));
        }

    apply_service_chain-Same :
        (m : ServiceManager) (d : ℕ) (s ip : String) (c : Chain) (port : ℕ)
        → Keeps (Same host m d) (apply_service_chain host s ip c port)
    unfolding apply_service_chain
    apply_service_chain-Same m d s ip c port =
        Leads-if (not (host.is_ip ip)) _ _ (λ _. Leads-raise _ (λ p h. h))
          (λ _. on_table-Same host m d _)

    pub registered_lem :
        (s ip : String) (c : Chain) (port : ServicePort) (p : KubeProxy T)
        → ((registered s ip c port p).service_meta
            ≡ add_service_chain s (record { chain_name = c; service_port = port }) p.service_meta)
          × ((registered s ip c port p).drawn ≡ p.drawn)
    unfolding registered
    registered_lem s ip c port p =
        let h : Same host p.service_meta p.drawn (apply_service_chain host s ip c port.port p).1 =
          (apply_service_chain-Same p.service_meta p.drawn s ip c port.port).at p (refl, refl) in
        (ap (add_service_chain s (record { chain_name = c; service_port = port })) h.0, h.1)
