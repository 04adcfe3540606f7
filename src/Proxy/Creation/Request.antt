-- ===== src/Proxy/Creation/Request.antt =====
-- `CreateService` of pkg/kubelet/kube_proxy.go, over all its ports.
use kuberboat.Prelude.{
  ◌≤◌, ℕ, String, false, string_eq, Bool-cases, List, [], ◌∷◌, ◌++◌, map, All, All-append,
  append_nil, append_assoc, map_append, All-map, ◌≡◌, ◌⊎◌, inl, inr, refl, ap, ◌∙◌, arith, insert,
}
use kuberboat.Core.{ServicePort}
use kuberboat.Exec.{Error, Result, ok, err, Exec, continue, modify}
use kuberboat.Proxy.Names.{chain_eq}
use kuberboat.Proxy.Meta.{ServiceChain, get_pod_chains, get_service_chains}
use kuberboat.Proxy.Iptables.{Documented, is_ok}
use kuberboat.Proxy.Client.{Host, KubeProxy}
use kuberboat.Proxy.Services.{update, open_port, open_ports, create_service}
use kuberboat.Proxy.Routing.{IsRouted}
use kuberboat.Proxy.Creation.Outcomes.{endpoints}
use kuberboat.Proxy.Creation.Ports.{
  IsFresh, Serves, port_of, IsLater, IsLater-trans, Serves-IsLater, IsOpened,
}
use kuberboat.Proxy.Meta.{add_service_cluster_ip, service_exists}
use kuberboat.Proxy.Services.{create_service}
use kuberboat.Prelude.{insert, true}
use kuberboat.Proxy.Creation.Opening.{open_port-IsOpened}

module _ {T : Type 0} (host : Host T) (distinct : (a b : ℕ) → host.id a ≡ host.id b → a ≡ b)
    (doc : Documented host.client.iptables) where
  -- The chains of one port and those of the others, where neither failed.
  abbrev Opened :
      String
      → List (String × String)
      → List ServicePort
      → KubeProxy T
      → Result (Unit {0}) × KubeProxy T
      → Type 0
  Opened s l ports p r =
      (is_ok r.0 ≡ false)
      ⊎ ((cs : List ServiceChain) × (get_service_chains s r.1.service_meta
            ≡ get_service_chains s p.service_meta ++ cs)
          × (map (port_of host) cs ≡ ports)
          × All (Serves host p.drawn l r.1) cs)

  from_older :
      (a b : ℕ) (l : List (String × String)) (p : KubeProxy T) (c : ServiceChain)
      → a ≤ b
      → Serves host b l p c
      → Serves host a l p c
  from_older a b l p c h (k, n, m, e, f) = (k, omega arith, m, e, f)

  joined :
      (s : String) (l : List (String × String)) (port : ServicePort) (ports : List ServicePort)
      (p q : KubeProxy T) (r : Result (Unit {0}) × KubeProxy T)
      → p.drawn ≤ q.drawn
      → IsLater host s q r.1
      → Opened s l (port ∷ []) p (ok tt, q)
      → Opened s l ports q r
      → Opened s l (port ∷ ports) p r
  joined s l port ports p q r grown later (inl bad) b = cc
  joined s l port ports p q r grown later (inr (cs, e, f, a)) (inl bad) = inl bad
  joined s l port ports p q r grown later (inr (cs, e, f, a)) (inr (ds, e', f', a')) = inr (
    cs ++ ds,
    e' ∙ ap (λ x. x ++ ds) e ∙ append_assoc (get_service_chains s p.service_meta) cs ds,
    map_append (port_of host) cs ds
        ∙ ap (λ x. x ++ map (port_of host) ds) f
        ∙ ap (λ x. port ∷ x) f',
    All-append (Serves host p.drawn l r.1) cs ds
        (All-map _ _ cs (λ c. Serves-IsLater host s p.drawn l q r.1 c later) a)
        (All-map _ _ ds (λ c. from_older p.drawn q.drawn l r.1 c grown) a'),
  )

  -- One port, and then the others.
  ports_step :
      (s : String) (l : List (String × String)) (port : ServicePort) (ports : List ServicePort)
      (p : KubeProxy T) (next : Exec (KubeProxy T) (Unit {0})) (r : Result (Unit {0}) × KubeProxy T)
      → IsOpened host doc s l (port ∷ []) p r
      → ((q : KubeProxy T)
          → IsFresh host q
          → IsRouted host doc q
          → IsOpened host doc s l ports q (next q))
      → IsOpened host doc s l (port ∷ ports) p (continue (λ _. next) r)
  ports_step s l port ports p next (err e, q) a go = record {
    routed = a.routed;
    fresh = a.fresh;
    later = a.later;
    opened = inl refl;
  }
  ports_step s l port ports p next (ok u, q) a go =
      let b : IsOpened host doc s l ports q (next q) = go q a.fresh a.routed in
      record {
        routed = b.routed;
        fresh = b.fresh;
        later = IsLater-trans host s p q (next q).1 a.later b.later;
        opened = joined s l port ports p q (next q) a.later.grows b.later a.opened b.opened;
      }

  pub open_ports-IsOpened :
      (s ip : String) (ns ips : List String) (ports : List ServicePort) (p : KubeProxy T)
      → IsFresh host p
      → IsRouted host doc p
      → IsOpened host doc s (endpoints ns ips) ports p (open_ports host s ip ns ips ports p)
  unfolding open_ports
  open_ports-IsOpened s ip ns ips [] p fresh h = record {
    routed = h;
    fresh = fresh;
    later = record { grows = omega arith; older = λ j n. refl; names = λ t n. refl; ips = refl };
    opened = inr ([], append_nil _, refl, tt);
  }
  open_ports-IsOpened s ip ns ips (port ∷ ports) p fresh h =
      ports_step s (endpoints ns ips) port ports p (open_ports host s ip ns ips ports)
        (open_port host s ip ns ips port p)
        (open_port-IsOpened host distinct doc s ip ns ips port p fresh h)
        (open_ports-IsOpened s ip ns ips ports)

  -- The outcome of a request for the service `s`.
  pub record IsCreated (s ip : String) (l : List (String × String)) (ports : List ServicePort)
      (p : KubeProxy T) (r : Result (Unit {0}) × KubeProxy T) : Type 0 where
    pub routed : IsRouted host doc r.1
    pub fresh : IsFresh host r.1
    pub created :
        ((is_ok r.0 ≡ false)
          × (r.1.service_meta.service_to_cluster_ip ≡ p.service_meta.service_to_cluster_ip))
        ⊎ ((is_ok r.0 ≡ true)
            × (r.1.service_meta.service_to_cluster_ip
                ≡ insert s ip p.service_meta.service_to_cluster_ip)
            × ((cs : List ServiceChain) × (get_service_chains s r.1.service_meta
                  ≡ get_service_chains s p.service_meta ++ cs)
                × (map (port_of host) cs ≡ ports)
                × All (Serves host p.drawn l r.1) cs))

  -- The address is in no part of the metadata that has chains.
  address-IsRouted :
      (s ip : String) (q : KubeProxy T)
      → IsRouted host doc q
      → IsRouted host doc (update (add_service_cluster_ip s ip) q)
  unfolding add_service_cluster_ip get_pod_chains get_service_chains
  address-IsRouted s ip q h = record {
    routed = h.routed;
    pods_named = h.pods_named;
    services_named = h.services_named;
  }

  request_end :
      (s ip : String) (l : List (String × String)) (ports : List ServicePort) (p : KubeProxy T)
      (r : Result (Unit {0}) × KubeProxy T)
      → IsOpened host doc s l ports p r
      → IsCreated s ip l ports p (continue (λ _. modify (update (add_service_cluster_ip s ip))) r)
  unfolding add_service_cluster_ip get_pod_chains get_service_chains
  request_end s ip l ports p (err e, q) a = record {
    routed = a.routed;
    fresh = a.fresh;
    created = inl (refl, a.later.ips);
  }
  request_end s ip l ports p (ok u, q) a = record {
    routed = address-IsRouted s ip q a.routed;
    fresh = a.fresh;
    created = elim a.opened [
      | inl bad ↦ cc
      | inr served ↦ inr (refl, ap (insert s ip) a.later.ips, served)
    ];
  }

  -- While identifiers are distinct and those to come are unused, a request for a service either
  -- fails, and then the set of services and their addresses is as before, or the service has its
  -- address and for each of its ports, in order, one more chain that serves exactly the pods of
  -- the request, in order. Either way the rules of all service chains are those of the metadata,
  -- and the identifiers to come are unused. A service that exists is refused.
  pub create_service-IsCreated :
      (s ip : String) (ports : List ServicePort) (ns ips : List String) (p : KubeProxy T)
      → IsFresh host p
      → IsRouted host doc p
      → IsCreated s ip (endpoints ns ips) ports p (create_service host s ip ports ns ips p)
        × ((service_exists s p.service_meta ≡ false)
            ⊎ (create_service host s ip ports ns ips p ≡ (err (Error.service_exists s), p)))
  unfolding create_service
  create_service-IsCreated s ip ports ns ips p fresh h =
      elim (Bool-cases (service_exists s p.service_meta)) [
        | inl known ↦
            rw known (record { routed = h; fresh = fresh; created = inl (refl, refl) }, inr refl)
        | inr unknown ↦ rw unknown (
          request_end s ip (endpoints ns ips) ports p (open_ports host s ip ns ips ports p)
              (open_ports-IsOpened s ip ns ips ports p fresh h),
          inl refl,
        )
      ]
