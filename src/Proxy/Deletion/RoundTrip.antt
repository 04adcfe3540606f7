-- ===== src/Proxy/Deletion/RoundTrip.antt =====
-- A service that is created and deleted again.
use kuberboat.Prelude.{
  ℕ, ◌<◌, String, true, false, ◌==◌, string_eq, ==_iff, ==_refl, Bool-cases, inl, inr, List, [],
  All, All-map, ◌≡◌, refl, sym, subst, ap, ◌∙◌, arith, lookup, lookup-insert, contains-lookup,
  contains-insert, none,
}
use kuberboat.Core.{ServicePort}
use kuberboat.Exec.{Result, ok, err, continue, modify}
use kuberboat.Proxy.Names.{Chain, chain_eq, service_chain}
use kuberboat.Proxy.Meta.{
  ServiceManager, ServiceChain, get_pod_chains, get_service_chains, add_service_cluster_ip,
  service_exists,
}
use kuberboat.Proxy.Iptables.{Documented, is_ok}
use kuberboat.Proxy.Client.{Host, KubeProxy}
use kuberboat.Proxy.Services.{update, create_service, open_ports, delete_service}
use kuberboat.Proxy.Routing.{IsRouted}
use kuberboat.Proxy.Creation.Outcomes.{pods_at, endpoints, other_chain}
use kuberboat.Proxy.Creation.Ports.{IsFresh, IsOpened, Serves}
use kuberboat.Proxy.Creation.Request.{open_ports-IsOpened}
use kuberboat.Proxy.Deletion.{without_service, delete_service_lem}
use kuberboat.Proxy.Deletion.Traces.{address_without, chains_without, pods_without, untouched}

module _ {T : Type 0} (host : Host T) (distinct : (a b : ℕ) → host.id a ≡ host.id b → a ≡ b)
    (doc : Documented host.client.iptables) where
  -- In `r` the service `t` and the pods of the `k`-th chain are as in `p`.
  abbrev pub IsBack : String → ℕ → KubeProxy T → Result (Unit {0}) × KubeProxy T → Type 0
  IsBack t k p r =
      (is_ok r.0 ≡ true)
      × (lookup t r.1.service_meta.service_to_cluster_ip
          ≡ lookup t p.service_meta.service_to_cluster_ip)
      × (get_service_chains t r.1.service_meta ≡ get_service_chains t p.service_meta)
      × (pods_at host k r.1 ≡ pods_at host k p)

  -- No chain of a new service is an older one.
  newer :
      (l : List (String × String)) (p q : KubeProxy T) (k : ℕ) (cs : List ServiceChain)
      → k < p.drawn
      → All (Serves host p.drawn l q) cs
      → All (λ c. (c.chain_name == service_chain (host.id k)) ≡ false) cs
  newer l p q k cs h =
      All-map _ _ cs
        (λ c v. rw v.3 (other_chain host distinct v.0 k (λ e. omega (arith, e, h, v.1))))

  known_added :
      (s ip : String) (q : KubeProxy T)
      → service_exists s (add_service_cluster_ip s ip q.service_meta) ≡ true
  unfolding service_exists add_service_cluster_ip
  known_added s ip q =
      rw (contains-insert s s ip q.service_meta.service_to_cluster_ip, ==_refl s) refl

  unknown_address :
      (s : String) (p : KubeProxy T)
      → service_exists s p.service_meta ≡ false
      → lookup s p.service_meta.service_to_cluster_ip ≡ none
  unfolding service_exists
  unknown_address s p h = ground (arith, contains-lookup s p.service_meta.service_to_cluster_ip)

  chains_added :
      (s ip t : String) (m : ServiceManager)
      → get_service_chains t (add_service_cluster_ip s ip m) ≡ get_service_chains t m
  unfolding get_service_chains add_service_cluster_ip
  chains_added s ip t m = refl

  pods_added :
      (s ip : String) (d : Chain) (m : ServiceManager)
      → get_pod_chains d (add_service_cluster_ip s ip m) ≡ get_pod_chains d m
  unfolding get_pod_chains add_service_cluster_ip
  pods_added s ip d m = refl

  address_back :
      (s ip t : String) (p : KubeProxy T) (m : ServiceManager)
      → service_exists s p.service_meta ≡ false
      → m.service_to_cluster_ip ≡ p.service_meta.service_to_cluster_ip
      → lookup t (without_service s (add_service_cluster_ip s ip m)).service_to_cluster_ip
        ≡ lookup t p.service_meta.service_to_cluster_ip
  unfolding add_service_cluster_ip
  address_back s ip t p m u same = ground (
    arith,
    address_without s t (add_service_cluster_ip s ip m),
    lookup-insert s t ip m.service_to_cluster_ip,
    ==_iff s t,
    unknown_address s p u,
  )

  chains_back :
      (s ip t : String) (p : KubeProxy T) (m : ServiceManager)
      → get_service_chains s p.service_meta ≡ []
      → ((s == t) ≡ false → get_service_chains t m ≡ get_service_chains t p.service_meta)
      → get_service_chains t (without_service s (add_service_cluster_ip s ip m))
        ≡ get_service_chains t p.service_meta
  chains_back s ip t p m n same =
      rw (chains_without s t (add_service_cluster_ip s ip m)) (elim (Bool-cases (s == t)) [
        | inl hit ↦
            rw hit (sym n ∙ ap (λ x. get_service_chains x p.service_meta) ((==_iff s t).0 hit))
        | inr miss ↦ rw miss (chains_added s ip t m ∙ same miss)
      ])

  pods_back :
      (s ip : String) (k : ℕ) (m : ServiceManager)
      → All (λ c. (c.chain_name == service_chain (host.id k)) ≡ false) (get_service_chains s m)
      → get_pod_chains
          (service_chain (host.id k))
          (without_service s (add_service_cluster_ip s ip m))
        ≡ get_pod_chains (service_chain (host.id k)) m
  pods_back s ip k m new =
      pods_without s (service_chain (host.id k)) (add_service_cluster_ip s ip m)
      ∙ untouched (get_service_chains s (add_service_cluster_ip s ip m)) (service_chain (host.id k))
          (add_service_cluster_ip s ip m) (rw (chains_added s ip s m) new)
      ∙ pods_added s ip (service_chain (host.id k)) m

  -- The chains of the new service are new.
  opened-newer :
      (s : String) (k : ℕ) (l : List (String × String)) (ports : List ServicePort)
      (p q : KubeProxy T)
      → get_service_chains s p.service_meta ≡ []
      → k < p.drawn
      → IsOpened host doc s l ports p (ok tt, q)
      → All
          (λ c. (c.chain_name == service_chain (host.id k)) ≡ false)
          (get_service_chains s q.service_meta)
  opened-newer s k l ports p q n h o = elim o.opened [
    | inl bad ↦ cc
    | inr (cs, e, f, a) ↦ rw (e, n) (newer l p q k cs h a)
  ]

  restored :
      (s ip t : String) (k : ℕ) (l : List (String × String)) (ports : List ServicePort)
      (p : KubeProxy T) (r : Result (Unit {0}) × KubeProxy T)
      → service_exists s p.service_meta ≡ false
      → get_service_chains s p.service_meta ≡ []
      → k < p.drawn
      → IsOpened host doc s l ports p r
      → is_ok (continue (λ _. modify (update (add_service_cluster_ip s ip))) r).0 ≡ true
      → IsBack t k p (
          delete_service host s (continue (λ _. modify (update (add_service_cluster_ip s ip))) r).1)
  restored s ip t k l ports p (err e, q) u n h o d = cc
  restored s ip t k l ports p (ok v, q) u n h o d =
      let z : KubeProxy T = update (add_service_cluster_ip s ip) q in
      let gone : (is_ok (delete_service host s z).0 ≡ true)
          × ((delete_service host s z).1.service_meta ≡ without_service s z.service_meta) =
        delete_service_lem host s z (known_added s ip q) in
      rw gone.1 (
        gone.0,
        address_back s ip t p q.service_meta u o.later.ips,
        chains_back s ip t p q.service_meta n (o.later.names t),
        pods_back s ip k q.service_meta (opened-newer s k l ports p q n h o) ∙ o.later.older k h,
      )

  unknown_create :
      (s ip : String) (ports : List ServicePort) (ns ips : List String) (p : KubeProxy T)
      → service_exists s p.service_meta ≡ false
      → create_service host s ip ports ns ips p
        ≡ continue
            (λ _. modify (update (add_service_cluster_ip s ip)))
            (open_ports host s ip ns ips ports p)
  unfolding create_service
  unknown_create s ip ports ns ips p u = rw u refl

  -- From a state that has no service of the name, no chains of it, and only distinct identifiers,
  -- those to come unused: if a service is created without an error and then deleted, the deletion
  -- returns well, every service has the address and the chains that it had before the creation,
  -- and every chain with an identifier drawn before then has the pods that it had.
  pub delete_service-create_service :
      (s ip t : String) (ports : List ServicePort) (ns ips : List String) (k : ℕ) (p : KubeProxy T)
      → IsFresh host p
      → IsRouted host doc p
      → service_exists s p.service_meta ≡ false
      → get_service_chains s p.service_meta ≡ []
      → k < p.drawn
      → is_ok (create_service host s ip ports ns ips p).0 ≡ true
      → IsBack t k p (delete_service host s (create_service host s ip ports ns ips p).1)
  delete_service-create_service s ip t ports ns ips k p fresh h u n b o =
      rw (unknown_create s ip ports ns ips p u) (
        restored s ip t k (endpoints ns ips) ports p (open_ports host s ip ns ips ports p) u n b
          (open_ports-IsOpened host distinct doc s ip ns ips ports p fresh h)
          (subst (λ r. is_ok r.0 ≡ true) (unknown_create s ip ports ns ips p u) o))
