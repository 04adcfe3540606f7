-- ===== src/Proxy/Creation/Opening.antt =====
-- `open_ports`, port by port.
use kuberboat.Prelude.{
  false, ◌==◌, ℕ, suc, ◌≤◌, String, string_eq, ==_refl, List, [], ◌∷◌, ◌++◌, map, length, ◌≡◌, ◌≢◌,
  inl, inr, refl, sym, ap, ◌∙◌, arith, lookup,
}
use kuberboat.Core.{ServicePort}
use kuberboat.Exec.{Result, ok, err, continue}
use kuberboat.Proxy.Names.{Chain, chain_eq, service_chain}
use kuberboat.Proxy.Meta.{
  ServiceChain, get_pod_chains, get_service_chains, add_service_chain, or_nil,
}
use kuberboat.Proxy.Iptables.{Documented}
use kuberboat.Proxy.Client.{Host, KubeProxy, draw_id, create_service_chain}
use kuberboat.Proxy.Services.{link_pods, open_port}
use kuberboat.Proxy.Routing.{IsRouted}
use kuberboat.Proxy.Creation.Outcomes.{
  endpoint, endpoints, pods_at, IsFrame, IsServing, link_pods-IsServing,
}
use kuberboat.Proxy.Creation.Ports.{
  get_service_chains-add_service_chain, IsFresh, Serves, IsLater, IsOpened, started,
  started-IsRouted, registered, registered-IsRouted, registered_lem, same_pods,
}

module _ {T : Type 0} (host : Host T) (distinct : (a b : ℕ) → host.id a ≡ host.id b → a ≡ b)
    (doc : Documented host.client.iptables) where
  -- The pods behind the port are linked, and the port is registered.
  module _ (s ip : String) (port : ServicePort) (p q : KubeProxy T) (fresh : IsFresh host p)
      (frame : IsFrame host p.drawn (started host doc p) q) where
    abbrev chain_name : Chain
    chain_name = service_chain (host.id p.drawn)

    abbrev entry : ServiceChain
    entry = record { chain_name = chain_name; service_port = port }

    abbrev ended : KubeProxy T
    ended = registered host doc s ip chain_name port q

    abbrev metadata :
        (ended.service_meta ≡ add_service_chain s entry q.service_meta) × (ended.drawn ≡ q.drawn)
    metadata = registered_lem host doc s ip chain_name port q

    more : suc p.drawn ≤ q.drawn
    unfolding started
    more = frame.grows

    ended_pods : (j : ℕ) → pods_at host j ended ≡ pods_at host j q
    ended_pods j =
        ap (get_pod_chains (service_chain (host.id j))) metadata.0
        ∙ sym (same_pods host doc s entry q.service_meta (host.id j))

    others : (j : ℕ) → j ≢ p.drawn → pods_at host j q ≡ pods_at host j p
    unfolding started
    others j n = frame.others j n

    q-IsLater : IsLater host s p q
    unfolding started get_service_chains
    q-IsLater = record {
      grows = omega (arith, more);
      older = λ j n. others j (λ e. omega (arith, e));
      names = λ t n. ap (λ x. or_nil (lookup t x)) frame.chains;
      ips = frame.ips;
    }

    other_chains :
        (t : String)
        → (s == t) ≡ false
        → get_service_chains t ended.service_meta ≡ get_service_chains t q.service_meta
    other_chains t n =
        rw (metadata.0, get_service_chains-add_service_chain s t entry q.service_meta, n) refl

    ended-IsLater : IsLater host s p ended
    unfolding add_service_chain
    ended-IsLater = record {
      grows = omega (arith, more, metadata.1);
      older = λ j n. ended_pods j ∙ q-IsLater.older j n;
      names = λ t n. other_chains t n ∙ q-IsLater.names t n;
      ips = ap (λ m. m.service_to_cluster_ip) metadata.0 ∙ q-IsLater.ips;
    }

    q-IsFresh : IsFresh host q
    q-IsFresh j n = others j (λ e. omega (arith, e, more)) ∙ fresh j (omega (arith, more))

    ended-IsFresh : IsFresh host ended
    ended-IsFresh j n = ended_pods j ∙ q-IsFresh j (omega (arith, metadata.1))

    ended_chains :
        get_service_chains s ended.service_meta ≡ get_service_chains s p.service_meta ++ entry ∷ []
    unfolding get_service_chains started
    ended_chains =
        rw (metadata.0, get_service_chains-add_service_chain s s entry q.service_meta, ==_refl s)
          (ap (λ x. or_nil (lookup s x) ++ entry ∷ []) frame.chains)

    ended-Serves :
        (l : List (String × String))
        → map endpoint (pods_at host p.drawn q)
          ≡ map endpoint (pods_at host p.drawn (started host doc p)) ++ l
        → Serves host p.drawn l ended entry
    unfolding started
    ended-Serves l h = (
      p.drawn,
      omega arith,
      omega (arith, more, metadata.1),
      refl,
      ap (map endpoint) (ended_pods p.drawn)
          ∙ h
          ∙ ap (λ x. map endpoint x ++ l) (fresh p.drawn (omega arith)),
    )

  -- The end of a port, by the outcome of its pods.
  port_end :
      (s ip : String) (l : List (String × String)) (port : ServicePort) (p : KubeProxy T)
      (r : Result (Unit {0}) × KubeProxy T)
      → IsFresh host p
      → IsServing host distinct doc p.drawn l (started host doc p) r
      → IsOpened host doc s l (port ∷ []) p (
          continue
            (λ _ q. (ok tt, registered host doc s ip (service_chain (host.id p.drawn)) port q))
            r)
  port_end s ip l port p (ok u, q) fresh (routed, frame, inr pods) = record {
    routed = registered-IsRouted host doc s ip p.drawn port q routed;
    fresh = ended-IsFresh s ip port p q fresh frame;
    later = ended-IsLater s ip port p q fresh frame;
    opened = inr (
      entry s ip port p q fresh frame ∷ [],
      ended_chains s ip port p q fresh frame,
      refl,
      (ended-Serves s ip port p q fresh frame l pods, tt),
    );
  }
  port_end s ip l port p (ok u, q) fresh (routed, frame, inl bad) = cc
  port_end s ip l port p (err e, q) fresh (routed, frame, o) = record {
    routed = routed;
    fresh = q-IsFresh s ip port p q fresh frame;
    later = q-IsLater s ip port p q fresh frame;
    opened = inl refl;
  }

  pub open_port-IsOpened :
      (s ip : String) (ns ips : List String) (port : ServicePort) (p : KubeProxy T)
      → IsFresh host p
      → IsRouted host doc p
      → IsOpened host doc s (endpoints ns ips) (port ∷ []) p (open_port host s ip ns ips port p)
  unfolding open_port create_service_chain draw_id started registered
  open_port-IsOpened s ip ns ips port p fresh h =
      port_end s ip (endpoints ns ips) port p
        (link_pods host (service_chain (host.id p.drawn)) port.target_port 0 ns ips
          (started host doc p))
        fresh
        (link_pods-IsServing host distinct doc p.drawn port.target_port 0 ns ips
          (started host doc p) (ap length (fresh p.drawn (omega arith)))
          (started-IsRouted host doc p h))
