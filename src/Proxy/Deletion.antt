-- ===== src/Proxy/Deletion.antt =====
-- What DeleteService of pkg/kubelet/kube_proxy.go makes of the metadata, whatever iptables says.
pub mod Traces
pub mod RoundTrip
use kuberboat.Prelude.{
  ℕ, suc, ◌+◌, String, Bool, true, false, not, ◌==◌, string_eq, ==_iff, ==_refl, Bool-cases, inl,
  inr, if◌then◌else◌, List, [], ◌∷◌, All, All-map, ◌≡◌, ◌⊎◌, refl, sym, subst, ap, ◌∙◌, arith,
  delete, lookup, lookup-delete, contains, contains-delete, Option, none, some,
}
use kuberboat.Exec.{Error, no_such_service, Result, ok, err, Exec, pure, continue, ◌>>=◌, ◌>>◌}
use kuberboat.Proxy.Names.{services, Chain, chain_eq}
use kuberboat.Proxy.Meta.{
  ServiceManager, PodChain, ServiceChain, get_cluster_ip, get_pod_chains, get_service_chains,
  delete_pod_chains, delete_service_chains, delete_service_cluster_ip, service_exists, or_nil,
}
use kuberboat.Proxy.Iptables.{nat_table, is_ok}
use kuberboat.Proxy.Client.{
  Host, KubeProxy, on_table, service_rule, delete_pod_chain, delete_service_chain,
}
use kuberboat.Proxy.Services.{
  update, delete_pod_chains_of, close_port, close_ports, withdraw, delete_service,
}
use kuberboat.Exec.Keeps.{Leads, Keeps, Keeps-then}
use kuberboat.Proxy.Creation.{Same, on_table-Same}
use kuberboat.Proxy.Routing.Effects.{IsNow, continue_ok}

-- The metadata without the pods of the chains.
unfoldable pub close_all : List ServiceChain → ServiceManager → ServiceManager
close_all [] m = m
close_all (c ∷ cs) m = close_all cs (delete_pod_chains c.chain_name m)

-- The metadata without the service.
unfoldable pub without_service : String → ServiceManager → ServiceManager
unfolding close_all
without_service s m =
    delete_service_cluster_ip s (delete_service_chains s (close_all (get_service_chains s m) m))

module _ {T : Type 0} (host : Host T) where
  delete_pod_chains_of_lem :
      (ps : List PodChain) (p : KubeProxy T)
      → IsNow host p.service_meta (delete_pod_chains_of host ps p)
  unfolding delete_pod_chains_of delete_pod_chain
  delete_pod_chains_of_lem [] p = (refl, refl)
  delete_pod_chains_of_lem (q ∷ ps) p = delete_pod_chains_of_lem ps _

  -- The chain itself: an error of either call is only logged.
  unlinked : String → String → ServiceChain → KubeProxy T → KubeProxy T
  unlinked s ip c p = (delete_service_chain host s ip c.chain_name c.service_port.port p).1

  delete_service_chain-Same :
      (m : ServiceManager) (d : ℕ) (s ip : String) (c : Chain) (port : ℕ)
      → Keeps (Same host m d) (delete_service_chain host s ip c port)
  unfolding delete_service_chain
  delete_service_chain-Same m d s ip c port =
      Keeps-then
        (on_table
          (host.client.iptables.delete_if_exists nat_table services (service_rule s ip c port)))
        (on_table (host.client.iptables.clear_and_delete_chain nat_table c))
        (on_table-Same host m d _) (on_table-Same host m d _)

  unlinked_same :
      (s ip : String) (c : ServiceChain) (p : KubeProxy T)
      → (unlinked s ip c p).service_meta ≡ p.service_meta
  unfolding unlinked
  unlinked_same s ip c p =
      ((delete_service_chain-Same p.service_meta p.drawn s ip c.chain_name c.service_port.port).at p
        (refl, refl)).0

  close_port_lem :
      (s ip : String) (c : ServiceChain) (p : KubeProxy T)
      → IsNow host (delete_pod_chains c.chain_name p.service_meta) (close_port host s ip c p)
  unfolding close_port unlinked
  close_port_lem s ip c p =
      let q : KubeProxy T = unlinked s ip c p in
      let ps : List PodChain = get_pod_chains c.chain_name q.service_meta in
      let k : IsNow host q.service_meta (delete_pod_chains_of host ps q) =
        delete_pod_chains_of_lem ps q in
      continue_ok (IsNow host (delete_pod_chains c.chain_name p.service_meta))
        (λ u r. (ok tt, update (delete_pod_chains c.chain_name) r)) (delete_pod_chains_of host ps q)
        k.0 (λ u. (refl, ap (delete_pod_chains c.chain_name) (k.1 ∙ unlinked_same s ip c p)))

  close_ports_lem :
      (s ip : String) (cs : List ServiceChain) (p : KubeProxy T)
      → IsNow host (close_all cs p.service_meta) (close_ports host s ip cs p)
  unfolding close_ports close_all
  close_ports_lem s ip [] p = (refl, refl)
  close_ports_lem s ip (c ∷ cs) p =
      let k : IsNow host (delete_pod_chains c.chain_name p.service_meta)
          (close_port host s ip c p) =
        close_port_lem s ip c p in
      continue_ok (IsNow host (close_all cs (delete_pod_chains c.chain_name p.service_meta)))
        (λ u. close_ports host s ip cs) (close_port host s ip c p) k.0
        (λ u.
          subst
            (λ m.
              IsNow host (close_all cs m) (close_ports host s ip cs (close_port host s ip c p).1))
            k.1 (close_ports_lem s ip cs (close_port host s ip c p).1))

  -- A service that exists goes without an error, and of the metadata only what is its own.
  pub delete_service_lem :
      (s : String) (p : KubeProxy T)
      → service_exists s p.service_meta ≡ true
      → IsNow host (without_service s p.service_meta) (delete_service host s p)
  unfolding delete_service withdraw without_service
  delete_service_lem s p known = rw known (
      let ip : String = get_cluster_ip s p.service_meta in
      let cs : List ServiceChain = get_service_chains s p.service_meta in
      let k : IsNow host (close_all cs p.service_meta) (close_ports host s ip cs p) =
        close_ports_lem s ip cs p in
      continue_ok
        (IsNow host
          (delete_service_cluster_ip s (delete_service_chains s (close_all cs p.service_meta))))
        (λ u r. (ok tt, update (delete_service_cluster_ip s) (update (delete_service_chains s) r)))
        (close_ports host s ip cs p) k.0
        (λ u. (refl, ap (λ m. delete_service_cluster_ip s (delete_service_chains s m)) k.1)))
