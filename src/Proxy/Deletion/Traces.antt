-- ===== src/Proxy/Deletion/Traces.antt =====
-- What is left of a service that is deleted, and of one that was created just before.
use kuberboat.Prelude.{
  String, true, false, ◌==◌, string_eq, ==_iff, ==_refl, if◌then◌else◌, List, [], ◌∷◌, All, All-map,
  ◌≡◌, refl, ap, ◌∙◌, arith, lookup, lookup-delete, none,
}
use kuberboat.Proxy.Names.{Chain, chain_eq}
use kuberboat.Proxy.Meta.{
  ServiceManager, ServiceChain, get_pod_chains, get_service_chains, delete_pod_chains,
  delete_service_chains, delete_service_cluster_ip, service_exists,
}
use kuberboat.Proxy.Iptables.{is_ok}
use kuberboat.Proxy.Client.{Host, KubeProxy}
use kuberboat.Proxy.Services.{delete_service}
use kuberboat.Proxy.Deletion.{close_all, without_service, delete_service_lem}

get_pod_chains-delete_pod_chains :
    (c d : Chain) (m : ServiceManager)
    → get_pod_chains d (delete_pod_chains c m) ≡ (if c == d then [] else get_pod_chains d m)
unfolding get_pod_chains delete_pod_chains
get_pod_chains-delete_pod_chains c d m = ground (arith, lookup-delete c d m.pod_chains)

stays_empty :
    (cs : List ServiceChain) (d : Chain) (m : ServiceManager)
    → get_pod_chains d m ≡ []
    → get_pod_chains d (close_all cs m) ≡ []
unfolding close_all
stays_empty [] d m h = h
stays_empty (c ∷ cs) d m h =
    stays_empty cs d (delete_pod_chains c.chain_name m)
      (ground (arith, get_pod_chains-delete_pod_chains c.chain_name d m, ==_iff c.chain_name d))

pub close_all-empty :
    (cs : List ServiceChain) (m : ServiceManager)
    → All (λ c. get_pod_chains c.chain_name (close_all cs m) ≡ []) cs
unfolding close_all
close_all-empty [] m = tt
close_all-empty (c ∷ cs) m = (
  stays_empty cs c.chain_name (delete_pod_chains c.chain_name m) (
      rw (get_pod_chains-delete_pod_chains c.chain_name c.chain_name m, ==_refl c.chain_name) refl),
  close_all-empty cs (delete_pod_chains c.chain_name m),
)

pub untouched :
    (cs : List ServiceChain) (d : Chain) (m : ServiceManager)
    → All (λ c. (c.chain_name == d) ≡ false) cs
    → get_pod_chains d (close_all cs m) ≡ get_pod_chains d m
unfolding close_all
untouched [] d m h = refl
untouched (c ∷ cs) d m h =
    untouched cs d (delete_pod_chains c.chain_name m) h.1
    ∙ rw (get_pod_chains-delete_pod_chains c.chain_name d m, h.0) refl

same_names :
    (cs : List ServiceChain) (m : ServiceManager)
    → ((close_all cs m).service_chains ≡ m.service_chains)
      × ((close_all cs m).service_to_cluster_ip ≡ m.service_to_cluster_ip)
unfolding close_all delete_pod_chains
same_names [] m = (refl, refl)
same_names (c ∷ cs) m = same_names cs (delete_pod_chains c.chain_name m)

-- The metadata without a service, part by part.
pub address_without :
    (s t : String) (m : ServiceManager)
    → lookup t (without_service s m).service_to_cluster_ip
      ≡ (if s == t then none else lookup t m.service_to_cluster_ip)
unfolding without_service delete_service_cluster_ip delete_service_chains
address_without s t m =
    lookup-delete s t (close_all (get_service_chains s m) m).service_to_cluster_ip
    ∙ ap (λ x. if s == t then none else lookup t x) (same_names (get_service_chains s m) m).1

pub chains_without :
    (s t : String) (m : ServiceManager)
    → get_service_chains t (without_service s m) ≡ (if s == t then [] else get_service_chains t m)
unfolding without_service delete_service_cluster_ip delete_service_chains get_service_chains
chains_without s t m = ground (
  arith,
  lookup-delete s t (close_all (get_service_chains s m) m).service_chains,
  same_names (get_service_chains s m) m,
)

pub pods_without :
    (s : String) (d : Chain) (m : ServiceManager)
    → get_pod_chains d (without_service s m)
      ≡ get_pod_chains d (close_all (get_service_chains s m) m)
unfolding without_service delete_service_cluster_ip delete_service_chains get_pod_chains
pods_without s d m = refl

module _ {T : Type 0} (host : Host T) where
  -- The deletion of a service that exists succeeds, whatever calls of iptables fail. The service
  -- is then unknown, without an address and without chains, its chains have no pods left, and
  -- every other service has the address and the chains that it had.
  pub delete_service-IsDeleted :
      (s t : String) (p : KubeProxy T)
      → service_exists s p.service_meta ≡ true
      → (is_ok (delete_service host s p).0 ≡ true)
        × (lookup t (delete_service host s p).1.service_meta.service_to_cluster_ip
            ≡ (if s == t then none else lookup t p.service_meta.service_to_cluster_ip))
        × (get_service_chains t (delete_service host s p).1.service_meta
            ≡ (if s == t then [] else get_service_chains t p.service_meta))
        × All
            (λ c. get_pod_chains c.chain_name (delete_service host s p).1.service_meta ≡ [])
            (get_service_chains s p.service_meta)
  delete_service-IsDeleted s t p known = rw ((delete_service_lem host s p known).1) (
    (delete_service_lem host s p known).0,
    address_without s t p.service_meta,
    chains_without s t p.service_meta,
    All-map _ _ (get_service_chains s p.service_meta)
        (λ c e. pods_without s c.chain_name p.service_meta ∙ e)
        (close_all-empty (get_service_chains s p.service_meta) p.service_meta),
  )
