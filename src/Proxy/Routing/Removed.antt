-- ===== src/Proxy/Routing/Removed.antt =====
-- The pods that DeletePodFromServices takes away, and those that it leaves.
use kuberboat.Prelude.{
  ℕ, ◌-◌, ◌≤◌, String, true, string_eq, ==_iff, ==_refl, Bool-cases, inl, inr, List, [], ◌∷◌,
  length, All, All-map, In, ◌≡◌, refl, sym, subst, ◌∙◌, arith,
}
use kuberboat.Proxy.Names.{Chain, chain_eq}
use kuberboat.Proxy.Meta.{
  ServiceManager, PodChain, ServiceChain, get_pod_chains, get_service_chains, without_pod,
  delete_pod_chain_from_service_chain, service_exists,
}
use kuberboat.Proxy.Client.{Host, KubeProxy}
use kuberboat.Proxy.Membership.{delete_pod_from_services}
use kuberboat.Proxy.Routing.Rewriting.{others, others-none, named, IsOnce}
use kuberboat.Proxy.Routing.Removing.{get_pod_chains-delete_pod}
use kuberboat.Proxy.Routing.Effects.{
  drop_chains, drop_service, drop_services, delete_pod_from_services_meta,
}

others-without : (n : String) (l : List PodChain) → others n (without_pod n l) ≡ others n l
unfolding without_pod
others-without n [] = refl
others-without n (q ∷ l) = ground (arith, others-without n l)

-- How many entries of the pod go.
named-without :
    (n : String) (l : List PodChain) → length (named n (without_pod n l)) ≡ length (named n l) - 1
unfolding without_pod
named-without n [] = refl
named-without n (q ∷ l) = ground (arith, named-without n l)

module _ (n : String) where
  abbrev count : Chain → ServiceManager → ℕ
  count d m = length (named n (get_pod_chains d m))

  -- What holds of the pods of one chain after a deletion from another, or from it.
  one_others :
      (c d : Chain) (m : ServiceManager)
      → others n (get_pod_chains d (delete_pod_chain_from_service_chain n c m))
        ≡ others n (get_pod_chains d m)
  one_others c d m =
      ground (
        arith,
        get_pod_chains-delete_pod n c d m,
        ==_iff c d,
        others-without n (get_pod_chains c m),
      )

  one_count :
      (c d : Chain) (m : ServiceManager)
      → count d (delete_pod_chain_from_service_chain n c m) ≤ count d m
  one_count c d m =
      ground
        (arith, get_pod_chains-delete_pod n c d m, ==_iff c d, named-without n (get_pod_chains c m))

  one_gone :
      (c : Chain) (m : ServiceManager)
      → count c m ≤ 1
      → count c (delete_pod_chain_from_service_chain n c m) ≤ 0
  one_gone c m h =
      ground
        (arith, get_pod_chains-delete_pod n c c m, ==_refl c, named-without n (get_pod_chains c m))

  chains_others :
      (cs : List ServiceChain) (d : Chain) (m : ServiceManager)
      → others n (get_pod_chains d (drop_chains n cs m)) ≡ others n (get_pod_chains d m)
  unfolding drop_chains
  chains_others [] d m = refl
  chains_others (c ∷ cs) d m =
      chains_others cs d (delete_pod_chain_from_service_chain n c.chain_name m)
      ∙ one_others c.chain_name d m

  chains_count :
      (cs : List ServiceChain) (d : Chain) (m : ServiceManager)
      → count d (drop_chains n cs m) ≤ count d m
  unfolding drop_chains
  chains_count [] d m = omega arith
  chains_count (c ∷ cs) d m = omega (
    arith,
    chains_count cs d (delete_pod_chain_from_service_chain n c.chain_name m),
    one_count c.chain_name d m,
  )

  chains_gone :
      (cs : List ServiceChain) (m : ServiceManager)
      → ((d : Chain) → count d m ≤ 1)
      → All (λ c. count c.chain_name (drop_chains n cs m) ≤ 0) cs
  unfolding drop_chains
  chains_gone [] m h = tt
  chains_gone (c ∷ cs) m h = (
    omega (
      arith,
      chains_count cs c.chain_name (delete_pod_chain_from_service_chain n c.chain_name m),
      one_gone c.chain_name m (h c.chain_name),
    ),
    chains_gone cs (delete_pod_chain_from_service_chain n c.chain_name m)
        (λ d. omega (arith, one_count c.chain_name d m, h d)),
  )

  -- The services and their chains stay.
  chains_same :
      (cs : List ServiceChain) (s : String) (m : ServiceManager)
      → (service_exists s (drop_chains n cs m) ≡ service_exists s m)
        × (get_service_chains s (drop_chains n cs m) ≡ get_service_chains s m)
  unfolding drop_chains service_exists get_service_chains delete_pod_chain_from_service_chain
  chains_same [] s m = (refl, refl)
  chains_same (c ∷ cs) s m = chains_same cs s (delete_pod_chain_from_service_chain n c.chain_name m)

  service_others :
      (s : String) (d : Chain) (m : ServiceManager)
      → others n (get_pod_chains d (drop_service n s m)) ≡ others n (get_pod_chains d m)
  unfolding drop_service
  service_others s d m =
      ground (arith, chains_others (get_service_chains s m) d m, service_exists s m)

  service_count :
      (s : String) (d : Chain) (m : ServiceManager) → count d (drop_service n s m) ≤ count d m
  unfolding drop_service
  service_count s d m =
      ground (arith, chains_count (get_service_chains s m) d m, service_exists s m)

  service_same :
      (s t : String) (m : ServiceManager)
      → (service_exists t (drop_service n s m) ≡ service_exists t m)
        × (get_service_chains t (drop_service n s m) ≡ get_service_chains t m)
  unfolding drop_service
  service_same s t m = elim (Bool-cases (service_exists s m)) [
    | inl known ↦ rw known (chains_same (get_service_chains s m) t m)
    | inr unknown ↦ rw unknown (refl, refl)
  ]

  services_others :
      (ss : List String) (d : Chain) (m : ServiceManager)
      → others n (get_pod_chains d (drop_services n ss m)) ≡ others n (get_pod_chains d m)
  unfolding drop_services
  services_others [] d m = refl
  services_others (s ∷ ss) d m = services_others ss d (drop_service n s m) ∙ service_others s d m

  services_count :
      (ss : List String) (d : Chain) (m : ServiceManager)
      → count d (drop_services n ss m) ≤ count d m
  unfolding drop_services
  services_count [] d m = omega arith
  services_count (s ∷ ss) d m =
      omega (arith, services_count ss d (drop_service n s m), service_count s d m)

  -- Every chain of a known service of the list loses the pod.
  services_gone :
      (ss : List String) (s : String) (m : ServiceManager)
      → In s ss
      → service_exists s m ≡ true
      → ((d : Chain) → count d m ≤ 1)
      → All (λ c. count c.chain_name (drop_services n ss m) ≤ 0) (get_service_chains s m)
  unfolding drop_services drop_service
  services_gone [] s m i k h = absurd i
  services_gone (t ∷ ss) s m (inl e) k h =
      rw (sym e, k)
        (All-map _ _ (get_service_chains s m)
          (λ c g.
            omega
              (arith, services_count ss c.chain_name (drop_chains n (get_service_chains s m) m), g))
          (chains_gone (get_service_chains s m) m h))
  services_gone (t ∷ ss) s m (inr i) k h =
      subst (All (λ c. count c.chain_name (drop_services n ss (drop_service n t m)) ≤ 0))
        (service_same t s m).1
        (services_gone ss s (drop_service n t m) i ((service_same t s m).0 ∙ k)
          (λ d. omega (arith, service_count t d m, h d)))

-- Where no chain has the pod twice, a request to delete it from services takes it out of every
-- chain of each of them that the proxy has, and leaves all other pods of all chains in their
-- order, whatever calls of iptables fail and whichever services are missing.
pub delete_pod_from_services-removes :
    {T : Type 0} (host : Host T) (n : String) (ss : List String) (s : String) (d : Chain)
    (p : KubeProxy T)
    → ((c : Chain) → IsOnce n (get_pod_chains c p.service_meta))
    → In s ss
    → service_exists s p.service_meta ≡ true
    → All
        (λ c.
          get_pod_chains c.chain_name (delete_pod_from_services host ss n p).1.service_meta
          ≡ others n (get_pod_chains c.chain_name p.service_meta))
        (get_service_chains s p.service_meta)
      × (others n (get_pod_chains d (delete_pod_from_services host ss n p).1.service_meta)
          ≡ others n (get_pod_chains d p.service_meta))
delete_pod_from_services-removes host n ss s d p h i k =
    rw (delete_pod_from_services_meta host n ss p) (
      All-map _ _ (get_service_chains s p.service_meta)
          (λ c g. sym (others-none n _ g) ∙ services_others n ss c.chain_name p.service_meta)
          (services_gone n ss s p.service_meta i k h),
      services_others n ss d p.service_meta,
    )
