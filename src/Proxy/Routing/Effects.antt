-- ===== src/Proxy/Routing/Effects.antt =====
-- What DeletePodFromServices makes of the metadata, whatever iptables says.
use kuberboat.Prelude.{
  String, true, string_eq, Bool-cases, inl, inr, if◌then◌else◌, List, [], ◌∷◌, ◌≡◌, refl, subst, ap,
  ◌∙◌,
}
use kuberboat.Exec.{Result, ok, err, Exec, pure, continue}
use kuberboat.Proxy.Names.{chain_eq}
use kuberboat.Proxy.Meta.{
  ServiceManager, PodChain, ServiceChain, get_pod_chains, get_service_chains,
  delete_pod_chain_from_service_chain, service_exists,
}
use kuberboat.Proxy.Iptables.{nat_table, is_ok}
use kuberboat.Proxy.Client.{Host, KubeProxy, clear_service_chain}
use kuberboat.Proxy.Services.{update}
use kuberboat.Proxy.Membership.{
  rewrite_pods, delete_from_chain, delete_from_chains, delete_from_known, delete_from_service,
  delete_from_each, delete_pod_from_services, conclude, give_back,
}
use kuberboat.Proxy.Routing.Rewriting.{rewrite_pods-Kept}

-- The metadata without the pod: in the chains, in those of a known service, in those of each.
unfoldable pub drop_chains : String → List ServiceChain → ServiceManager → ServiceManager
drop_chains n [] m = m
drop_chains n (c ∷ cs) m = drop_chains n cs (delete_pod_chain_from_service_chain n c.chain_name m)

unfoldable pub drop_service : String → String → ServiceManager → ServiceManager
unfolding drop_chains
drop_service n s m = if service_exists s m then drop_chains n (get_service_chains s m) m else m

unfoldable pub drop_services : String → List String → ServiceManager → ServiceManager
unfolding drop_service
drop_services n [] m = m
drop_services n (s ∷ ss) m = drop_services n ss (drop_service n s m)

-- The way on from a part that returns.
pub continue_ok :
    {S A B : Type 0} (P : Result B × S → Type 0) (f : A → Exec S B) (r : Result A × S)
    → is_ok r.0 ≡ true
    → ((a : A) → P (f a r.1))
    → P (continue f r)
continue_ok P f (ok a, s) h next = next a
continue_ok P f (err e, s) h next = cc

module _ {T : Type 0} (host : Host T) where
  -- The method returns, with this metadata.
  abbrev pub IsNow : {A : Type 0} → ServiceManager → Result A × KubeProxy T → Type 0
  IsNow m r = (is_ok r.0 ≡ true) × (r.1.service_meta ≡ m)

module _ {T : Type 0} (host : Host T) (n : String) where
  delete_from_chain_lem :
      (c : ServiceChain) (e : Result (Unit {0})) (p : KubeProxy T)
      → IsNow host
          (delete_pod_chain_from_service_chain n c.chain_name p.service_meta)
          (delete_from_chain host n c e p)
  unfolding delete_from_chain clear_service_chain
  delete_from_chain_lem c e p =
      let p' : KubeProxy T = record p {
        table = (host.client.iptables.clear_chain nat_table c.chain_name p.table).1;
      } in
      let ps : List PodChain = get_pod_chains c.chain_name p.service_meta in
      let k : IsNow host p.service_meta (rewrite_pods host c.chain_name n ps 0 e p') =
        rewrite_pods-Kept host c.chain_name n ps 0 e p' in
      continue_ok (IsNow host (delete_pod_chain_from_service_chain n c.chain_name p.service_meta))
        (λ r q. (ok r, update (delete_pod_chain_from_service_chain n c.chain_name) q))
        (rewrite_pods host c.chain_name n ps 0 e p') k.0
        (λ r. (refl, ap (delete_pod_chain_from_service_chain n c.chain_name) k.1))

  delete_from_chains_lem :
      (cs : List ServiceChain) (e : Result (Unit {0})) (p : KubeProxy T)
      → IsNow host (drop_chains n cs p.service_meta) (delete_from_chains host n cs e p)
  unfolding delete_from_chains drop_chains
  delete_from_chains_lem [] e p = (refl, refl)
  delete_from_chains_lem (c ∷ cs) e p =
      let k : IsNow host (delete_pod_chain_from_service_chain n c.chain_name p.service_meta)
          (delete_from_chain host n c e p) =
        delete_from_chain_lem c e p in
      continue_ok
        (IsNow host
          (drop_chains n cs (delete_pod_chain_from_service_chain n c.chain_name p.service_meta)))
        (delete_from_chains host n cs) (delete_from_chain host n c e p) k.0
        (λ r.
          subst
            (λ m.
              IsNow host (drop_chains n cs m)
                (delete_from_chains host n cs r (delete_from_chain host n c e p).1))
            k.1 (delete_from_chains_lem cs r (delete_from_chain host n c e p).1))

  delete_from_service_lem :
      (s : String) (e : Result (Unit {0})) (missing : List String) (p : KubeProxy T)
      → IsNow host (drop_service n s p.service_meta) (delete_from_service host n s e missing p)
  unfolding delete_from_service delete_from_known drop_service
  delete_from_service_lem s e missing p = elim (Bool-cases (service_exists s p.service_meta)) [
    | inl known ↦ rw known (
        let k : IsNow host (drop_chains n (get_service_chains s p.service_meta) p.service_meta)
            (delete_from_chains host n (get_service_chains s p.service_meta) e p) =
          delete_from_chains_lem (get_service_chains s p.service_meta) e p in
        continue_ok
          (IsNow host (drop_chains n (get_service_chains s p.service_meta) p.service_meta))
          (λ r. pure (r, missing))
          (delete_from_chains host n (get_service_chains s p.service_meta) e p) k.0
          (λ r. (refl, k.1)))
    | inr unknown ↦ rw unknown (refl, refl)
  ]

  delete_from_each_lem :
      (ss : List String) (e : Result (Unit {0})) (missing : List String) (p : KubeProxy T)
      → IsNow host (drop_services n ss p.service_meta) (delete_from_each host n ss e missing p)
  unfolding delete_from_each drop_services
  delete_from_each_lem [] e missing p = (refl, refl)
  delete_from_each_lem (s ∷ ss) e missing p =
      let k : IsNow host (drop_service n s p.service_meta)
          (delete_from_service host n s e missing p) =
        delete_from_service_lem s e missing p in
      continue_ok (IsNow host (drop_services n ss (drop_service n s p.service_meta)))
        (λ r. delete_from_each host n ss r.0 r.1) (delete_from_service host n s e missing p) k.0
        (λ r.
          subst
            (λ m.
              IsNow host (drop_services n ss m)
                (delete_from_each host n ss r.0 r.1 (delete_from_service host n s e missing p).1))
            k.1 (delete_from_each_lem ss r.0 r.1 (delete_from_service host n s e missing p).1))

  conclude_same :
      (e : Result (Unit {0})) (missing : List String) (p : KubeProxy T)
      → (conclude host e missing p).1.service_meta ≡ p.service_meta
  unfolding conclude give_back
  conclude_same (ok u) [] p = refl
  conclude_same (err e) [] p = refl
  conclude_same e (s ∷ ss) p = refl

  pub delete_pod_from_services_meta :
      (ss : List String) (p : KubeProxy T)
      → (delete_pod_from_services host ss n p).1.service_meta ≡ drop_services n ss p.service_meta
  unfolding delete_pod_from_services
  delete_pod_from_services_meta ss p =
      let k : IsNow host (drop_services n ss p.service_meta)
          (delete_from_each host n ss (ok tt) [] p) =
        delete_from_each_lem ss (ok tt) [] p in
      continue_ok (λ r. r.1.service_meta ≡ drop_services n ss p.service_meta)
        (λ r. conclude host r.0 r.1) (delete_from_each host n ss (ok tt) [] p) k.0
        (λ r. conclude_same r.0 r.1 (delete_from_each host n ss (ok tt) [] p).1 ∙ k.1)
