-- ===== src/Proxy/Membership.antt =====
-- AddPodToServices and DeletePodFromServices of pkg/kubelet/kube_proxy.go.
use kuberboat.Prelude.{
  ℕ, ◌+◌, String, not, ◌==◌, string_eq, if◌then◌else◌, List, [], ◌∷◌, ◌++◌, length,
}
use kuberboat.Exec.{
  no_such_services, Result, ok, err, Exec, pure, raise, gets, modify, ◌>>=◌, ◌>>◌, log_error, try,
}
use kuberboat.Proxy.Names.{Chain}
use kuberboat.Proxy.Meta.{
  PodChain, ServiceChain, get_service_chains, get_pod_chains, delete_pod_chain_from_service_chain,
  service_exists as knows,
}
use kuberboat.Proxy.Client.{Host, KubeProxy, apply_pod_chain, delete_pod_chain, clear_service_chain}
use kuberboat.Proxy.Services.{update, link_pod}

module _ {T : Type 0} (host : Host T) where
  -- `err` has the result of the last call: a later success takes an error away.
  unfoldable pub add_to_chains :
      String
      → String
      → List ServiceChain
      → Result (Unit {0})
      → Exec (KubeProxy T) (Result (Unit {0}))
  unfolding get_pod_chains link_pod
  add_to_chains pod_name pod_ip [] e = pure e
  add_to_chains pod_name pod_ip (c ∷ cs) e = do
    ps ← gets (λ p. get_pod_chains c.chain_name p.service_meta)
    r ← try (link_pod host c.chain_name c.service_port.target_port pod_name pod_ip (length ps + 1))
    add_to_chains pod_name pod_ip cs r

  -- A service that exists.
  unfoldable pub add_to_known :
      String
      → String
      → String
      → Result (Unit {0})
      → List String
      → Exec (KubeProxy T) (Result (Unit {0}) × List String)
  unfolding get_service_chains add_to_chains
  add_to_known pod_name pod_ip s e missing = do
    cs ← gets (λ p. get_service_chains s p.service_meta)
    r ← add_to_chains pod_name pod_ip cs e
    pure (r, missing)

  -- For one service: the error so far, and the names that are not known.
  unfoldable pub add_to_service :
      String
      → String
      → String
      → Result (Unit {0})
      → List String
      → Exec (KubeProxy T) (Result (Unit {0}) × List String)
  unfolding knows add_to_known
  add_to_service pod_name pod_ip s e missing = do
    exists ← gets (λ p. knows s p.service_meta)
    if not exists then pure (e, missing ++ s ∷ []) else add_to_known pod_name pod_ip s e missing

  unfoldable pub add_to_each :
      String
      → String
      → List String
      → Result (Unit {0})
      → List String
      → Exec (KubeProxy T) (Result (Unit {0}) × List String)
  unfolding add_to_service
  add_to_each pod_name pod_ip [] e missing = pure (e, missing)
  add_to_each pod_name pod_ip (s ∷ ss) e missing =
      add_to_service pod_name pod_ip s e missing >>= λ r. add_to_each pod_name pod_ip ss r.0 r.1

  -- `return err` of a value.
  unfoldable pub give_back : Result (Unit {0}) → Exec (KubeProxy T) (Unit {0})
  give_back (ok u) = pure tt
  give_back (err e) = raise e

  -- Missing services take the place of any other error.
  unfoldable pub conclude : Result (Unit {0}) → List String → Exec (KubeProxy T) (Unit {0})
  unfolding give_back
  conclude e [] = give_back e
  conclude e (s ∷ ss) = raise (no_such_services (s ∷ ss))

  unfoldable pub add_pod_to_services : List String → String → String → Exec (KubeProxy T) (Unit {0})
  unfolding add_to_each conclude
  add_pod_to_services ss pod_name pod_ip =
      add_to_each pod_name pod_ip ss (ok tt) [] >>= λ r. conclude r.0 r.1

  -- One chain of the loop: the counter of the round robin and the error so far.
  unfoldable pub rewrite_pod :
      Chain → String → PodChain → ℕ → Result (Unit {0}) → Exec (KubeProxy T) (ℕ × Result (Unit {0}))
  unfolding delete_pod_chain apply_pod_chain
  rewrite_pod c n p round e =
      if p.pod_name == n
      then (do log_error (delete_pod_chain host p.chain_name); pure (round, e))
      else (do
        r ← try (apply_pod_chain host c p.pod_name p.chain_name (round + 1))
        pure (round + 1, r))

  unfoldable pub rewrite_pods :
      Chain
      → String
      → List PodChain
      → ℕ
      → Result (Unit {0})
      → Exec (KubeProxy T) (Result (Unit {0}))
  unfolding rewrite_pod
  rewrite_pods c n [] round e = pure e
  rewrite_pods c n (p ∷ ps) round e = rewrite_pod c n p round e >>= λ r. rewrite_pods c n ps r.0 r.1

  unfoldable pub delete_from_chain :
      String → ServiceChain → Result (Unit {0}) → Exec (KubeProxy T) (Result (Unit {0}))
  unfolding clear_service_chain get_pod_chains rewrite_pods delete_pod_chain_from_service_chain
  delete_from_chain n c e = do
    log_error (clear_service_chain host c.chain_name)
    ps ← gets (λ p. get_pod_chains c.chain_name p.service_meta)
    r ← rewrite_pods c.chain_name n ps 0 e
    modify (update (delete_pod_chain_from_service_chain n c.chain_name))
    pure r

  unfoldable pub delete_from_chains :
      String → List ServiceChain → Result (Unit {0}) → Exec (KubeProxy T) (Result (Unit {0}))
  unfolding delete_from_chain
  delete_from_chains n [] e = pure e
  delete_from_chains n (c ∷ cs) e = delete_from_chain n c e >>= delete_from_chains n cs

  -- A service that exists.
  unfoldable pub delete_from_known :
      String
      → String
      → Result (Unit {0})
      → List String
      → Exec (KubeProxy T) (Result (Unit {0}) × List String)
  unfolding get_service_chains delete_from_chains
  delete_from_known n s e missing = do
    cs ← gets (λ p. get_service_chains s p.service_meta)
    r ← delete_from_chains n cs e
    pure (r, missing)

  unfoldable pub delete_from_service :
      String
      → String
      → Result (Unit {0})
      → List String
      → Exec (KubeProxy T) (Result (Unit {0}) × List String)
  unfolding knows delete_from_known
  delete_from_service n s e missing = do
    exists ← gets (λ p. knows s p.service_meta)
    if not exists then pure (e, missing ++ s ∷ []) else delete_from_known n s e missing

  unfoldable pub delete_from_each :
      String
      → List String
      → Result (Unit {0})
      → List String
      → Exec (KubeProxy T) (Result (Unit {0}) × List String)
  unfolding delete_from_service
  delete_from_each n [] e missing = pure (e, missing)
  delete_from_each n (s ∷ ss) e missing =
      delete_from_service n s e missing >>= λ r. delete_from_each n ss r.0 r.1

  unfoldable pub delete_pod_from_services : List String → String → Exec (KubeProxy T) (Unit {0})
  unfolding delete_from_each conclude
  delete_pod_from_services ss n = delete_from_each n ss (ok tt) [] >>= λ r. conclude r.0 r.1
