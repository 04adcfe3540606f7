-- ===== src/Proxy/Services.antt =====
-- pkg/kubelet/kube_proxy.go: the requests of the API server for services and their pods.
use kuberboat.Prelude.{ℕ, ◌+◌, String, Bool, not, string_eq, if◌then◌else◌, List, [], ◌∷◌, is_some}
use kuberboat.Core.{ServicePort}
use kuberboat.Exec.{
  service_exists, no_such_service, panic, Exec, pure, raise, gets, modify, ◌>>=◌, ◌>>◌, log_error,
}
use kuberboat.PodManager.{pod_by_name}
use kuberboat.Proxy.Names.{Chain}
use kuberboat.Proxy.Meta.{
  ServiceManager, PodChain, ServiceChain, add_pod_chain, add_service_chain, add_service_cluster_ip,
  get_cluster_ip, get_service_chains, get_pod_chains, delete_pod_chains, delete_service_chains,
  delete_service_cluster_ip, service_exists as knows,
}
use kuberboat.Proxy.Client.{
  Host, KubeProxy, create_service_chain, apply_service_chain, create_pod_chain,
  apply_pod_chain_rules, apply_pod_chain, delete_service_chain, delete_pod_chain,
}

module _ {T : Type 0} where
  -- A change of the service metadata.
  abbrev pub update : (ServiceManager → ServiceManager) → KubeProxy T → KubeProxy T
  update f p = record p { service_meta = f p.service_meta }

  -- Whether the pod runs on this worker.
  unfoldable pub is_here : String → KubeProxy T → Bool
  unfolding pod_by_name
  is_here n p = is_some (pod_by_name n p.pod_meta)

module _ {T : Type 0} (host : Host T) where
  -- One pod behind one port: the body of the inner loops of CreateService and AddPodToServices.
  unfoldable pub link_pod : Chain → ℕ → String → String → ℕ → Exec (KubeProxy T) (Unit {0})
  unfolding create_pod_chain is_here apply_pod_chain_rules apply_pod_chain add_pod_chain
  link_pod c target_port pod_name pod_ip num = do
    pod ← create_pod_chain host
    exist ← gets (is_here pod_name)
    apply_pod_chain_rules host pod pod_ip target_port exist
    apply_pod_chain host c pod_name pod num
    modify (
        update
          (add_pod_chain c (record { chain_name = pod; pod_name = pod_name; pod_ip = pod_ip })))

  -- `for i := range podNames`; a missing `podIPs[i]` panics.
  unfoldable pub link_pods :
      Chain → ℕ → ℕ → List String → List String → Exec (KubeProxy T) (Unit {0})
  unfolding link_pod
  link_pods c target_port i [] ips = pure tt
  link_pods c target_port i (n ∷ ns) [] = raise panic
  link_pods c target_port i (n ∷ ns) (ip ∷ ips) = do
    link_pod c target_port n ip (i + 1)
    link_pods c target_port (i + 1) ns ips

  -- The error of ApplyServiceChain is dropped.
  unfoldable pub open_port :
      String → String → List String → List String → ServicePort → Exec (KubeProxy T) (Unit {0})
  unfolding create_service_chain link_pods apply_service_chain add_service_chain
  open_port s cluster_ip names ips port = do
    c ← create_service_chain host
    link_pods c port.target_port 0 names ips
    log_error (apply_service_chain host s cluster_ip c port.port)
    modify (update (add_service_chain s (record { chain_name = c; service_port = port })))

  unfoldable pub open_ports :
      String → String → List String → List String → List ServicePort → Exec (KubeProxy T) (Unit {0})
  unfolding open_port
  open_ports s cluster_ip names ips [] = pure tt
  open_ports s cluster_ip names ips (port ∷ ports) = do
    open_port s cluster_ip names ips port
    open_ports s cluster_ip names ips ports

  unfoldable pub create_service :
      String → String → List ServicePort → List String → List String → Exec (KubeProxy T) (Unit {0})
  unfolding open_ports knows add_service_cluster_ip
  create_service s cluster_ip ports names ips = do
    exists ← gets (λ p. knows s p.service_meta)
    if exists then raise (service_exists s) else (do
      open_ports s cluster_ip names ips ports
      modify (update (add_service_cluster_ip s cluster_ip)))

  unfoldable pub delete_pod_chains_of : List PodChain → Exec (KubeProxy T) (Unit {0})
  unfolding delete_pod_chain
  delete_pod_chains_of [] = pure tt
  delete_pod_chains_of (p ∷ ps) = do
    log_error (delete_pod_chain host p.chain_name)
    delete_pod_chains_of ps

  unfoldable pub close_port : String → String → ServiceChain → Exec (KubeProxy T) (Unit {0})
  unfolding delete_service_chain get_pod_chains delete_pod_chains_of delete_pod_chains
  close_port s cluster_ip c = do
    log_error (delete_service_chain host s cluster_ip c.chain_name c.service_port.port)
    ps ← gets (λ p. get_pod_chains c.chain_name p.service_meta)
    delete_pod_chains_of ps
    modify (update (delete_pod_chains c.chain_name))

  unfoldable pub close_ports : String → String → List ServiceChain → Exec (KubeProxy T) (Unit {0})
  unfolding close_port
  close_ports s cluster_ip [] = pure tt
  close_ports s cluster_ip (c ∷ cs) = do close_port s cluster_ip c; close_ports s cluster_ip cs

  -- A service that exists.
  unfoldable pub withdraw : String → Exec (KubeProxy T) (Unit {0})
  unfolding get_cluster_ip get_service_chains close_ports delete_service_chains
      delete_service_cluster_ip
  withdraw s = do
    cluster_ip ← gets (λ p. get_cluster_ip s p.service_meta)
    cs ← gets (λ p. get_service_chains s p.service_meta)
    close_ports s cluster_ip cs
    modify (update (delete_service_chains s))
    modify (update (delete_service_cluster_ip s))

  unfoldable pub delete_service : String → Exec (KubeProxy T) (Unit {0})
  unfolding knows withdraw
  delete_service s = do
    exists ← gets (λ p. knows s p.service_meta)
    if not exists then raise (no_such_service s) else withdraw s
