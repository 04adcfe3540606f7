-- ===== src/Proxy/Client.antt =====
-- pkg/kubelet/proxy/iptables.go, the client: the rules that make up a service.
use kuberboat.Prelude.{ℕ, suc, String, Bool, not, if◌then◌else◌, [], ◌∷◌}
use kuberboat.Exec.{
  Result, ok, err, invalid_ip, iptables_failed, Exec, pure, raise, ◌>>=◌, ◌>>◌, log_error,
}
use kuberboat.PodManager.{MetaManager}
use kuberboat.Proxy.Names.{
  Chain, services, mark_masq, host_mark_masq, service_chain, pod_chain, chain, dnat, jump, protocol,
  match_param, destination, source, comment, mode, destination_port, every, packet, to_destination,
  Rule,
}
use kuberboat.Proxy.Meta.{ServiceManager}
use kuberboat.Proxy.Iptables.{Iptables, nat_table}

-- iptablesClientInner
pub record IptablesClient (T : Type 0) : Type 0 where
  pub host_inet_ip : String
  pub flannel_ip : String
  pub iptables : Iptables T

-- The proxy's client and what it does not control: the identifiers, which are the first eight
-- characters of random UUIDs in capitals, and which texts `net.ParseIP` takes.
pub record Host (T : Type 0) : Type 0 where
  pub client : IptablesClient T
  pub id : ℕ → String
  pub is_ip : String → Bool

-- kubeProxyInner, with the kernel's tables and the number of identifiers drawn.
pub record KubeProxy (T : Type 0) : Type 0 where
  pub pod_meta : MetaManager
  pub service_meta : ServiceManager
  pub table : T
  pub drawn : ℕ

-- The rule of KUBERBOAT-SERVICES for packets to `<cluster_ip>:<port>`.
unfoldable pub service_rule : String → String → Chain → ℕ → Rule
service_rule service_name cluster_ip c port =
    protocol "tcp"
    ∷ destination cluster_ip
    ∷ match_param "tcp"
    ∷ destination_port port
    ∷ match_param "comment"
    ∷ comment service_name
    ∷ jump (chain c)
    ∷ []

-- The rule of a service chain that takes every `num`-th packet to a pod.
unfoldable pub pod_rule : String → Chain → ℕ → Rule
pod_rule pod_name c num =
    match_param "comment"
    ∷ comment pod_name
    ∷ match_param "statistic"
    ∷ mode "nth"
    ∷ every num
    ∷ packet 0
    ∷ jump (chain c)
    ∷ []

unfoldable pub mark_rule : String → Chain → Rule
mark_rule ip c = source ip ∷ jump (chain c) ∷ []

unfoldable pub dnat_rule : String → ℕ → Rule
dnat_rule pod_ip target_port = protocol "tcp" ∷ jump dnat ∷ to_destination pod_ip target_port ∷ []

-- A call of the library; each error of it is wrapped in a text of the client.
abbrev pub wrapped {ℓ} : {A : Type ℓ} → Result A → Result A
wrapped (ok a) = ok a
wrapped (err e) = err iptables_failed

module _ {T : Type 0} where
  abbrev pub on_table {ℓ} : {A : Type ℓ} → Exec T A → Exec (KubeProxy T) A
  on_table m p = let r = m p.table in (wrapped r.0, record p { table = r.1 })

  -- `uuid.New()`
  unfoldable pub draw_id : (ℕ → String) → Exec (KubeProxy T) String
  draw_id id p = (ok (id p.drawn), record p { drawn = suc p.drawn })

module _ {T : Type 0} (host : Host T) where
  unfoldable pub create_service_chain : Exec (KubeProxy T) Chain
  unfolding draw_id
  create_service_chain = do
    id ← draw_id host.id
    log_error (on_table (host.client.iptables.new_chain nat_table (service_chain id)))
    pure (service_chain id)

  unfoldable pub apply_service_chain : String → String → Chain → ℕ → Exec (KubeProxy T) (Unit {0})
  unfolding service_rule
  apply_service_chain service_name cluster_ip c port =
      if not (host.is_ip cluster_ip)
      then raise (invalid_ip cluster_ip)
      else on_table (
          host.client.iptables.insert nat_table services 1
            (service_rule service_name cluster_ip c port))

  unfoldable pub create_pod_chain : Exec (KubeProxy T) Chain
  unfolding draw_id
  create_pod_chain = do
    id ← draw_id host.id
    log_error (on_table (host.client.iptables.new_chain nat_table (pod_chain id)))
    pure (pod_chain id)

  -- Pods of other workers get a mark for packets from this host.
  unfoldable pub mark_host : Chain → Bool → Exec (KubeProxy T) (Unit {0})
  unfolding mark_rule
  mark_host c same_host =
      if not same_host
      then on_table (
          host.client.iptables.append_unique nat_table c
            (mark_rule host.client.host_inet_ip host_mark_masq))
      else pure tt

  unfoldable pub apply_pod_chain_rules : Chain → String → ℕ → Bool → Exec (KubeProxy T) (Unit {0})
  unfolding mark_rule dnat_rule mark_host
  apply_pod_chain_rules c pod_ip target_port same_host =
      if not (host.is_ip pod_ip) then raise (invalid_ip pod_ip) else (do
        on_table (host.client.iptables.append_unique nat_table c (mark_rule pod_ip mark_masq))
        mark_host c same_host
        on_table (host.client.iptables.append_unique nat_table c (dnat_rule pod_ip target_port)))

  unfoldable pub apply_pod_chain : Chain → String → Chain → ℕ → Exec (KubeProxy T) (Unit {0})
  unfolding pod_rule
  apply_pod_chain c pod_name pod num =
      on_table (host.client.iptables.insert nat_table c 1 (pod_rule pod_name pod num))

  unfoldable pub delete_service_chain : String → String → Chain → ℕ → Exec (KubeProxy T) (Unit {0})
  unfolding service_rule
  delete_service_chain service_name cluster_ip c port = do
    on_table (
        host.client.iptables.delete_if_exists nat_table services
          (service_rule service_name cluster_ip c port))
    on_table (host.client.iptables.clear_and_delete_chain nat_table c)

  unfoldable pub delete_pod_chain : Chain → Exec (KubeProxy T) (Unit {0})
  delete_pod_chain c = on_table (host.client.iptables.clear_and_delete_chain nat_table c)

  unfoldable pub clear_service_chain : Chain → Exec (KubeProxy T) (Unit {0})
  clear_service_chain c = on_table (host.client.iptables.clear_chain nat_table c)
