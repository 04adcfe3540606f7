-- ===== src/Proxy/Setup.antt =====
-- `InitServiceIPTables` of pkg/kubelet/proxy/iptables.go: the chains that all services share.
use kuberboat.Prelude.{Bool, not, if◌then◌else◌, [], ◌∷◌}
use kuberboat.Exec.{Exec, pure, ◌>>=◌, ◌>>◌, log_error}
use kuberboat.Proxy.Names.{
  Chain, prerouting, output, postrouting, services, kuberboat_postrouting, host_postrouting,
  mark_masq, host_mark_masq, chain, snat, masquerade, mark_target, return_target, jump, match_param,
  source, mark, set_xmark, not_matching, random_fully, to_source, Rule,
}
use kuberboat.Proxy.Iptables.{nat_table}
use kuberboat.Proxy.Client.{Host, KubeProxy, on_table}

module _ {T : Type 0} (host : Host T) where
  -- `NewChain`, whose error is dropped.
  make_chain : Chain → Exec (KubeProxy T) (Unit {0})
  make_chain c = log_error (on_table (host.client.iptables.new_chain nat_table c))

  has_rule : Chain → Rule → Exec (KubeProxy T) Bool
  has_rule c r = on_table (host.client.iptables.exists nat_table c r)

  put_first : Chain → Rule → Exec (KubeProxy T) (Unit {0})
  put_first c r = on_table (host.client.iptables.insert nat_table c 1 r)

  unfoldable pub append_rule : Chain → Rule → Exec (KubeProxy T) (Unit {0})
  append_rule c r = on_table (host.client.iptables.append_unique nat_table c r)

  -- A jump at the head of a built-in chain, and with it what fills the chain that it goes to.
  unfoldable pub ensure_jump :
      Chain → Rule → Exec (KubeProxy T) (Unit {0}) → Exec (KubeProxy T) (Unit {0})
  unfolding has_rule put_first
  ensure_jump c r fill = do
    exist ← has_rule c r
    if not exist then (do put_first c r; fill) else pure tt

  unfoldable pub init_services : Exec (KubeProxy T) (Unit {0})
  unfolding make_chain ensure_jump
  init_services = do
    make_chain services
    ensure_jump prerouting (jump (chain services) ∷ []) (pure tt)
    ensure_jump output (jump (chain services) ∷ []) (pure tt)

  fill_postrouting : Exec (KubeProxy T) (Unit {0})
  unfolding append_rule
  fill_postrouting = do
    append_rule kuberboat_postrouting
        (match_param "mark" ∷ not_matching ∷ mark "0x10000/0x10000" ∷ jump return_target ∷ [])
    append_rule kuberboat_postrouting (jump mark_target ∷ set_xmark "0x10000/0" ∷ [])
    append_rule kuberboat_postrouting (jump masquerade ∷ random_fully ∷ [])

  unfoldable pub init_postrouting : Exec (KubeProxy T) (Unit {0})
  unfolding make_chain ensure_jump fill_postrouting
  init_postrouting = do
    make_chain kuberboat_postrouting
    ensure_jump postrouting (jump (chain kuberboat_postrouting) ∷ []) fill_postrouting

  unfoldable pub init_mark : Exec (KubeProxy T) (Unit {0})
  unfolding make_chain append_rule
  init_mark = do
    make_chain mark_masq
    append_rule mark_masq (jump mark_target ∷ set_xmark "0x10000/0x10000" ∷ [])

  fill_host_postrouting : Exec (KubeProxy T) (Unit {0})
  unfolding append_rule
  fill_host_postrouting = do
    append_rule host_postrouting
        (match_param "mark" ∷ not_matching ∷ mark "0x8000/0x8000" ∷ jump return_target ∷ [])
    append_rule host_postrouting (jump mark_target ∷ set_xmark "0x8000/0" ∷ [])
    append_rule host_postrouting (jump snat ∷ to_source host.client.flannel_ip ∷ [])

  unfoldable pub init_host_postrouting : Exec (KubeProxy T) (Unit {0})
  unfolding make_chain ensure_jump fill_host_postrouting
  init_host_postrouting = do
    make_chain host_postrouting
    ensure_jump postrouting (source host.client.host_inet_ip ∷ jump (chain host_postrouting) ∷ [])
        fill_host_postrouting

  unfoldable pub init_host_mark : Exec (KubeProxy T) (Unit {0})
  unfolding make_chain append_rule
  init_host_mark = do
    make_chain host_mark_masq
    append_rule host_mark_masq (jump mark_target ∷ set_xmark "0x8000/0x8000" ∷ [])

  unfoldable pub init_service_iptables : Exec (KubeProxy T) (Unit {0})
  unfolding init_services init_postrouting init_mark init_host_postrouting init_host_mark
  init_service_iptables = do
    init_services
    init_postrouting
    init_mark
    init_host_postrouting
    init_host_mark
