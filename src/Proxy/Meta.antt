-- ===== src/Proxy/Meta.antt =====
-- pkg/kubelet/proxy/service_manager.go and chain_types.go: what the proxy remembers of its chains.
use kuberboat.Prelude.{
  String, Bool, ◌==◌, string_eq, if◌then◌else◌, GoMap, lookup, contains, insert, delete, List, [],
  ◌∷◌, ◌++◌, Option, none, some,
}
use kuberboat.Core.{ServicePort}
use kuberboat.Proxy.Names.{Chain, chain_eq}

pub record PodChain : Type 0 where
  pub chain_name : Chain
  pub pod_name : String
  pub pod_ip : String

pub record ServiceChain : Type 0 where
  pub chain_name : Chain
  pub service_port : ServicePort

-- basicManager
pub record ServiceManager : Type 0 where
  pub service_to_cluster_ip : GoMap String String
  pub service_chains : GoMap String (List ServiceChain)
  pub pod_chains : GoMap Chain (List PodChain)

unfoldable pub new_meta_manager : ServiceManager
new_meta_manager = record { service_to_cluster_ip = []; service_chains = []; pod_chains = [] }

-- Go's zero value for a missing key.
abbrev pub or_text : Option String → String
or_text none = ""
or_text (some s) = s

abbrev pub or_nil : {A : Type 0} → Option (List A) → List A
or_nil none = []
or_nil (some l) = l

unfoldable pub get_cluster_ip : String → ServiceManager → String
get_cluster_ip s m = or_text (lookup s m.service_to_cluster_ip)

unfoldable pub get_service_chains : String → ServiceManager → List ServiceChain
get_service_chains s m = or_nil (lookup s m.service_chains)

unfoldable pub get_pod_chains : Chain → ServiceManager → List PodChain
get_pod_chains c m = or_nil (lookup c m.pod_chains)

unfoldable pub add_service_cluster_ip : String → String → ServiceManager → ServiceManager
add_service_cluster_ip s ip m = record m {
  service_to_cluster_ip = insert s ip m.service_to_cluster_ip;
}

unfoldable pub add_service_chain : String → ServiceChain → ServiceManager → ServiceManager
unfolding get_service_chains
add_service_chain s c m = record m {
  service_chains = insert s (get_service_chains s m ++ c ∷ []) m.service_chains;
}

unfoldable pub add_pod_chain : Chain → PodChain → ServiceManager → ServiceManager
unfolding get_pod_chains
add_pod_chain c p m = record m { pod_chains = insert c (get_pod_chains c m ++ p ∷ []) m.pod_chains }

unfoldable pub delete_service_cluster_ip : String → ServiceManager → ServiceManager
delete_service_cluster_ip s m = record m {
  service_to_cluster_ip = delete s m.service_to_cluster_ip;
}

unfoldable pub delete_service_chains : String → ServiceManager → ServiceManager
delete_service_chains s m = record m { service_chains = delete s m.service_chains }

unfoldable pub delete_pod_chains : Chain → ServiceManager → ServiceManager
delete_pod_chains c m = record m { pod_chains = delete c m.pod_chains }

-- The loop ends at the first chain of the pod.
unfoldable pub without_pod : String → List PodChain → List PodChain
without_pod n [] = []
without_pod n (p ∷ ps) = let rest = without_pod n ps in if p.pod_name == n then ps else p ∷ rest

unfoldable pub delete_pod_chain_from_service_chain :
    String → Chain → ServiceManager → ServiceManager
unfolding get_pod_chains without_pod
delete_pod_chain_from_service_chain n c m = record m {
  pod_chains = insert c (without_pod n (get_pod_chains c m)) m.pod_chains;
}

unfoldable pub service_exists : String → ServiceManager → Bool
service_exists s m = contains s m.service_to_cluster_ip
