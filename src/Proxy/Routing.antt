-- ===== src/Proxy/Routing.antt =====
-- The rules of the service chains as a function of the proxy's metadata, and the client's calls
-- that leave them as they are.
pub mod Linking
pub mod Adding
pub mod Rewriting
pub mod Removing
pub mod Requests
pub mod Effects
pub mod Removed
use kuberboat.Prelude.{
  ℕ, suc, ◌+◌, String, Bool, true, false, ◌&&◌, ◌==◌, string_eq, ==_iff, ==_refl, Bool-cases, inl,
  inr, if◌then◌else◌, List, [], ◌∷◌, ◌++◌, length, All, All-append, ◌≡◌, refl, sym, ap, ◌∙◌, arith,
  insert, lookup, lookup-insert,
}
use kuberboat.Exec.{Result, ok, err, Exec, ◌>>=◌, ◌>>◌}
use kuberboat.Exec.Keeps.{Leads, Keeps}
use kuberboat.Proxy.Names.{Chain, chain_eq, chain_beq, service_chain, pod_chain, Rule}
use kuberboat.Proxy.Meta.{
  ServiceManager, PodChain, ServiceChain, get_pod_chains, get_service_chains, add_pod_chain,
}
use kuberboat.Proxy.Iptables.{Documented}
use kuberboat.Proxy.Client.{Host, KubeProxy, on_table, pod_rule}

-- The rules of the pods `ps`, counted from `i + 1`, each before those of the pods before it.
unfoldable pub stack : ℕ → List PodChain → List Rule → List Rule
stack i [] rules = rules
stack i (p ∷ ps) rules = stack (i + 1) ps (pod_rule p.pod_name p.chain_name (i + 1) ∷ rules)

pub stack-append :
    (i : ℕ) (ps : List PodChain) (p : PodChain) (rules : List Rule)
    → stack i (ps ++ p ∷ []) rules
      ≡ pod_rule p.pod_name p.chain_name (i + (length ps + 1)) ∷ stack i ps rules
unfolding stack
stack-append i [] p rules = refl
stack-append i (q ∷ ps) p rules =
    ground (arith, stack-append (i + 1) ps p (pod_rule q.pod_name q.chain_name (i + 1) ∷ rules))

pub get_pod_chains-add_pod_chain :
    (c d : Chain) (p : PodChain) (m : ServiceManager)
    → get_pod_chains d (add_pod_chain c p m)
      ≡ (if c == d then get_pod_chains c m ++ p ∷ [] else get_pod_chains d m)
unfolding get_pod_chains add_pod_chain
get_pod_chains-add_pod_chain c d p m =
    ground (arith, lookup-insert c d (get_pod_chains c m ++ p ∷ []) m.pod_chains)

abbrev pub IsPodChain : PodChain → Type 0
IsPodChain p = (id : String) × (p.chain_name ≡ pod_chain id)

abbrev pub IsServiceChain : ServiceChain → Type 0
IsServiceChain c = (id : String) × (c.chain_name ≡ service_chain id)

module _ {T : Type 0} (host : Host T) (doc : Documented host.client.iptables) where
  -- Each service chain of the kernel has the rules of its pods in the metadata, and no others.
  pub record IsRouted (p : KubeProxy T) : Type 0 where
    pub routed :
        (id : String)
        → doc.rules (service_chain id) p.table
          ≡ stack 0 (get_pod_chains (service_chain id) p.service_meta) []
    pub pods_named :
        (id : String) → All IsPodChain (get_pod_chains (service_chain id) p.service_meta)
    pub services_named : (s : String) → All IsServiceChain (get_service_chains s p.service_meta)

  -- The same, with the metadata fixed.
  abbrev pub RoutedWith : ServiceManager → KubeProxy T → Type 0
  RoutedWith m p = IsRouted p × (p.service_meta ≡ m)

  -- A call that does not touch service chains.
  pub on_table-RoutedWith {ℓ} :
      {A : Type ℓ} (m : ServiceManager) (call : Exec T A)
      → ((id : String) (t : T)
          → doc.rules (service_chain id) (call t).1 ≡ doc.rules (service_chain id) t)
      → Keeps (RoutedWith m) (on_table call)
  on_table-RoutedWith m call same = record {
    at = λ p h. (
      record {
        routed = λ id. same id p.table ∙ h.0.routed id;
        pods_named = h.0.pods_named;
        services_named = h.0.services_named;
      },
      h.1,
    );
  }
