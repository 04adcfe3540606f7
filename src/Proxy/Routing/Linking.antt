-- ===== src/Proxy/Routing/Linking.antt =====
-- A pod is linked to a service chain in the kernel and in the metadata, or in neither.
use kuberboat.Prelude.{
  ℕ, suc, ◌+◌, String, Bool, not, ◌&&◌, ◌==◌, ==_iff, if◌then◌else◌, List, [], ◌∷◌, length, All,
  All-append, All-if, ◌≡◌, refl, sym, ◌∙◌, arith,
}
use kuberboat.Exec.{Result, ok, err, Exec, continue, modify, ◌>>◌}
use kuberboat.Exec.Keeps.{Keeps, Leads-raise, Leads-pure, Leads-if, Keeps-then, continue_cases}
use kuberboat.Proxy.Names.{Chain, chain_eq, service_chain, pod_chain, Rule, pod_chain-service_chain}
use kuberboat.Proxy.Meta.{
  ServiceManager, PodChain, get_pod_chains, add_pod_chain, get_service_chains,
}
use kuberboat.Proxy.Iptables.{Documented, nat_table, is_ok}
use kuberboat.Proxy.Client.{
  Host, KubeProxy, on_table, wrapped, pod_rule, draw_id, create_pod_chain, mark_host,
  apply_pod_chain_rules, apply_pod_chain,
}
use kuberboat.Proxy.Services.{update, link_pod, is_here}
use kuberboat.Proxy.Routing.{
  stack, stack-append, get_pod_chains-add_pod_chain, IsRouted, RoutedWith, on_table-RoutedWith,
  IsPodChain, IsServiceChain,
}

module _ {T : Type 0} (host : Host T) (doc : Documented host.client.iptables) where
  append-RoutedWith :
      (m : ServiceManager) (id : String) (r : Rule)
      → Keeps
          (RoutedWith host doc m)
          (on_table (host.client.iptables.append_unique nat_table (pod_chain id) r))
  append-RoutedWith m id r =
      on_table-RoutedWith host doc m (host.client.iptables.append_unique nat_table (pod_chain id) r)
        (λ i t.
          doc.rules-append_unique (pod_chain id) (service_chain i) r t
            (pod_chain-service_chain id i))

  pub apply_pod_chain_rules-RoutedWith :
      (m : ServiceManager) (id : String) (ip : String) (port : ℕ) (here : Bool)
      → Keeps (RoutedWith host doc m) (apply_pod_chain_rules host (pod_chain id) ip port here)
  unfolding apply_pod_chain_rules mark_host
  apply_pod_chain_rules-RoutedWith m id ip port here =
      Leads-if (not (host.is_ip ip)) _ _ (λ _. Leads-raise _ (λ s h. h))
        (λ _. Keeps-then _ _ (append-RoutedWith m id _) (
          Keeps-then _ _
            (Leads-if (not here) _ _ (λ _. append-RoutedWith m id _) (λ _. Leads-pure _ (λ s h. h)))
            (append-RoutedWith m id _)))

  -- The metadata with one more pod.
  module _ (m : ServiceManager) (id : String) (q : PodChain) where
    abbrev after : ServiceManager
    after = add_pod_chain (service_chain id) q m

    routed_after :
        (R S : Chain → List Rule)
        → ((i : String) → R (service_chain i) ≡ stack 0 (get_pod_chains (service_chain i) m) [])
        → ((i : String)
            → S (service_chain i) ≡ (
                if service_chain id == service_chain i
                then pod_rule q.pod_name q.chain_name
                    (length (get_pod_chains (service_chain id) m) + 1)
                  ∷ R (service_chain i)
                else R (service_chain i)))
        → (i : String) → S (service_chain i) ≡ stack 0 (get_pod_chains (service_chain i) after) []
    routed_after R S h s i = ground (
      arith,
      s i,
      h i,
      h id,
      ==_iff (service_chain id) (service_chain i),
      stack-append 0 (get_pod_chains (service_chain id) m) q [],
      get_pod_chains-add_pod_chain (service_chain id) (service_chain i) q m,
    )

    services_same :
        ((s : String) → All IsServiceChain (get_service_chains s m))
        → (s : String) → All IsServiceChain (get_service_chains s after)
    unfolding get_service_chains add_pod_chain
    services_same h s = h s

    pods_named_after :
        IsPodChain q
        → ((i : String) → All IsPodChain (get_pod_chains (service_chain i) m))
        → (i : String) → All IsPodChain (get_pod_chains (service_chain i) after)
    pods_named_after new h i =
        rw (get_pod_chains-add_pod_chain (service_chain id) (service_chain i) q m) (
          All-if IsPodChain _ _ (service_chain id == service_chain i)
            (All-append IsPodChain (get_pod_chains (service_chain id) m) (q ∷ []) (h id) (new, tt))
            (h i))

  -- The chain of a pod is made.
  pub drawn-IsRouted :
      (p : KubeProxy T) (u : String)
      → IsRouted host doc p
      → IsRouted host doc (record p {
        table = (host.client.iptables.new_chain nat_table (pod_chain u) p.table).1;
        drawn = suc p.drawn;
      })
  drawn-IsRouted p u h = record {
    routed = λ i. doc.rules-new_chain (pod_chain u) (service_chain i) p.table ∙ h.routed i;
    pods_named = h.pods_named;
    services_named = h.services_named;
  }

  -- The last two steps of a link, by the outcome of the insertion.
  module _ (id : String) (q : PodChain) (new : IsPodChain q) where
    finish : Result (Unit {0}) → Exec (KubeProxy T) (Unit {0})
    finish r p = continue (λ _. modify (update (add_pod_chain (service_chain id) q))) (wrapped r, p)

    finish-IsRouted :
        (p : KubeProxy T) (r : Result (Unit {0}) × T)
        → IsRouted host doc p
        → ((i : String)
            → doc.rules (service_chain i) r.1 ≡ (
                if is_ok r.0 && service_chain id == service_chain i
                then pod_rule q.pod_name q.chain_name
                    (length (get_pod_chains (service_chain id) p.service_meta) + 1)
                  ∷ doc.rules (service_chain i) p.table
                else doc.rules (service_chain i) p.table))
        → IsRouted host doc (finish r.0 (record p { table = r.1 })).1
    unfolding finish
    finish-IsRouted p (ok u, t) h law = record {
      routed =
          routed_after p.service_meta id q (λ c. doc.rules c p.table) (λ c. doc.rules c t) h.routed
            law;
      pods_named = pods_named_after p.service_meta id q new h.pods_named;
      services_named = services_same p.service_meta id q h.services_named;
    }
    finish-IsRouted p (err e, t) h law = record {
      routed = λ i. law i ∙ h.routed i;
      pods_named = h.pods_named;
      services_named = h.services_named;
    }

    place : ℕ → Exec (KubeProxy T) (Unit {0})
    unfolding apply_pod_chain
    place num = do
      apply_pod_chain host (service_chain id) q.pod_name q.chain_name num
      modify (update (add_pod_chain (service_chain id) q))

    place-IsRouted :
        (num : ℕ) (p : KubeProxy T)
        → num ≡ length (get_pod_chains (service_chain id) p.service_meta) + 1
        → IsRouted host doc p
        → IsRouted host doc (place num p).1
    unfolding place finish apply_pod_chain
    place-IsRouted num p e h =
        finish-IsRouted p
          (host.client.iptables.insert nat_table (service_chain id) 1
            (pod_rule q.pod_name q.chain_name num) p.table)
          h
          (λ i. rw (sym e) (
            doc.rules-insert (service_chain id) (service_chain i)
              (pod_rule q.pod_name q.chain_name num) p.table))

  -- A link whose number follows on those of the chain keeps the rules in step, also if it fails.
  pub link_pod-IsRouted :
      (id : String) (port : ℕ) (n ip : String) (num : ℕ) (p : KubeProxy T)
      → num ≡ length (get_pod_chains (service_chain id) p.service_meta) + 1
      → IsRouted host doc p
      → IsRouted host doc (link_pod host (service_chain id) port n ip num p).1
  unfolding link_pod create_pod_chain draw_id place
  link_pod-IsRouted id port n ip num p e h =
      let u : String = host.id p.drawn in
      let q : PodChain = record { chain_name = pod_chain u; pod_name = n; pod_ip = ip } in
      let t : T = (host.client.iptables.new_chain nat_table (pod_chain u) p.table).1 in
      let p' : KubeProxy T = record p { table = t; drawn = suc p.drawn } in
      continue_cases (λ r. IsRouted host doc r.1) (RoutedWith host doc p.service_meta)
        (λ _. place id q (u, refl) num)
        (apply_pod_chain_rules host (pod_chain u) ip port (is_here n p') p')
        ((apply_pod_chain_rules-RoutedWith p.service_meta u ip port (is_here n p')).at p'
          (drawn-IsRouted p u h, refl))
        (λ err s k. k.0) (λ a s k. place-IsRouted id q (u, refl) num s (rw k.1 e) k.0)
