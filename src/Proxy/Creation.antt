-- ===== src/Proxy/Creation.antt =====
-- What the creation of a service makes of the metadata.
pub mod Outcomes
pub mod Ports
pub mod Opening
pub mod Request
use kuberboat.Prelude.{
  ℕ, suc, ◌+◌, ◌≤◌, ◌<◌, String, Bool, true, false, not, ◌==◌, string_eq, ==_iff, List, [], ◌∷◌,
  ◌++◌, map, length, ◌≡◌, ◌≢◌, ◌⊎◌, inl, inr, refl, sym, ap, ◌∙◌, arith, if◌then◌else◌, GoMap,
}
use kuberboat.Core.{ServicePort}
use kuberboat.Exec.{Error, Result, ok, err, Exec, pure, continue, modify, ◌>>=◌, ◌>>◌}
use kuberboat.Exec.Keeps.{
  Leads, Keeps, Leads-raise, Leads-pure, Leads-if, Keeps-then, continue_cases,
}
use kuberboat.Proxy.Names.{Chain, chain_eq, service_chain, pod_chain, Rule}
use kuberboat.Proxy.Meta.{ServiceManager, PodChain, ServiceChain, get_pod_chains, add_pod_chain}
use kuberboat.Proxy.Iptables.{nat_table, is_ok}
use kuberboat.Proxy.Client.{
  Host, KubeProxy, on_table, wrapped, draw_id, create_pod_chain, mark_host, apply_pod_chain_rules,
  apply_pod_chain, pod_rule,
}
use kuberboat.Proxy.Services.{update, is_here, link_pod}
use kuberboat.Proxy.Routing.{get_pod_chains-add_pod_chain}

module _ {T : Type 0} (host : Host T) where
  -- The metadata and the number of identifiers drawn.
  abbrev pub Same : ServiceManager → ℕ → KubeProxy T → Type 0
  Same m d p = (p.service_meta ≡ m) × (p.drawn ≡ d)

  pub on_table-Same {ℓ} :
      {A : Type ℓ} (m : ServiceManager) (d : ℕ) (call : Exec T A) → Keeps (Same m d) (on_table call)
  on_table-Same m d call = record { at = λ p h. h }

  apply_pod_chain_rules-Same :
      (m : ServiceManager) (d : ℕ) (c : Chain) (ip : String) (port : ℕ) (here : Bool)
      → Keeps (Same m d) (apply_pod_chain_rules host c ip port here)
  unfolding apply_pod_chain_rules mark_host
  apply_pod_chain_rules-Same m d c ip port here =
      Leads-if (not (host.is_ip ip)) _ _ (λ _. Leads-raise _ (λ s h. h))
        (λ _. Keeps-then _ _ (on_table-Same m d _) (
          Keeps-then _ _
            (Leads-if (not here) _ _ (λ _. on_table-Same m d _) (λ _. Leads-pure _ (λ s h. h)))
            (on_table-Same m d _)))

  -- The entry of a pod whose chain is made next.
  abbrev pub entry : KubeProxy T → String → String → PodChain
  entry p n ip = record { chain_name = pod_chain (host.id p.drawn); pod_name = n; pod_ip = ip }

  -- An identifier is drawn, and the entry is made where the link succeeds.
  abbrev pub IsLinked :
      ServiceManager → ℕ → Chain → PodChain → Result (Unit {0}) × KubeProxy T → Type 0
  IsLinked m d c q r =
      (r.1.drawn ≡ d)
      × (((is_ok r.0 ≡ true) × (r.1.service_meta ≡ add_pod_chain c q m))
          ⊎ ((is_ok r.0 ≡ false) × (r.1.service_meta ≡ m)))

  finish-IsLinked :
      (m : ServiceManager) (d : ℕ) (c : Chain) (q : PodChain) (r : Result (Unit {0}) × T)
      (p : KubeProxy T)
      → Same m d p
      → IsLinked m d c q (
          continue
            (λ _. modify (update (add_pod_chain c q)))
            (wrapped r.0, record p { table = r.1 }))
  finish-IsLinked m d c q (ok u, t) p h = (h.1, inl (refl, ap (add_pod_chain c q) h.0))
  finish-IsLinked m d c q (err e, t) p h = (h.1, inr (refl, h.0))

  pub link_pod-IsLinked :
      (c : Chain) (port : ℕ) (n ip : String) (num : ℕ) (p : KubeProxy T)
      → IsLinked p.service_meta (suc p.drawn) c (entry p n ip) (link_pod host c port n ip num p)
  unfolding link_pod create_pod_chain draw_id apply_pod_chain
  link_pod-IsLinked c port n ip num p =
      let u : Chain = pod_chain (host.id p.drawn) in
      let t : T = (host.client.iptables.new_chain nat_table u p.table).1 in
      let p' : KubeProxy T = record p { table = t; drawn = suc p.drawn } in
      let m : ServiceManager = p.service_meta in
      continue_cases (IsLinked m (suc p.drawn) c (entry p n ip)) (Same m (suc p.drawn))
        (λ _. do apply_pod_chain host c n u num; modify (update (add_pod_chain c (entry p n ip))))
        (apply_pod_chain_rules host u ip port (is_here n p') p')
        ((apply_pod_chain_rules-Same m (suc p.drawn) u ip port (is_here n p')).at p' (refl, refl))
        (λ e s k. (k.1, inr (refl, k.0)))
        (λ a s k.
          finish-IsLinked m (suc p.drawn) c (entry p n ip)
            (host.client.iptables.insert nat_table c 1 (pod_rule n u num) s.table) s k)
