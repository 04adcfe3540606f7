-- ===== src/Recovery/Restoring.antt =====
-- A recovery whose calls succeed takes over all that etcd holds.
use kuberboat.Prelude.{
  ℕ, suc, String, ◌≡◌, refl, sym, ap, subst, ◌∙◌, true, false, Bool, if◌then◌else◌, string_eq,
  GoMap, contains, All, List, [], ◌∷◌,
}
use kuberboat.Core.{Node, Deployment}
use kuberboat.ComponentManager.{Addr, new_component_manager}
use kuberboat.Exec.{Result, ok, pure, continue, ◌>>=◌, ◌>>◌}
use kuberboat.World.{World, Env, Api, Key, Ip, NodeWithClient, call}
use kuberboat.NodeControl.{write_targets}
use kuberboat.Recovery.{
  Decoder, stored, get, as_node, as_pod, as_service, as_deployment, as_ip, set_pods, recover_pods,
  set_current_ips, recover_nodes, recover_services, recover_deployments, recover_components,
  recover,
}
use kuberboat.Recovery.Pods.{IsLoaded, new-IsLoaded, recover_pods-IsLoaded, pods_by_name, by_name}
use kuberboat.Recovery.Coherence.{IsPlaced}
use kuberboat.Recovery.Nodes.{entry, recover_nodes-IsGreeted}
use kuberboat.Recovery.Names.{HasList}
use kuberboat.Recovery.Contents.{recover_services-HasServices, recover_deployments-HasDeployments}
use kuberboat.Recovery.Restored.{IsConsistent, IsRestored, last_or, both-IsRestored}

abbrev no_workers : GoMap String NodeWithClient
no_workers = []

set_current_ips_lem :
    (ips : List Ip) (w : World)
    → set_current_ips ips w ≡ record w { current_ip = last_or ips w.current_ip }
unfolding set_current_ips
set_current_ips_lem [] w = refl
set_current_ips_lem (ip ∷ ips) w = set_current_ips_lem ips (record w { current_ip = ip })

follow :
    {A B : Type 0} (f : A → Api B) (r : Result A × World) (a : A)
    → r.0 ≡ ok a
    → continue f r ≡ f a r.1
follow f r a q = ap (λ x. continue f (x, r.1)) q

module _ (env : Env) (status : ℕ → ℕ) (up : (i : ℕ) → env.succeeds i ≡ true) where
  get_step :
      {A B : Type 0} (P : Result B × World → Type 0) (f : Decoder A) (g : List A → Api B)
      (w : World)
      → P (g (stored f w.etcd) (record w { calls = suc w.calls }))
      → P ((get env f >>= g) w)
  unfolding get call
  get_step P f g w p = rw (up w.calls) p

  -- The lists are taken over, after the pods.
  lists_step :
      (known : GoMap String Addr) (ip : Ip) (w : World)
      → IsLoaded (pods_by_name (stored as_pod w.etcd) []) known w.cm
      → IsConsistent w.etcd
      → w.current_ip ≡ last_or (stored as_ip w.etcd) ip
      → IsRestored w.etcd w.nodes ip (
          (recover_services env status known (stored as_service w.etcd)
              >> (get env as_deployment >>= recover_deployments env status known))
            w)
  lists_step known ip w loaded c address =
      let placed : IsPlaced known w = record {
        coherent = loaded.coherent;
        same = loaded.same;
        clean = c.clean;
      } in
      let first = recover_services env status known (stored as_service w.etcd) w in
      let s =
        recover_services-HasServices env status up known (stored as_service w.etcd) w placed
          c.services in
      let ds = stored as_deployment first.1.etcd in
      let v : World = record first.1 { calls = suc first.1.calls } in
      let d =
        recover_deployments-HasDeployments env status up known ds v
          (record { coherent = s.placed.coherent; same = s.placed.same; clean = s.placed.clean })
          (subst
            (λ m.
              All (λ (e : Deployment). HasList m (Key.deployments_pods e.name))
                (stored as_deployment m))
            (sym s.kept.etcd) c.deployments) in
      let last = recover_deployments env status known ds v in
      subst (IsRestored w.etcd w.nodes ip)
        (sym (
          follow (λ _. get env as_deployment >>= recover_deployments env status known) first tt
            s.answer))
        (get_step (IsRestored w.etcd w.nodes ip) as_deployment
          (recover_deployments env status known) first.1
          (both-IsRestored known ip w loaded address first last s d))

  components_step :
      (w : World)
      → w.cm ≡ new_component_manager
      → IsConsistent w.etcd
      → IsRestored w.etcd w.nodes w.current_ip (recover_components env status w)
  unfolding recover_components write_targets call set_pods
  components_step w new c =
      let ps = recover_pods (stored as_pod w.etcd) [] w.cm in
      let P : Result (Unit {0}) × World → Type 0 = IsRestored w.etcd w.nodes w.current_ip in
      let u : World = record w { calls = suc (suc (suc w.calls)); cm = ps.1 } in
      rw (up w.calls) (
        get_step P as_pod _ (record w { calls = suc w.calls })
          (get_step P as_ip _ (record w { calls = suc (suc w.calls); cm = ps.1 })
            (subst
              (λ v. P (
                (get env as_service >>= λ ss.
                recover_services env status ps.0 ss
                >> (get env as_deployment >>= recover_deployments env status ps.0))
                  v))
              (sym (set_current_ips_lem (stored as_ip w.etcd) u))
              (get_step P as_service _
                (record u { current_ip = last_or (stored as_ip w.etcd) w.current_ip })
                (lists_step ps.0 w.current_ip
                  (record w {
                    cm = ps.1;
                    current_ip = last_or (stored as_ip w.etcd) w.current_ip;
                    calls = suc (suc (suc (suc w.calls)));
                  })
                  (recover_pods-IsLoaded (stored as_pod w.etcd) [] [] w.cm
                    (subst (IsLoaded [] []) (sym new) new-IsLoaded))
                  c refl)))))

module _ (env : Env) (status : ℕ → ℕ) (up : (i : ℕ) → env.succeeds i ≡ true)
    (fine : (i : ℕ) → status i ≡ 0) where
  unknown : (ns : List Node) → All (λ n. contains n.name no_workers ≡ false) ns
  unfolding contains
  unknown [] = tt
  unknown (n ∷ ns) = (refl, unknown ns)

  -- A new API server whose calls succeed and whose workers all answer 0 recovers without an error,
  -- and holds what etcd holds: the nodes, pods, services and deployments by their names, the names
  -- of the pods in the lists of services and deployments, as far as the pods exist, and the last
  -- address of a service.
  pub recover-IsRestored :
      (w : World)
      → w.cm ≡ new_component_manager
      → w.nodes ≡ []
      → IsConsistent w.etcd
      → IsRestored w.etcd
          (by_name (λ n. n.name) entry (stored as_node w.etcd) [])
          w.current_ip
          (recover env status w)
  unfolding recover
  recover-IsRestored w new none c =
      let ns = stored as_node w.etcd in
      let v : World = record w { calls = suc w.calls } in
      let r = recover_nodes env status ns v in
      let g =
        recover_nodes-IsGreeted env status up fine ns v c.nodes
          (subst (λ m. All (λ (n : Node). contains n.name m ≡ false) ns) (sym none) (unknown ns)) in
      let rest : Bool → Api (Unit {0}) =
        λ on. if on then recover_components env status else pure tt in
      let P : Result (Unit {0}) × World → Type 0 =
        IsRestored w.etcd (by_name (λ n. n.name) entry ns []) w.current_ip in
      get_step env status up P as_node (λ l. recover_nodes env status l >>= rest) w
        (subst P (sym (follow rest r true g.answer)) (
          subst
            (λ m.
              IsRestored m (by_name (λ n. n.name) entry ns []) w.current_ip
                (recover_components env status r.1))
            g.etcd
            (subst (λ m. IsRestored r.1.etcd m w.current_ip (recover_components env status r.1))
              (g.nodes ∙ ap (by_name (λ n. n.name) entry ns) none)
              (subst (λ ip. IsRestored r.1.etcd r.1.nodes ip (recover_components env status r.1))
                g.current_ip
                (components_step env status up r.1 (g.cm ∙ new)
                  (subst IsConsistent (sym g.etcd) c))))))
