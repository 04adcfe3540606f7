-- ===== src/Recovery/Safety.antt =====
-- A recovery that fails at any of its calls still leaves a coherent cache.
use kuberboat.Prelude.{
  ℕ, String, ◌≡◌, refl, sym, subst, Bool-cases, if◌then◌else◌, inl, inr, GoMap, All, List, [], ◌∷◌,
}
use kuberboat.Core.{Pod}
use kuberboat.ComponentManager.{Addr, new_component_manager}
use kuberboat.ComponentManager.Integrity.{IsCoherent, new-IsCoherent}
use kuberboat.Exec.{modify, pure, ◌>>=◌, ◌>>◌}
use kuberboat.Exec.Keeps.{
  Leads, Keeps, Keeps-bind, Keeps-then, Leads-bind, Leads-then, Leads-if, Leads-modify,
}
use kuberboat.World.{World, Env, Api, Key, Value, Ip, call}
use kuberboat.NodeControl.{write_targets}
use kuberboat.Recovery.{
  Decoder, as_node, as_pod, as_service, as_deployment, as_ip, get, set_pods, recover_pods,
  set_current_ips, recover_nodes, recover_services, recover_deployments, recover_components,
  recover,
}
use kuberboat.Recovery.Pods.{IsLoaded, new-IsLoaded, recover_pods-IsLoaded}
use kuberboat.Recovery.Lists.{CleanEntry}
use kuberboat.Recovery.Coherence.{IsPlaced, recover_services-IsPlaced, recover_deployments-IsPlaced}
use kuberboat.Recovery.Nodes.{Untouched, recover_nodes-Untouched}

-- The recovery from the address of services on.
abbrev pub after_pods : Env → (ℕ → ℕ) → GoMap String Addr → Api (Unit {0})
after_pods env status known = do
  ips ← get env as_ip
  modify (set_current_ips ips)
  ss ← get env as_service
  recover_services env status known ss
  ds ← get env as_deployment
  recover_deployments env status known ds

set_current_ips-IsPlaced :
    (known : GoMap String Addr) (ips : List Ip) (w : World)
    → IsPlaced known w
    → IsPlaced known (set_current_ips ips w)
unfolding set_current_ips
set_current_ips-IsPlaced known [] w p = p
set_current_ips-IsPlaced known (ip ∷ ips) w p =
    set_current_ips-IsPlaced known ips (record w { current_ip = ip })
      (record { coherent = p.coherent; same = p.same; clean = p.clean })

module _ (env : Env) where
  get-Keeps {ℓ} :
      {A : Type 0} (P : World → Type ℓ) (f : Decoder A)
      → ((w : World) (k : ℕ) → P w → P (record w { calls = k }))
      → Keeps P (get env f)
  unfolding get call
  get-Keeps P f counted = record {
    at = λ w p. elim (Bool-cases (env.succeeds w.calls)) [
      | inl up ↦ rw up (counted w _ p)
      | inr down ↦ rw down (counted w _ p)
    ];
  }

  get-IsPlaced :
      {A : Type 0} (known : GoMap String Addr) (f : Decoder A) → Keeps (IsPlaced known) (get env f)
  get-IsPlaced known f =
      get-Keeps (IsPlaced known) f
        (λ w k p. record { coherent = p.coherent; same = p.same; clean = p.clean })

  module _ (status : ℕ → ℕ) where
    after_pods-IsPlaced :
        (known : GoMap String Addr) → Keeps (IsPlaced known) (after_pods env status known)
    after_pods-IsPlaced known = Keeps-bind (get env as_ip) _ (get-IsPlaced known as_ip) (λ ips.
        Keeps-then (modify (set_current_ips ips)) _
          (Leads-modify (set_current_ips ips) (set_current_ips-IsPlaced known ips))
          (Keeps-bind (get env as_service) _ (get-IsPlaced known as_service) (λ ss.
            Keeps-then (recover_services env status known ss) _
              (record { at = recover_services-IsPlaced env known status ss })
              (Keeps-bind (get env as_deployment) _ (get-IsPlaced known as_deployment)
                (λ ds. record { at = recover_deployments-IsPlaced env known status ds })))))

    module _ (m : GoMap Key Value) (clean : All CleanEntry m) where
      Fresh : World → Type 0
      Fresh = Untouched new_component_manager m

      Coherent : World → Type 0
      Coherent w = IsCoherent w.cm

      set_pods-Coherent :
          (ps : List Pod) → Leads Fresh Coherent (set_pods ps >>= after_pods env status)
      unfolding set_pods Fresh Coherent
      set_pods-Coherent ps = record {
        at = λ w fresh.
            let r = recover_pods ps [] w.cm in
            let loaded =
              recover_pods-IsLoaded ps [] [] w.cm
                (subst (IsLoaded [] []) (sym fresh.0) new-IsLoaded) in
            ((after_pods-IsPlaced r.0).at (record w { cm = r.1 })
              (record {
                coherent = loaded.coherent;
                same = loaded.same;
                clean = subst (All CleanEntry) (sym fresh.1) clean;
              })).coherent;
      }

      Fresh-Coherent : (w : World) → Fresh w → Coherent w
      unfolding Fresh Coherent
      Fresh-Coherent w fresh = subst IsCoherent (sym fresh.0) new-IsCoherent

      get-Fresh : {A : Type 0} (f : Decoder A) → Keeps Fresh (get env f)
      unfolding Fresh
      get-Fresh f = get-Keeps Fresh f (λ w k fresh. fresh)

      recover_components-Coherent : Leads Fresh Coherent (recover_components env status)
      unfolding recover_components write_targets call Fresh
      recover_components-Coherent =
          Leads-then (write_targets env) _ (record { at = λ w fresh. fresh }) Fresh-Coherent
            (Leads-bind (get env as_pod) (λ ps. set_pods ps >>= after_pods env status)
              (get-Fresh as_pod) Fresh-Coherent set_pods-Coherent)

      recover-Coherent : Leads Fresh Coherent (recover env status)
      unfolding recover Fresh
      recover-Coherent = Leads-bind (get env as_node) _ (get-Fresh as_node) Fresh-Coherent (λ ns.
          Leads-bind (recover_nodes env status ns)
            (λ on. if on then recover_components env status else pure tt)
            (recover_nodes-Untouched env status new_component_manager m ns) Fresh-Coherent
            (λ on.
              Leads-if on (recover_components env status) (pure tt)
                (λ _. recover_components-Coherent) (λ _. record { at = Fresh-Coherent })))

-- A new API server ends a recovery with a coherent cache, whichever calls fail and whatever the
-- workers answer, if no list of names in etcd has a name twice.
pub recover-IsCoherent :
    (env : Env) (status : ℕ → ℕ) (w : World)
    → w.cm ≡ new_component_manager
    → All CleanEntry w.etcd
    → IsCoherent (recover env status w).1.cm
unfolding Fresh Coherent
recover-IsCoherent env status w new clean =
    (recover-Coherent env status w.etcd clean).at w (new, refl)
