-- ===== src/AutoscaleControl/Monitored.antt =====
-- What the creation of an autoscaler does to its deployment.
use kuberboat.Prelude.{
  ◌≤◌, ◌≡◌, refl, sym, subst, inl, inr, String, string_eq, Bool, true, ==_refl, Option-cases, GoMap,
  lookup, contains-lookup, insert, lookup-insert_self, values, any, [], ◌∷◌, some, arith,
}
use kuberboat.Core.{Kind, kind_beq, kind_eq, Deployment, HorizontalPodAutoscaler}
use kuberboat.ComponentManager.{
  set_autoscaler, deployment_exists_by_name, deployment_autoscaled, get_deployment_by_name, targets,
}
use kuberboat.Exec.{ok, err, deployment_monitored}
use kuberboat.World.{World, Env}
use kuberboat.DeploymentControl.Scaling.{adjust}
use kuberboat.DeploymentControl.Handlers.{apply_deployment}
use kuberboat.AutoscaleControl.{clip_deployment_replicas, stamp, install, create_autoscaler}

-- An entry of the map that passes a test makes `any` of the values true.
any-insert :
    {V : Type 0} (f : V → Bool) (k : String) (v : V) (m : GoMap String V)
    → f v ≡ true
    → any f (values (insert k v m)) ≡ true
unfolding insert
any-insert f k v [] q = ground (arith, q)
any-insert f k v ((j, w) ∷ m) q = ground (arith, q, any-insert f k v m q)

clip-bounds :
    (s : HorizontalPodAutoscaler) (d : Deployment)
    → s.spec.min_replicas ≤ s.spec.max_replicas
    → (s.spec.min_replicas ≤ (clip_deployment_replicas s d).spec.replicas)
      × ((clip_deployment_replicas s d).spec.replicas ≤ s.spec.max_replicas)
unfolding clip_deployment_replicas
clip-bounds s d le = ground (arith, le)

-- A creation that succeeds has found the deployment, and has run to its end.
create_autoscaler-installs :
    (env : Env) (s : HorizontalPodAutoscaler) (w : World)
    → (create_autoscaler env s w).0 ≡ ok tt
    → (deployment_exists_by_name s.spec.scale_target_ref.name w.cm ≡ true)
      × (create_autoscaler env s w ≡ install env s w)
unfolding create_autoscaler
create_autoscaler-installs env s w done = ground (arith, done)

-- The deployment is within the bounds, and an autoscaler of the cache targets it.
pub record IsMonitored (s : HorizontalPodAutoscaler) (v : World) : Type 0 where
  pub d : Deployment
  pub found : get_deployment_by_name s.spec.scale_target_ref.name v.cm ≡ some d
  pub lower : s.spec.min_replicas ≤ d.spec.replicas
  pub upper : d.spec.replicas ≤ s.spec.max_replicas
  pub targeted : deployment_autoscaled s.spec.scale_target_ref.name v.cm ≡ true

install-IsMonitored :
    (env : Env) (s : HorizontalPodAutoscaler) (w : World)
    → s.spec.scale_target_ref.kind ≡ Kind.deployment
    → s.spec.min_replicas ≤ s.spec.max_replicas
    → deployment_exists_by_name s.spec.scale_target_ref.name w.cm ≡ true
    → IsMonitored s (install env s w).1
unfolding install adjust deployment_autoscaled set_autoscaler deployment_exists_by_name
    get_deployment_by_name kind_beq
install-IsMonitored env s w kind le exists =
    elim (Option-cases (lookup s.spec.scale_target_ref.name w.cm.deployments)) [
      | inl missing ↦
          ground
            (arith, exists, missing, contains-lookup s.spec.scale_target_ref.name w.cm.deployments)
      | inr (d, known) ↦
          rw (install, adjust, known)
            (record {
              d = clip_deployment_replicas s d;
              found =
                  lookup-insert_self s.spec.scale_target_ref.name (clip_deployment_replicas s d)
                    w.cm.deployments;
              lower = (clip-bounds s d le).0;
              upper = (clip-bounds s d le).1;
              targeted =
                  any-insert (targets s.spec.scale_target_ref.name) s.name
                    (stamp (env.now w.calls) s) w.cm.autoscalers
                    (unfold targets stamp in rw (kind, ==_refl s.spec.scale_target_ref.name) refl);
            })
    ]

-- An autoscaler for a deployment, with its bounds in order, is created only with the deployment
-- clipped to them, and from then on the deployment counts as monitored.
pub create_autoscaler-IsMonitored :
    (env : Env) (s : HorizontalPodAutoscaler) (w : World)
    → s.spec.scale_target_ref.kind ≡ Kind.deployment
    → s.spec.min_replicas ≤ s.spec.max_replicas
    → (create_autoscaler env s w).0 ≡ ok tt
    → IsMonitored s (create_autoscaler env s w).1
create_autoscaler-IsMonitored env s w kind le done =
    let run = create_autoscaler-installs env s w done in
    subst (λ r. IsMonitored s r.1) (sym run.1) (install-IsMonitored env s w kind le run.0)

-- After an autoscaler with its bounds in order was created for a deployment, an application of a
-- deployment of that name is refused and changes nothing.
pub apply_deployment-monitored :
    (env : Env) (s : HorizontalPodAutoscaler) (d : Deployment) (w : World)
    → s.spec.scale_target_ref.kind ≡ Kind.deployment
    → s.spec.min_replicas ≤ s.spec.max_replicas
    → (create_autoscaler env s w).0 ≡ ok tt
    → d.name ≡ s.spec.scale_target_ref.name
    → apply_deployment env d (create_autoscaler env s w).1
      ≡ (err (deployment_monitored d.name), (create_autoscaler env s w).1)
unfolding apply_deployment
apply_deployment-monitored env s d w kind le done same =
    rw
      (subst (λ n. deployment_autoscaled n (create_autoscaler env s w).1.cm ≡ true) (sym same)
        (create_autoscaler-IsMonitored env s w kind le done).targeted)
      refl
