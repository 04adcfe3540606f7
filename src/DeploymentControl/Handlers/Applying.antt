-- ===== src/DeploymentControl/Handlers/Applying.antt =====
-- What the application of a deployment leaves in the cache and in etcd.
use kuberboat.Prelude.{
  ap, ◌∙◌, is_some, contains-lookup, ◌≡◌, refl, sym, subst, ◌⊎◌, inl, inr, true, false, ◌&&◌,
  string_eq, Bool-cases, Option-cases, unless, contains, All-lookup, some, suc, ◌==◌, nat_eq,
}
use kuberboat.Core.{Deployment}
use kuberboat.ComponentManager.{
  get_deployment_by_name, deployment_exists_by_name, deployment_autoscaled,
}
use kuberboat.ComponentManager.Integrity.{IsCoherent, set_deployment-IsCoherent}
use kuberboat.ComponentManager.Growth.{update_deployment-IsCoherent}
use kuberboat.Exec.{err, panic, no_surge, etcd_failed, deployment_monitored}
use kuberboat.World.{World, Env, key_eq}
use kuberboat.DeploymentControl.{is_deployment_updated, init_deployment}
use kuberboat.DeploymentControl.Handlers.{
  restart, rescale, rewrite, apply_existing, apply_new, apply_deployment,
}
use kuberboat.DeploymentControl.Handlers.Outcome.{
  OwnNames, IsReplaced, IsNew, Applied, rescale-IsReplaced, restart-IsReplaced,
  is_deployment_updated_refl,
}

module _ (env : Env) (d : Deployment) where
  rewrite-Applied :
      (old e : Deployment) (w : World)
      → get_deployment_by_name d.name w.cm ≡ some old
      → IsReplaced env d old e
      → Applied env d w (rewrite env e w)
  unfolding rewrite
  rewrite-Applied old e w found made = elim (Bool-cases (env.succeeds w.calls)) [
    | inl stored ↦ rw stored (inr (inl (old, e, found, made, refl, inl (refl, refl))))
    | inr refused ↦ rw refused (inr (inl (old, e, found, made, refl, inr (refl, refl))))
  ]

  apply_existing-Applied :
      (old : Deployment) (w : World)
      → get_deployment_by_name d.name w.cm ≡ some old
      → old.name ≡ d.name
      → Applied env d w (apply_existing env old d w)
  unfolding apply_existing
  apply_existing-Applied old w found own = elim (Bool-cases (is_deployment_updated env old d)) [
    | inl same ↦
        rw same
          (rewrite-Applied old (rescale old d) w found (rescale-IsReplaced env d old own same))
    | inr other ↦
        rw other
          (elim (Bool-cases
            (d.spec.rolling_update.max_surge == 0 && d.spec.rolling_update.max_unavailable == 0)) [
              | inl stuck ↦ rw stuck (inl (no_surge, refl, refl, refl))
              | inr free ↦ rw free (
                  rewrite-Applied old (rescale (restart old d) d) w found
                    (restart-IsReplaced env d old own other))
            ])
  ]

  apply_new-Applied :
      (w : World) → contains d.name w.cm.deployments ≡ false → Applied env d w (apply_new env d w)
  unfolding apply_new init_deployment is_deployment_updated
  apply_new-Applied w unknown = elim (Bool-cases (env.succeeds (suc (suc w.calls)))) [
    | inr refused ↦ rw refused (inl (etcd_failed, refl, refl, refl))
    | inl stored ↦ rw stored (inr (inr (e, unknown, made, refl, refl, refl)))
  ]
    where
      e : Deployment
      e = init_deployment (env.uuid w.calls) (env.now (suc w.calls)) d

      made : IsNew env d e
      made = record {
        desired = record {
          name = refl;
          replicas = refl;
          rolling_update = refl;
          template = is_deployment_updated_refl env d d;
        };
        labels = refl;
        spec = refl;
        replicas = refl;
        ready = refl;
        updated = refl;
      }

  found-Applied :
      (old : Deployment) (w : World)
      → deployment_autoscaled d.name w.cm ≡ false
      → deployment_exists_by_name d.name w.cm ≡ true
      → get_deployment_by_name d.name w.cm ≡ some old
      → old.name ≡ d.name
      → Applied env d w (apply_deployment env d w)
  found-Applied old w free known found own =
      subst (λ r. Applied env d w r) (sym same) (apply_existing-Applied old w found own)
    where
      same : apply_deployment env d w ≡ apply_existing env old d w
      same = unfold apply_deployment in rw (free, known, found) refl

  -- When each deployment stands under its own name, the application of one ends in one of three ways.
  -- An error comes back, and cache and etcd are as they were. Or the deployment of that name is
  -- replaced in the cache by one with the wished numbers and a template that counts as the same, with
  -- the counts of its pods kept, but for that of the updated ones, which a new template sets to 0; it
  -- is then in etcd too, or the error of etcd comes back. Or there was none of that name, and a new
  -- one without pods is in cache and etcd. A deployment that an autoscaler monitors is refused.
  pub apply_deployment-Applied :
      (w : World)
      → OwnNames w.cm
      → Applied env d w (apply_deployment env d w)
        × ((deployment_autoscaled d.name w.cm ≡ false)
            ⊎ (apply_deployment env d w ≡ (err (deployment_monitored d.name), w)))
  unfolding apply_deployment
  apply_deployment-Applied w own =
      (outcome, unless (deployment_autoscaled d.name w.cm) (λ e. rw e refl))
    where
      new :
          deployment_autoscaled d.name w.cm ≡ false
          → deployment_exists_by_name d.name w.cm ≡ false
          → apply_deployment env d w ≡ apply_new env d w
      new free unknown = rw (free, unknown) refl

      outcome : Applied env d w (apply_deployment env d w)
      outcome = elim (Bool-cases (deployment_autoscaled d.name w.cm)) [
        | inl monitored ↦ rw monitored (inl (deployment_monitored d.name, refl, refl, refl))
        | inr free ↦ elim (Bool-cases (deployment_exists_by_name d.name w.cm)) [
          | inr unknown ↦
              subst (λ r. Applied env d w r) (sym (new free unknown))
                (apply_new-Applied w (unfold deployment_exists_by_name in unknown))
          | inl known ↦ elim (Option-cases (get_deployment_by_name d.name w.cm)) [
            | inl missing ↦ rw (free, known, missing) (inl (panic, refl, refl, refl))
            | inr (old, found) ↦ found-Applied old w free known found (
                unfold get_deployment_by_name in
                All-lookup (λ entry. entry.1.name ≡ entry.0) d.name w.cm.deployments own found)
          ]
        ]
      ]

  -- When each deployment stands under its own name, the application of a deployment keeps the
  -- cache coherent.
  pub apply_deployment-IsCoherent :
      (w : World) → OwnNames w.cm → IsCoherent w.cm → IsCoherent (apply_deployment env d w).1.cm
  apply_deployment-IsCoherent w own v = elim ((apply_deployment-Applied w own).0) [
    | inl (e, _, same, _) ↦ subst IsCoherent (sym same) v
    | inr (inl (old, e, found, made, same, _)) ↦
        subst IsCoherent (sym same) (update_deployment-IsCoherent e w.cm (known e old found made) v)
    | inr (inr (e, _, made, same, _, _)) ↦
        subst IsCoherent (sym same) (set_deployment-IsCoherent e w.cm v)
  ]
    where
      known :
          (e old : Deployment)
          → get_deployment_by_name d.name w.cm ≡ some old
          → IsReplaced env d old e
          → contains e.name w.cm.deployments ≡ true
      known e old found made =
          ap (λ n. contains n w.cm.deployments) made.desired.name
          ∙ contains-lookup d.name w.cm.deployments
          ∙ (unfold get_deployment_by_name in ap is_some found)
