-- ===== src/DeploymentControl/Handlers/Outcome.antt =====
-- What the application of a deployment should leave.
use kuberboat.Prelude.{
  if◌then◌else◌, ◌≡◌, refl, ◌⊎◌, true, false, ==_refl, string_eq, contains, insert, All, some, [],
  nat_eq,
}
use kuberboat.Core.{Deployment}
use kuberboat.ComponentManager.{
  ComponentManager, get_deployment_by_name, update_deployment, set_deployment,
}
use kuberboat.Exec.{Error, Result, ok, err, etcd_failed}
use kuberboat.World.{World, Env, Key, Value, key_eq}
use kuberboat.DeploymentControl.{is_deployment_updated}
use kuberboat.DeploymentControl.Handlers.{restart, rescale}

-- `e` is what `d` asks for: the numbers of `d`, and a template that hashes as that of `d`.
pub record IsDesired (env : Env) (d e : Deployment) : Type 0 where
  pub name : e.name ≡ d.name
  pub replicas : e.spec.replicas ≡ d.spec.replicas
  pub rolling_update : e.spec.rolling_update ≡ d.spec.rolling_update
  pub template : is_deployment_updated env e d ≡ true

-- Each deployment stands under its own name.
abbrev pub OwnNames : ComponentManager → Type 0
OwnNames cm = All (λ entry. entry.1.name ≡ entry.0) cm.deployments

-- An existing deployment after its replacement: a new template sets the count of updated pods to 0,
-- which starts a rolling update; all else that the request does not say stays.
pub record IsReplaced (env : Env) (d old e : Deployment) : Type 0 where
  pub desired : IsDesired env d e
  pub meta : e.meta ≡ old.meta
  pub replicas : e.status.replicas ≡ old.status.replicas
  pub ready : e.status.ready_replicas ≡ old.status.ready_replicas
  pub updated :
      e.status.updated_replicas
      ≡ (if is_deployment_updated env old d then old.status.updated_replicas else 0)

-- A new deployment, which has no pods yet.
pub record IsNew (env : Env) (d e : Deployment) : Type 0 where
  pub desired : IsDesired env d e
  pub labels : e.labels ≡ d.labels
  pub spec : e.spec ≡ d.spec
  pub replicas : e.status.replicas ≡ 0
  pub ready : e.status.ready_replicas ≡ 0
  pub updated : e.status.updated_replicas ≡ 0

-- What etcd has of the deployment `e`.
abbrev pub Saved : Deployment → World → World → Type 0
Saved e w v = v.etcd ≡ insert (Key.deployments_meta e.name) (Value.deployment e) w.etcd

-- The outcome of an application: an error, with cache and etcd as they were; or a replaced
-- deployment in the cache, and in etcd unless etcd fails, whose error is then returned; or a new
-- deployment without pods, in both.
abbrev pub Applied : Env → Deployment → World → Result (Unit {0}) × World → Type 0
Applied env d w (r, v) =
    ((e : Error) × (r ≡ err e) × (v.cm ≡ w.cm) × (v.etcd ≡ w.etcd))
    ⊎ ((old : Deployment) × (e : Deployment) × (get_deployment_by_name d.name w.cm ≡ some old)
        × IsReplaced env d old e
        × (v.cm ≡ update_deployment e w.cm)
        × (((r ≡ ok tt) × Saved e w v) ⊎ ((r ≡ err etcd_failed) × (v.etcd ≡ w.etcd))))
    ⊎ ((e : Deployment) × (contains d.name w.cm.deployments ≡ false)
        × IsNew env d e
        × (v.cm ≡ set_deployment e [] w.cm)
        × (r ≡ ok tt)
        × Saved e w v)

module _ (env : Env) (d : Deployment) where
  rescale-IsDesired :
      (old : Deployment)
      → old.name ≡ d.name
      → is_deployment_updated env old d ≡ true
      → IsDesired env d (rescale old d)
  unfolding rescale is_deployment_updated
  rescale-IsDesired old own same = record {
    name = own;
    replicas = refl;
    rolling_update = refl;
    template = same;
  }

  restart-IsDesired :
      (old : Deployment) → old.name ≡ d.name → IsDesired env d (rescale (restart old d) d)
  unfolding rescale restart is_deployment_updated
  restart-IsDesired old own = record {
    name = own;
    replicas = refl;
    rolling_update = refl;
    template =
        rw
          (
            ==_refl (env.hash_labels d.spec.template.labels),
            ==_refl (env.hash_spec d.spec.template.spec),
          )
          refl;
  }

  pub rescale-IsReplaced :
      (old : Deployment)
      → old.name ≡ d.name
      → is_deployment_updated env old d ≡ true
      → IsReplaced env d old (rescale old d)
  unfolding rescale
  rescale-IsReplaced old own same = record {
    desired = rescale-IsDesired old own same;
    meta = refl;
    replicas = refl;
    ready = refl;
    updated = rw same refl;
  }

  pub restart-IsReplaced :
      (old : Deployment)
      → old.name ≡ d.name
      → is_deployment_updated env old d ≡ false
      → IsReplaced env d old (rescale (restart old d) d)
  unfolding rescale restart
  restart-IsReplaced old own other = record {
    desired = restart-IsDesired old own;
    meta = refl;
    replicas = refl;
    ready = refl;
    updated = rw other refl;
  }

  pub is_deployment_updated_refl : (e : Deployment) → is_deployment_updated env e e ≡ true
  unfolding is_deployment_updated
  is_deployment_updated_refl e =
      rw
        (
          ==_refl (env.hash_labels e.spec.template.labels),
          ==_refl (env.hash_spec e.spec.template.spec),
        )
        refl
