-- ===== src/DeploymentControl/Monitor/Coherence.antt =====
-- The monitor leaves the cache coherent.
use kuberboat.Prelude.{
  zero, suc, ltb, ℤ, pos, negsuc, ◌-ℤ◌, String, inl, inr, Bool-cases, Option-cases, List, [], ◌∷◌,
  map,
}
use kuberboat.Core.{Deployment}
use kuberboat.ComponentManager.{
  Addr, get_deployment_by_name, list_pods_by_deployment_name, list_deployments,
}
use kuberboat.Exec.Keeps.{Keeps, Leads-pure, Keeps-then}
use kuberboat.World.{World, Env}
use kuberboat.DeploymentControl.{
  compute_rolling_update_pod_deletion, compute_rolling_update_pod_creation,
}
use kuberboat.DeploymentControl.Scaling.Coherence.{Coherent, more_pods-Keeps, fewer_pods-Keeps}
use kuberboat.DeploymentControl.Monitor.{
  create_many, delete_many, create_missing, monitor_rolling, monitor_steady, monitor_one,
  monitor_each, monitor_deployment,
}

module _ (env : Env) where
  create_many-Keeps : (d : Deployment) (k : ℤ) → Keeps Coherent (create_many env d k)
  unfolding create_many
  create_many-Keeps d (pos zero) = Leads-pure tt (λ w v. v)
  create_many-Keeps d (pos (suc k)) = more_pods-Keeps env d (suc k)
  create_many-Keeps d (negsuc k) = Leads-pure tt (λ w v. v)

  delete_many-Keeps :
      (d : Deployment) (xs : List Addr) (k : ℤ) → Keeps Coherent (delete_many env d xs k)
  unfolding delete_many
  delete_many-Keeps d xs (pos zero) = Leads-pure tt (λ w v. v)
  delete_many-Keeps d xs (pos (suc k)) = fewer_pods-Keeps env d xs (suc k)
  delete_many-Keeps d xs (negsuc k) = Leads-pure tt (λ w v. v)

  create_missing-Keeps : (n : String) → Keeps Coherent (create_missing env n)
  unfolding create_missing
  create_missing-Keeps n = record {
    at = λ w v. elim (Option-cases (get_deployment_by_name n w.cm)) [
      | inl unknown ↦ rw (create_missing, unknown) v
      | inr (d, known) ↦ elim (Option-cases (list_pods_by_deployment_name n w.cm)) [
        | inl unlisted ↦ rw (create_missing, known, unlisted) v
        | inr (xs, listed) ↦
            rw (create_missing, known, listed)
              ((create_many-Keeps d (compute_rolling_update_pod_creation env w.cm.heap d xs)).at w
                v)
      ]
    ];
  }

  monitor_rolling-Keeps :
      (d : Deployment) (xs : List Addr) → Keeps Coherent (monitor_rolling env d xs)
  unfolding monitor_rolling
  monitor_rolling-Keeps d xs = record {
    at = λ w v.
        (Keeps-then (delete_many env d xs (compute_rolling_update_pod_deletion env w.cm.heap d xs))
            (create_missing env d.name)
            (delete_many-Keeps d xs (compute_rolling_update_pod_deletion env w.cm.heap d xs))
            (create_missing-Keeps d.name)).at
          w v;
  }

  monitor_steady-Keeps :
      (d : Deployment) (xs : List Addr) → Keeps Coherent (monitor_steady env d xs)
  unfolding monitor_steady
  monitor_steady-Keeps d xs =
      Keeps-then (create_many env d (pos d.spec.replicas -ℤ pos d.status.replicas))
        (delete_many env d xs (pos d.status.replicas -ℤ pos d.spec.replicas))
        (create_many-Keeps d (pos d.spec.replicas -ℤ pos d.status.replicas))
        (delete_many-Keeps d xs (pos d.status.replicas -ℤ pos d.spec.replicas))

  monitor_one-Keeps : (n : String) → Keeps Coherent (monitor_one env n)
  unfolding monitor_one
  monitor_one-Keeps n = record {
    at = λ w v. elim (Option-cases (get_deployment_by_name n w.cm)) [
      | inl unknown ↦ rw (monitor_one, unknown) v
      | inr (d, known) ↦ elim (Option-cases (list_pods_by_deployment_name n w.cm)) [
        | inl unlisted ↦ rw (monitor_one, known, unlisted) v
        | inr (xs, listed) ↦
            elim (Bool-cases (ltb d.status.updated_replicas d.status.ready_replicas)) [
              | inl rolling ↦
                  rw (monitor_one, known, listed, rolling) ((monitor_rolling-Keeps d xs).at w v)
              | inr steady ↦
                  rw (monitor_one, known, listed, steady) ((monitor_steady-Keeps d xs).at w v)
            ]
      ]
    ];
  }

  monitor_each-Keeps : (ns : List String) → Keeps Coherent (monitor_each env ns)
  unfolding monitor_each
  monitor_each-Keeps [] = Leads-pure tt (λ w v. v)
  monitor_each-Keeps (n ∷ ns) =
      Keeps-then (monitor_one env n) (monitor_each env ns) (monitor_one-Keeps n)
        (monitor_each-Keeps ns)

  -- A pass of the monitor keeps the cache coherent, whatever creations and deletions fail, and also
  -- when it ends in a panic.
  pub monitor_deployment-IsCoherent :
      (w : World) → Coherent w → Coherent (monitor_deployment env w).1
  unfolding monitor_deployment
  monitor_deployment-IsCoherent w v =
      (monitor_each-Keeps (map (λ d. d.name) (list_deployments w.cm))).at w v
