-- ===== src/DeploymentControl/Rolling/Progress.antt =====
-- A round of a rolling update deletes a pod or creates one.
use kuberboat.Prelude.{
  ℕ, pos, pos_part, zero, suc, ltb, ◌+◌, ◌-◌, ◌≤◌, ◌<◌, ◌≡◌, sym, ap, subst, ◌⊎◌, inl, inr, true,
  false, string_eq, lookup, In, All, All-lookup, List, [], ◌∷◌, length, some, arith,
}
use native.Mathlib.Decide.{dec_lt}
use kuberboat.Core.{Deployment}
use kuberboat.ComponentManager.{
  Addr, deref, name_of, get_deployment_by_name, list_pods_by_deployment_name,
}
use kuberboat.ComponentManager.Links.{In-Linked}
use kuberboat.ComponentManager.Integrity.{IsCoherent, LinkedEntry}
use kuberboat.World.{World, Env}
use kuberboat.DeploymentControl.{
  find_outdated_pods, find_updated_pods, is_pod_updated, deletions, creations,
  compute_rolling_update_pod_deletion, compute_rolling_update_pod_creation,
}
use kuberboat.DeploymentControl.Scaling.{delete_deployment_pod}
use kuberboat.DeploymentControl.Scaling.Adding.{IsCreatable}
use kuberboat.DeploymentControl.Handlers.Deleting.{Reachable}
use kuberboat.DeploymentControl.Monitor.{delete_many, create_missing, monitor_rolling, monitor_one}
use kuberboat.DeploymentControl.Rolling.{
  deletions-bounds, deletions-pos, deletions-none, creations-pos,
}
use kuberboat.DeploymentControl.Rolling.Unlisted.{IsUnlisted, create_missing-Keeps}
use kuberboat.DeploymentControl.Rolling.Round.{
  Progressed, partition, first_outdated, keeps_on, delete_many-IsUnlisted, create_many-adds,
  delete_deployment_pod-IsUnlisted,
}

In-All : (P : Addr → Type 0) (a : Addr) (xs : List Addr) → In a xs → All P xs → P a
In-All P a [] i p = absurd i
In-All P a (x ∷ xs) (inl e) p = subst P (sym e) p.0
In-All P a (x ∷ xs) (inr i) p = In-All P a xs i p.1

module _ (env : Env) (d : Deployment) (xs : List Addr) (w : World)
    (known : lookup d.name w.cm.deployments ≡ some d)
    (listed : lookup d.name w.cm.deployment_to_pods ≡ some xs)
    (counted : d.status.replicas ≡ length xs) (ready : d.status.ready_replicas ≡ length xs) where
  -- Pods to spare, and the first outdated one goes.
  round_deletes :
      (a : Addr) (rest : List Addr)
      → d.spec.replicas < d.status.ready_replicas + d.spec.rolling_update.max_unavailable
      → find_outdated_pods env w.cm.heap d xs ≡ a ∷ rest
      → IsUnlisted a (delete_deployment_pod env d.name a w).1
      → IsUnlisted a (monitor_rolling env d xs w).1
  unfolding monitor_rolling compute_rolling_update_pod_deletion
  round_deletes a rest spare front u =
      keeps_on (IsUnlisted a) (create_missing env d.name)
        (delete_many env d xs (compute_rolling_update_pod_deletion env w.cm.heap d xs) w)
        (create_missing-Keeps a env d.name)
        (some_deleted (
          deletions-bounds d.status.ready_replicas outdated d.spec.replicas
            d.spec.rolling_update.max_unavailable))
    where
      outdated : ℕ
      outdated = length (find_outdated_pods env w.cm.heap d xs)

      not_none :
          0
          < pos_part (
              deletions d.status.ready_replicas outdated d.spec.replicas
                d.spec.rolling_update.max_unavailable)
      not_none =
          deletions-pos d.status.ready_replicas outdated d.spec.replicas
            d.spec.rolling_update.max_unavailable (omega (arith, ap length front)) spare
            (omega (arith, ready, partition env w.cm.heap d xs, ap length front))

      some_deleted :
          (k : ℕ) × (deletions d.status.ready_replicas outdated d.spec.replicas
                d.spec.rolling_update.max_unavailable
              ≡ pos k)
            × (k ≤ outdated)
            × (k ≤ d.status.ready_replicas)
            × ((k ≡ 0)
                ⊎ (d.spec.replicas
                    ≤ (d.status.ready_replicas - k) + d.spec.rolling_update.max_unavailable))
          → IsUnlisted a
              (delete_many env d xs (compute_rolling_update_pod_deletion env w.cm.heap d xs) w).1
      some_deleted (zero, q, _, _, _) = absurd (omega (arith, not_none, ap pos_part q))
      some_deleted (suc k, q, le, _, _) =
          delete_many-IsUnlisted env d xs w (compute_rolling_update_pod_deletion env w.cm.heap d xs)
            k a rest q le front u

  -- None to spare, and a pod is created.
  round_creates :
      (a b : Addr) (rest : List Addr)
      → d.status.ready_replicas + d.spec.rolling_update.max_unavailable ≤ d.spec.replicas
      → 0 < d.spec.rolling_update.max_surge + d.spec.rolling_update.max_unavailable
      → find_outdated_pods env w.cm.heap d xs ≡ a ∷ rest
      → IsCreatable env d w b
      → Progressed env d xs w (monitor_rolling env d xs w).1
  unfolding monitor_rolling compute_rolling_update_pod_deletion delete_many create_missing
      get_deployment_by_name list_pods_by_deployment_name compute_rolling_update_pod_creation
  round_creates a b rest tight room front made =
      rw
        (
          deletions-none d.status.ready_replicas (length (find_outdated_pods env w.cm.heap d xs))
              d.spec.replicas d.spec.rolling_update.max_unavailable tight,
          create_missing,
          known,
          listed,
        )
        (create_many-adds env d xs w (compute_rolling_update_pod_creation env w.cm.heap d xs) more.0
          b more.1 listed made)
    where
      more :
          (k : ℕ) × (creations d.spec.replicas d.status.replicas
              (length (find_updated_pods env w.cm.heap d xs))
              d.spec.rolling_update.max_surge
            ≡ pos (suc k))
      more =
          creations-pos d.spec.replicas d.status.replicas
            (length (find_updated_pods env w.cm.heap d xs)) d.spec.rolling_update.max_surge
            (omega (arith, counted, ready, tight, room))
            (omega (arith, counted, ready, tight, partition env w.cm.heap d xs, ap length front))

  -- A round of a rolling update does not stall. Let the cache be coherent, the deployment stand
  -- under its own name with fewer updated pods than ready ones, all pods of its list be counted and
  -- ready and on registered workers, some of them outdated, and maxSurge or maxUnavailable positive.
  -- If every call succeeds and so would the creation of a pod at the start of the round, then after
  -- the round an outdated pod of the list is in the list of no deployment, or new pods have joined
  -- the list.
  pub monitor_one-Progressed :
      (b c : Addr)
      → IsCoherent w.cm
      → d.status.updated_replicas < d.status.ready_replicas
      → 0 < d.spec.rolling_update.max_surge + d.spec.rolling_update.max_unavailable
      → In c xs
      → is_pod_updated env d (deref w.cm.heap c) ≡ false
      → ((k : ℕ) → env.succeeds k ≡ true)
      → All (Reachable w) xs
      → IsCreatable env d w b
      → Progressed env d xs w (monitor_one env d.name w).1
  unfolding monitor_one get_deployment_by_name list_pods_by_deployment_name
  monitor_one-Progressed b c v lag room i old all_well near made =
      rw (monitor_one, known, listed, behind)
        (elim (dec_lt d.spec.replicas
          (d.status.ready_replicas + d.spec.rolling_update.max_unavailable)) [
            | yes spare ↦ inl (
              one.0,
              one.3,
              one.4,
              round_deletes one.0 one.1 spare one.2 (
                  delete_deployment_pod-IsUnlisted env w v one.0 d.name here.0 here.1 all_well
                    (In-All (Reachable w) one.0 xs one.3 near)),
            )
            | no tight ↦ round_creates one.0 b one.1 (omega (arith, tight)) room one.2 made
          ])
    where
      one :
          (a : Addr) × (rest : List Addr) × (find_outdated_pods env w.cm.heap d xs ≡ a ∷ rest)
          × In a xs
          × (is_pod_updated env d (deref w.cm.heap a) ≡ false)
      one = first_outdated env w.cm.heap d xs c i old

      here : (one.0 < length w.cm.heap) × (lookup (name_of w.cm.heap one.0) w.cm.pods ≡ some one.0)
      here = In-Linked w.cm.heap w.cm.pods one.0 xs one.3 (
          All-lookup (LinkedEntry w.cm.heap w.cm.pods) d.name w.cm.deployment_to_pods
            v.deployments_linked listed)

      behind : ltb d.status.updated_replicas d.status.ready_replicas ≡ true
      behind = ground (arith, lag)
