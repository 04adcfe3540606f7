-- ===== src/DeploymentControl/Handlers/Deleting.antt =====
-- The deletion of a deployment whose pods can be deleted.
use kuberboat.Prelude.{
  String, ◌≡◌, refl, sym, ap, subst, ◌∙◌, true, ==_refl, string_eq, lookup, contains,
  contains-lookup, delete, lookup-delete, lookup-map_values, All, All-lookup, none, some, List, [],
  ◌∷◌, length, ℕ, zero, suc, ◌<◌, arith,
}
use kuberboat.ComponentManager
use kuberboat.ComponentManager.{
  ComponentManager, Addr, deref, name_of, get_pod_by_name, pod_exists_by_name, remove_pod,
  list_pods_by_deployment_name, deployment_exists_by_name, delete_targeting,
}
use kuberboat.ComponentManager.Integrity.{
  IsCoherent, LinkedEntry, delete_pod_by_name-IsCoherent as forget-IsCoherent,
}
use kuberboat.ComponentManager.Growth.{delete_deployment_by_name-IsCoherent}
use kuberboat.Exec.{Result, ok, continue, log_error, ◌>>◌}
use kuberboat.World.{World, Env, Client, key_eq}
use kuberboat.Nodes.{client_by_ip}
use kuberboat.PodControl
use kuberboat.PodControl.{retire, remove}
use kuberboat.DeploymentControl.Handlers.{
  delete_front, delete_deployment_in_etcd, drop_deployment, delete_deployment_by_name,
}

-- The worker of the pod is registered.
abbrev pub Reachable : World → Addr → Type 0
Reachable w a = (c : Client) × (client_by_ip (deref w.cm.heap a).status.host_ip w ≡ some c)

module _ (env : Env) (all_well : (k : ℕ) → env.succeeds k ≡ true) where
  -- What the deletion of a reachable pod does when every call succeeds.
  pub delete_pod_by_name-done :
      (w : World) (a : Addr)
      → lookup (name_of w.cm.heap a) w.cm.pods ≡ some a
      → Reachable w a
      → ((PodControl.delete_pod_by_name env (name_of w.cm.heap a) w).0 ≡ ok tt)
        × ((PodControl.delete_pod_by_name env (name_of w.cm.heap a) w).1.cm
            ≡ ComponentManager.delete_pod_by_name (name_of w.cm.heap a) w.cm)
        × ((PodControl.delete_pod_by_name env (name_of w.cm.heap a) w).1.nodes ≡ w.nodes)
  unfolding PodControl.delete_pod_by_name pod_exists_by_name get_pod_by_name remove retire
  delete_pod_by_name-done w a known (c, found) =
      rw
        (
          contains-lookup (name_of w.cm.heap a) w.cm.pods,
          known,
          found,
          remove,
          all_well w.calls,
          all_well (suc w.calls),
        )
        (refl, refl, refl)

-- A world with the same nodes and objects reaches the same pods.
Reachable-same :
    (w v : World) (a : Addr)
    → v.cm.heap ≡ w.cm.heap
    → v.nodes ≡ w.nodes
    → Reachable w a
    → Reachable v a
unfolding client_by_ip
Reachable-same w v a heap nodes (c, found) = (c, rw (heap, nodes) found)

All-Reachable :
    (w v : World) (xs : List Addr)
    → v.cm.heap ≡ w.cm.heap
    → v.nodes ≡ w.nodes
    → All (Reachable w) xs
    → All (Reachable v) xs
All-Reachable w v [] heap nodes r = tt
All-Reachable w v (a ∷ xs) heap nodes r =
    (Reachable-same w v a heap nodes r.0, All-Reachable w v xs heap nodes r.1)

-- The front of the list goes when its pod is deleted.
lookup-forget :
    (n : String) (cm : ComponentManager) (a : Addr) (xs : List Addr)
    → lookup n cm.deployment_to_pods ≡ some (a ∷ xs)
    → lookup n (ComponentManager.delete_pod_by_name (name_of cm.heap a) cm).deployment_to_pods
      ≡ some xs
unfolding ComponentManager.delete_pod_by_name
lookup-forget n cm a xs q =
    rw
      (
        lookup-map_values (remove_pod cm.heap (name_of cm.heap a)) n cm.deployment_to_pods,
        q,
        remove_pod,
        ==_refl (name_of cm.heap a),
      )
      refl

-- Neither the deployment nor its list is left.
pub record Gone (n : String) (r : Result (Unit {0}) × World) : Type 0 where
  pub done : r.0 ≡ ok tt
  pub coherent : IsCoherent r.1.cm
  pub unknown : lookup n r.1.cm.deployments ≡ none
  pub unlisted : lookup n r.1.cm.deployment_to_pods ≡ none

module _ (env : Env) (n : String) (all_well : (k : ℕ) → env.succeeds k ≡ true) where
  -- The list is empty after the loop, which has ended well.
  record Emptied (r : Result (Unit {0}) × World) : Type 0 where
    done : r.0 ≡ ok tt
    none_left : lookup n r.1.cm.deployment_to_pods ≡ some []
    coherent : IsCoherent r.1.cm

  delete_front-Emptied :
      (xs : List Addr) (fuel : ℕ) (w : World)
      → length xs < fuel
      → lookup n w.cm.deployment_to_pods ≡ some xs
      → IsCoherent w.cm
      → All (Reachable w) xs
      → Emptied (delete_front env fuel n w)
  unfolding delete_front list_pods_by_deployment_name
  delete_front-Emptied xs zero w lt q v r = absurd (omega (arith, lt))
  delete_front-Emptied [] (suc fuel) w lt q v r =
      rw (delete_front, q) (record { done = refl; none_left = q; coherent = v })
  delete_front-Emptied (a ∷ xs) (suc fuel) w lt q v r =
      rw (delete_front, q, gone.0)
        (delete_front-Emptied xs fuel after (omega (arith, lt))
          (ap (λ (cm : ComponentManager). lookup n cm.deployment_to_pods) gone.1
            ∙ lookup-forget n w.cm a xs q)
          (subst IsCoherent (sym gone.1) (forget-IsCoherent (name_of w.cm.heap a) w.cm v))
          (All-Reachable w after xs
            (ap (λ (cm : ComponentManager). cm.heap) gone.1
              ∙ (unfold ComponentManager.delete_pod_by_name in refl))
            gone.2 r.1))
    where
      linked : lookup (name_of w.cm.heap a) w.cm.pods ≡ some a
      linked =
          (All-lookup (LinkedEntry w.cm.heap w.cm.pods) n w.cm.deployment_to_pods
            v.deployments_linked q).1

      gone :
          ((PodControl.delete_pod_by_name env (name_of w.cm.heap a) w).0 ≡ ok tt)
          × ((PodControl.delete_pod_by_name env (name_of w.cm.heap a) w).1.cm
              ≡ ComponentManager.delete_pod_by_name (name_of w.cm.heap a) w.cm)
          × ((PodControl.delete_pod_by_name env (name_of w.cm.heap a) w).1.nodes ≡ w.nodes)
      gone = delete_pod_by_name-done env all_well w a linked r.0

      after : World
      after = (PodControl.delete_pod_by_name env (name_of w.cm.heap a) w).1

  drop_deployment-Gone :
      (u : World)
      → lookup n u.cm.deployment_to_pods ≡ some []
      → IsCoherent u.cm
      → Gone n (drop_deployment env n u)
  drop_deployment-Gone u left c = subst (Gone n) (sym dropped_to) (record {
    done = refl;
    coherent = subst IsCoherent next-smaller dropped.2;
    unknown = lookup-delete n n u.cm.deployments ∙ rw (==_refl n) refl;
    unlisted = lookup-delete n n u.cm.deployment_to_pods ∙ rw (==_refl n) refl;
  })
    where
      small : ComponentManager
      small = record u.cm {
        deployment_to_pods = delete n u.cm.deployment_to_pods;
        deployments = delete n u.cm.deployments;
        autoscalers = delete_targeting n u.cm.autoscalers u.cm.autoscalers;
      }

      smaller : ComponentManager.delete_deployment_by_name n u.cm ≡ some small
      smaller =
          unfold ComponentManager.delete_deployment_by_name in
          rw (ComponentManager.delete_deployment_by_name, left) refl

      dropped_to : drop_deployment env n u ≡ (ok tt, record u { cm = small })
      dropped_to = unfold drop_deployment in rw (drop_deployment, smaller) refl

      dropped :
          (next : ComponentManager) × (ComponentManager.delete_deployment_by_name n u.cm
            ≡ some next)
          × IsCoherent next
      dropped = delete_deployment_by_name-IsCoherent n u.cm left c

      next-smaller : dropped.0 ≡ small
      next-smaller = same (sym dropped.1 ∙ smaller)
        where
          same : {x y : ComponentManager} → some x ≡ some y → x ≡ y
          same e = cc

  -- When every call succeeds and the worker of each pod of the deployment is registered, more rounds
  -- than the deployment has pods are enough: its deletion returns well, the cache is coherent, and
  -- neither the deployment nor its list is left.
  pub delete_deployment_by_name-Gone :
      (xs : List Addr) (fuel : ℕ) (w : World)
      → length xs < fuel
      → lookup n w.cm.deployment_to_pods ≡ some xs
      → IsCoherent w.cm
      → All (Reachable w) xs
      → Gone n (delete_deployment_by_name env fuel n w)
  delete_deployment_by_name-Gone xs fuel w lt q v r = subst (Gone n) (sym run) (
      drop_deployment-Gone rest
        (ap (λ (cm : ComponentManager). lookup n cm.deployment_to_pods) same ∙ emptied.none_left)
        (subst IsCoherent (sym same) emptied.coherent))
    where
      known : contains n w.cm.deployments ≡ true
      known = v.deployments_listed n ∙ rw (contains-lookup n w.cm.deployment_to_pods, q) refl

      emptied : Emptied (delete_front env fuel n w)
      emptied = delete_front-Emptied xs fuel w lt q v r

      rest : World
      rest = (delete_deployment_in_etcd env n (delete_front env fuel n w).1).1

      same : rest.cm ≡ (delete_front env fuel n w).1.cm
      same = unfold delete_deployment_in_etcd in ground arith

      run : delete_deployment_by_name env fuel n w ≡ drop_deployment env n rest
      run =
          unfold delete_deployment_by_name list_pods_by_deployment_name deployment_exists_by_name in
          rw (known, q)
            (ap
              (λ x.
                continue (λ _. log_error (delete_deployment_in_etcd env n) >> drop_deployment env n)
                  (x, (delete_front env fuel n w).1))
              emptied.done)
