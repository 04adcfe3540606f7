-- ===== src/DeploymentControl/Rolling/Creation.antt =====
-- The pods that a rolling update creates.
use kuberboat.Prelude.{
  ◌+◌, ◌≤◌, ◌≡◌, refl, ◌⊎◌, inl, inr, Bool-cases, string_eq, lookup, List, [], ◌∷◌, ◌++◌, length,
  some, arith,
}
use kuberboat.Core.{Deployment}
use kuberboat.ComponentManager.{Addr, Heap, deref}
use kuberboat.World.{World, Env}
use kuberboat.DeploymentControl.{find_updated_pods, is_pod_updated}
use kuberboat.DeploymentControl.Counting.{count}

pub length-find_updated_pods :
    (env : Env) (h : Heap) (d : Deployment) (xs : List Addr)
    → length (find_updated_pods env h d xs) ≡ count h (is_pod_updated env d) xs
unfolding find_updated_pods count
length-find_updated_pods env h d [] = refl
length-find_updated_pods env h d (a ∷ xs) = elim (Bool-cases (is_pod_updated env d (deref h a))) [
  | inl keep ↦ rw keep (omega (arith, length-find_updated_pods env h d xs))
  | inr drop ↦ rw drop (length-find_updated_pods env h d xs)
]

module _ (env : Env) (d : Deployment) (xs : List Addr) where
  -- Pods have joined the list, if any so few that the counts stay in the bounds of the update.
  pub record IsSurged (w v : World) : Type 0 where
    pub new : List Addr
    pub listed : lookup d.name v.cm.deployment_to_pods ≡ some (xs ++ new)
    pub within :
        (length new ≡ 0)
        ⊎ ((d.status.replicas + length new ≤ d.spec.replicas + d.spec.rolling_update.max_surge)
            × (count v.cm.heap (is_pod_updated env d) (xs ++ new) ≤ d.spec.replicas))
