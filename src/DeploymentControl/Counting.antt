-- ===== src/DeploymentControl/Counting.antt =====
-- The counts in the status of a deployment against its pods.
use kuberboat.Prelude.{
  ℕ, ◌+◌, ◌^◌, ◌≤◌, ◌<◌, ◌≡◌, ap, ◌∙◌, inl, inr, Bool, true, false, ◌&&◌, Bool-cases, if◌then◌else◌,
  length, List, [], ◌∷◌, arith,
}
use kuberboat.Core.{Pod, phase_eq, Deployment}
use kuberboat.ComponentManager.{Addr, Heap, deref}
use kuberboat.World.{Env}
use kuberboat.DeploymentControl.{dec32, is_pod_updated, was_ready, update_status_on_pod_removal}

-- How many of the pods pass a test.
unfoldable pub count : Heap → (Pod → Bool) → List Addr → ℕ
count h t [] = 0
count h t (a ∷ xs) = let n = count h t xs in if t (deref h a) then n + 1 else n

-- The counts are those of the list: all its pods, the ready ones, and the ready ones of the current
-- template; a failed pod counts as ready until it is removed.
pub record IsCounted (env : Env) (h : Heap) (d : Deployment) (xs : List Addr) : Type 0 where
  pub replicas : d.status.replicas ≡ length xs
  pub ready : d.status.ready_replicas ≡ count h was_ready xs
  pub updated : d.status.updated_replicas ≡ count h (λ p. is_pod_updated env d p && was_ready p) xs
  pub few : length xs < 2 ^ 32

count-length : (h : Heap) (t : Pod → Bool) (xs : List Addr) → count h t xs ≤ length xs
unfolding count
count-length h t [] = omega arith
count-length h t (a ∷ xs) = elim (Bool-cases (t (deref h a))) [
  | inl yes_ ↦ rw yes_ (omega (arith, count-length h t xs))
  | inr no_ ↦ rw no_ (omega (arith, count-length h t xs))
]

dec32-suc : (n : ℕ) → n < 2 ^ 32 → dec32 (n + 1) ≡ n
unfolding dec32
dec32-suc n lt = omega (arith, lt)

-- One pod less in a count that the pod is in, or the same count.
dec-count :
    (b : Bool) (n m : ℕ)
    → n ≡ (if b then m + 1 else m)
    → m < 2 ^ 32
    → (if b then dec32 n else n) ≡ m
dec-count true n m e lt = ap dec32 e ∙ dec32-suc m lt
dec-count false n m e lt = e

-- If the counts of a deployment are those of its list, where a failed pod counts as ready, then after
-- the removal of the first pod they are those of the rest.
pub update_status_on_pod_removal-IsCounted :
    (env : Env) (h : Heap) (d : Deployment) (a : Addr) (xs : List Addr)
    → IsCounted env h d (a ∷ xs)
    → IsCounted env h (update_status_on_pod_removal env d (deref h a)) xs
unfolding update_status_on_pod_removal count is_pod_updated
update_status_on_pod_removal-IsCounted env h d a xs c = record {
  replicas = ap dec32 (c.replicas ∙ omega arith) ∙ dec32-suc (length xs) (omega (arith, c.few));
  ready =
      dec-count (was_ready (deref h a)) d.status.ready_replicas (count h was_ready xs) c.ready
        (omega (arith, c.few, count-length h was_ready xs));
  updated =
      dec-count (is_pod_updated env d (deref h a) && was_ready (deref h a))
        d.status.updated_replicas (count h (λ p. is_pod_updated env d p && was_ready p) xs)
        c.updated
        (omega (arith, c.few, count-length h (λ p. is_pod_updated env d p && was_ready p) xs));
  few = omega (arith, c.few);
}
