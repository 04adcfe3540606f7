-- ===== src/DeploymentControl.antt =====
-- pkg/apiserver/deployment/controller.go: what the controller computes from a deployment and its
-- pods. Counts in a deployment are `uint32`; the differences of rolling updates are `int64`.
pub mod Rolling
pub mod Counting
pub mod Scaling
pub mod Handlers
pub mod Monitor
pub mod Describing
use kuberboat.Prelude.{
  ℕ, ℤ, pos, ◌+◌, ◌-◌, ◌%◌, ◌^◌, ◌+ℤ◌, ◌-ℤ◌, String, Bool, true, false, not, ◌&&◌, ◌||◌, ◌==◌,
  string_eq, if◌then◌else◌, filter, length, List, [], ◌∷◌,
}
use kuberboat.Core.{Pod, PodPhase, phase_eq, Deployment}
use kuberboat.Util.{min64, max64}
use kuberboat.ComponentManager.{Addr, Heap, deref}
use kuberboat.World.{Env}

-- `n++` and `n--` on `uint32`
unfoldable pub inc32 : ℕ → ℕ
inc32 n = (n + 1) % 2 ^ 32

unfoldable pub dec32 : ℕ → ℕ
dec32 n = (n + 2 ^ 32 - 1) % 2 ^ 32

-- The labels and the specification of the template are compared by their hashes.
unfoldable pub is_deployment_updated : Env → Deployment → Deployment → Bool
is_deployment_updated env d e =
    env.hash_labels d.spec.template.labels == env.hash_labels e.spec.template.labels
    && env.hash_spec d.spec.template.spec == env.hash_spec e.spec.template.spec

unfoldable pub update_deployment_template : Deployment → Deployment → Deployment
update_deployment_template old new = record old {
  spec = record old.spec {
    template = record old.spec.template {
      meta = record old.spec.template.meta { labels = new.spec.template.labels };
      spec = new.spec.template.spec;
    };
  };
}

unfoldable pub is_pod_updated : Env → Deployment → Pod → Bool
is_pod_updated env d p =
    env.hash_labels d.spec.template.labels == env.hash_labels p.labels
    && env.hash_spec d.spec.template.spec == env.hash_spec p.spec

unfoldable pub init_deployment : String → ℕ → Deployment → Deployment
init_deployment id t d = record d {
  meta = record d.meta { uuid = id; creation_timestamp = t };
  status = record { replicas = 0; updated_replicas = 0; ready_replicas = 0 };
}

-- `pod.Status.Phase == core.PodReady || pod.Status.Phase == core.PodFailed`
unfoldable pub was_ready : Pod → Bool
was_ready p = p.status.phase == PodPhase.ready || p.status.phase == PodPhase.failed

unfoldable pub update_status_on_pod_removal : Env → Deployment → Pod → Deployment
unfolding is_pod_updated was_ready dec32
update_status_on_pod_removal env d p = record d {
  status = record {
    replicas = dec32 d.status.replicas;
    updated_replicas =
        if is_pod_updated env d p && was_ready p
        then dec32 d.status.updated_replicas
        else d.status.updated_replicas;
    ready_replicas = if was_ready p then dec32 d.status.ready_replicas else d.status.ready_replicas;
  };
}

unfoldable pub find_outdated_pods : Env → Heap → Deployment → List Addr → List Addr
unfolding is_pod_updated deref
find_outdated_pods env h d = filter λ a. not (is_pod_updated env d (deref h a))

unfoldable pub find_updated_pods : Env → Heap → Deployment → List Addr → List Addr
unfolding is_pod_updated deref
find_updated_pods env h d = filter λ a. is_pod_updated env d (deref h a)

-- The arithmetic of the two computations: ready, outdated and desired pods, and maxUnavailable.
unfoldable pub deletions : ℕ → ℕ → ℕ → ℕ → ℤ
unfolding min64 max64 ◌-ℤ◌
deletions ready outdated replicas max_unavailable =
    let min_ready = max64 (pos 0) (pos replicas -ℤ pos max_unavailable) in
    min64 (pos outdated) (max64 (pos 0) (pos ready -ℤ min_ready))

-- Desired, existing and updated pods, and maxSurge.
unfoldable pub creations : ℕ → ℕ → ℕ → ℕ → ℤ
unfolding min64 max64 ◌+ℤ◌ ◌-ℤ◌
creations replicas existing updated max_surge =
    let max_replicas = pos replicas +ℤ pos max_surge in
    let ideal = max64 (pos 0) (pos replicas -ℤ pos updated) in
    min64 (max_replicas -ℤ pos existing) ideal

unfoldable pub compute_rolling_update_pod_deletion : Env → Heap → Deployment → List Addr → ℤ
unfolding find_outdated_pods deletions
compute_rolling_update_pod_deletion env h d xs =
    deletions d.status.ready_replicas (length (find_outdated_pods env h d xs)) d.spec.replicas
      d.spec.rolling_update.max_unavailable

unfoldable pub compute_rolling_update_pod_creation : Env → Heap → Deployment → List Addr → ℤ
unfolding find_updated_pods creations
compute_rolling_update_pod_creation env h d xs =
    creations d.spec.replicas d.status.replicas (length (find_updated_pods env h d xs))
      d.spec.rolling_update.max_surge
