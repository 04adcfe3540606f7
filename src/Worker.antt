-- ===== src/Worker.antt =====
-- The state of a worker's kubelet, and its calls of Docker and of the API server
-- (pkg/kubelet/kubelet.go, pkg/kubelet/client/client.go).
--
-- Docker and gRPC are not of the repository: an `Env` gives the outcome of the n-th call of either,
-- for every n, and what Docker answers. Pods are objects on a heap, as `AddPod` and the monitor
-- change the pod that the managers point to.
pub mod Running
pub mod Stopping
pub mod Reports
pub mod Containers
pub mod Starting
pub mod Unread
use kuberboat.Prelude.{
  ℕ, suc, String, Bool, true, false, if◌then◌else◌, get_or, set, List, [], ◌∷◌, ◌++◌, length,
  Option, none, some, ℤ,
}
use kuberboat.Core.{Pod, PodStatus, PodPhase, zero_pod}
use kuberboat.Exec.{Error, docker_failed, Result, ok, err, Exec, pure, modify, ◌>>=◌, ◌>>◌}
use kuberboat.PodManager.{MetaManager, RuntimeManager, pod_by_name}

-- The fields that the kubelet sets of Docker's `Config` and `HostConfig`.
pub record ContainerConfig : Type 0 where
  pub image : String
  pub commands : List String
  -- `<port>/tcp`
  pub exposed_ports : List ℕ
  pub dns : List String
  pub binds : List (String × String)
  -- The container whose network and process spaces it shares.
  pub shares_with : Option String
  pub memory : ℕ
  pub nano_cpus : ℕ

pub data Command : Type 0 where
  image_pull : String → Command
  read_all : Command
  container_create : String → ContainerConfig → Command
  container_start container_inspect container_stop container_remove : String → Command
  volume_remove : String → Command

-- KubeletClient
pub data Report : Type 0 where
  update_pod_status : String → PodStatus → Report
  -- Whether the deletion succeeded, and the pod.
  notify_pod_deletion : Bool → Option Pod → Report

-- dockerKubelet
pub record Worker : Type 0 where
  pub dns_ip : String
  pub heap : List Pod
  pub pod_meta : MetaManager
  pub runtime : RuntimeManager
  pub docker : List Command
  pub told : List Report

pub record Env : Type 0 where
  -- By the number of commands so far.
  pub succeeds : ℕ → Bool
  pub id : ℕ → String
  pub ip : ℕ → String
  pub is_ip : String → Bool
  pub num_cpu : ℕ

-- The object at a reference.
abbrev pub deref : ℕ → Worker → Pod
deref a w = get_or w.heap a zero_pod

-- `&pod`
unfoldable pub alloc : Pod → Exec Worker ℕ
alloc p w = (ok (length w.heap), record w { heap = w.heap ++ p ∷ [] })

unfoldable pub set_status : ℕ → (PodStatus → PodStatus) → Worker → Worker
set_status a f w = record w {
  heap = set w.heap a (record (deref a w) { status = f (deref a w).status });
}

unfoldable pub docker : Env → Command → Exec Worker (Unit {0})
docker env c w = (
  if env.succeeds (length w.docker) then ok tt else err docker_failed,
  record w { docker = w.docker ++ c ∷ [] },
)

-- The identifier of the container that the last command made.
unfoldable pub create : Env → String → ContainerConfig → Exec Worker String
unfolding docker
create env n c = do docker env (container_create n c); (λ w. (ok (env.id (length w.docker)), w))

-- The kubelet drops the error of a report.
unfoldable pub tell : Report → Exec Worker (Unit {0})
tell r = modify (λ w. record w { told = w.told ++ r ∷ [] })

unfoldable pub update_pod_status_of : ℕ → Exec Worker (Unit {0})
unfolding tell
update_pod_status_of a w = tell (update_pod_status (deref a w).name (deref a w).status) w

-- A failure is told, and then a success too: the method goes on after the first call.
unfoldable pub notify_deletion : Bool → Option Pod → Exec Worker (Unit {0})
unfolding tell
notify_deletion success p =
    if success
    then tell (notify_pod_deletion true p)
    else (do tell (notify_pod_deletion false none); tell (notify_pod_deletion true p))
