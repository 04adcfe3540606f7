-- ===== src/JobControl.antt =====
-- pkg/apiserver/job/controller.go: a job is a pod that runs to completion, and that is created anew
-- a few times when it fails.
pub mod Retries
use kuberboat.Prelude.{
  ℕ, zero, suc, String, Bool, true, false, string_eq, lookup, insert, List, [], ◌∷◌, Option, none,
  some,
}
use kuberboat.Core.{Kind, ResourceName, Pod, PodStatus, Job, zero_status}
use kuberboat.Exec.{Result, ok, err, panic, Exec, pure, modify, attempt, ◌>>=◌, ◌>>◌}
use kuberboat.World.{World, Env, Api, call}
use kuberboat.PodControl.{create_pod, delete_pod_by_name}

-- `jobPodBase` under the name of the job.
unfoldable pub job_pod : String → Pod
job_pod n = record {
  kind = Kind.pod;
  meta = record {
    name = n;
    uuid = "";
    creation_timestamp = 0;
    labels = ("JobSpecificLabel", "true") ∷ [];
  };
  spec = record {
    containers =
        record {
          name = "slurm-server";
          image = "windowsxpbeta/slurm-server:latest";
          ports = [];
          resources = (ResourceName.cpu, 1) ∷ (ResourceName.memory, 102400000) ∷ [];
          commands = [];
          volume_mounts = record { name = "/tmp/cuda"; mount_path = "/src/cuda" } ∷ [];
        }
        ∷ [];
    volumes = [];
    affinity = "";
  };
  status = zero_status;
}

unfoldable pub set_budget : String → ℕ → World → World
unfolding insert
set_budget n b w = record w { retry_budget = insert n b w.retry_budget }

module _ (env : Env) where
  -- `if err := os.WriteFile(…); err != nil { glog.Fatalf(…) }`: the process ends.
  unfoldable pub write_file : Api (Unit {0})
  unfolding call
  write_file = call env panic

  unfoldable pub create_corresponding_pod : String → Api (Unit {0})
  unfolding create_pod job_pod
  create_corresponding_pod n = do create_pod env (job_pod n); pure tt

  -- The directory, the program and its makefile are written before the pod is created.
  unfoldable pub apply_job : Job → Api (Unit {0})
  unfolding write_file create_corresponding_pod set_budget
  apply_job j = do
    write_file
    write_file
    write_file
    create_corresponding_pod j.name
    modify (set_budget j.name 3)

  unfoldable pub retry : String → ℕ → Api (Unit {0})
  unfolding delete_pod_by_name create_corresponding_pod set_budget
  retry n b = do
    attempt (delete_pod_by_name env n)
    attempt (create_corresponding_pod n)
    modify (set_budget n b)

  -- The event that the pod of that name failed.
  unfoldable pub handle_pod_fail : String → Api (Unit {0})
  unfolding lookup retry delete_pod_by_name
  handle_pod_fail n w = elim (lookup n w.retry_budget) [
    | none ↦ (ok tt, w)
    | some zero ↦ attempt (delete_pod_by_name env n) w
    | some (suc b) ↦ retry n b w
  ]

  -- As many such events one after the other.
  unfoldable pub fails : ℕ → String → Api (Unit {0})
  unfolding handle_pod_fail
  fails zero n = pure tt
  fails (suc k) n = do handle_pod_fail n; fails k n
