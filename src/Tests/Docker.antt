-- ===== src/Tests/Docker.antt =====
-- Examples for the worker's kubelet.
use kuberboat.Prelude.{
  ℕ, ◌+◌, ◌*◌, ◌%◌, ◌≡◌, ◌⊎◌, refl, Bool, true, false, ◌==◌, nat_eq, [], ◌∷◌, ◌++◌, length, none,
  some, lookup, arith,
}
use kuberboat.Core.{ResourceName, zero_spec, Pod, PodStatus, PodPhase}
use kuberboat.Exec.{pod_exists, is_ok, err}
use kuberboat.PodManager.{new_meta_manager, new_runtime_manager, pod_by_name}
use kuberboat.Worker.{Worker, Env, notify_pod_deletion, update_pod_status}
use kuberboat.Worker.Running.{add_pod}
use kuberboat.Worker.Stopping.{delete_pod_by_name}
use kuberboat.Worker.Reports.{known_pod, delete_pod_by_name-told}
use kuberboat.Worker.Starting.{IsStarted, add_pod-IsStarted}
use kuberboat.Worker.Unread.{add_pod-unread}
use kuberboat.Tests.{web}

abbrev docker_env : (ℕ → Bool) → Env
docker_env works = record {
  succeeds = works;
  id = λ n. "c";
  ip = λ n. "10.2.0.1";
  is_ip = λ s. true;
  num_cpu = 4;
}

idle : Worker
unfolding new_meta_manager new_runtime_manager
idle = record {
  dns_ip = "";
  heap = [];
  pod_meta = new_meta_manager;
  runtime = new_runtime_manager;
  docker = [];
  told = [];
}

-- A pod with one container.
abbrev shown : Pod
shown = record web {
  spec = record zero_spec {
    containers =
        record {
          name = "nginx";
          image = "nginx";
          ports = 80 ∷ [];
          resources = (ResourceName.cpu, 1) ∷ [];
          commands = [];
          volume_mounts = [];
        }
        ∷ [];
  };
}

working : Env
working = docker_env (λ n. true)

busy : Worker
unfolding add_pod working idle
busy = (add_pod working shown idle).1

add_pod-IsStarted_example :
    ((a : ℕ) × (pod_by_name shown.name idle.pod_meta ≡ some a)
      × (add_pod working shown idle ≡ (err (pod_exists shown.name), idle)))
    ⊎ IsStarted shown idle (add_pod working shown idle)
add_pod-IsStarted_example = add_pod-IsStarted working shown idle

delete_pod_by_name-told_example :
    (pod_by_name "web" (delete_pod_by_name working "web" busy).1.pod_meta ≡ none)
    × ((delete_pod_by_name working "web" busy).1.told
        ≡ busy.told ++ notify_pod_deletion true (known_pod "web" busy) ∷ [])
delete_pod_by_name-told_example = delete_pod_by_name-told working "web" busy

cutting : Env
cutting = docker_env (λ n. n % 2 == 0)

cutting_pulled : (k : ℕ) → cutting.succeeds (0 + 2 * k) ≡ true
unfolding cutting
cutting_pulled k = ground arith

cutting_cut_off : (k : ℕ) → cutting.succeeds (0 + 2 * k + 1) ≡ false
unfolding cutting
cutting_cut_off k = ground arith

idle_unknown : pod_by_name shown.name idle.pod_meta ≡ none
unfolding pod_by_name idle lookup
idle_unknown = refl

idle_docker : length idle.docker ≡ 0
unfolding idle
idle_docker = refl

add_pod-unread_example :
    (is_ok (add_pod cutting shown idle).0 ≡ true)
    × ((add_pod cutting shown idle).1.runtime ≡ idle.runtime)
    × ((s : PodStatus) × (s.phase ≡ PodPhase.ready)
        × ((add_pod cutting shown idle).1.told ≡ idle.told ++ update_pod_status shown.name s ∷ []))
add_pod-unread_example =
    add_pod-unread cutting 0 cutting_pulled cutting_cut_off shown idle idle_docker idle_unknown
