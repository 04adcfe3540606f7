-- ===== src/Worker/Running.antt =====
-- `AddPod` of pkg/kubelet/kubelet.go, with `runPodSandBox` and `runPodContainer`.
use kuberboat.Prelude.{
  ℕ, ◌*◌, ◌^◌, String, Bool, not, ltb, leb, string_eq, if◌then◌else◌, is_some, contains, List, [],
  ◌∷◌, ◌++◌, map, Option, none, some, length,
}
use Prim.Native.String.{◌++◌ as append}
use kuberboat.Core.{Pod, PodPhase, Container, ResourceName}
use kuberboat.Exec.{
  pod_exists, invalid_ip, bad_limit, Result, ok, err, Exec, pure, raise, gets, modify, ◌>>=◌, ◌>>◌,
  try,
}
use kuberboat.PodManager.{pod_by_name, add_pod_sand_box, add_pod_container}
use kuberboat.PodManager
use kuberboat.Worker.{
  Worker, Env, ContainerConfig, image_pull, read_all, container_start, container_inspect, deref,
  alloc, set_status, docker, create, update_pod_status_of,
}

-- pkg/api/core/util.go
unfoldable pub get_pod_specific_name : Pod → String → String
get_pod_specific_name p n = append p.uuid (append "_" n)

unfoldable pub get_pod_specific_pause_name : Pod → String
unfolding get_pod_specific_name
get_pod_specific_pause_name p = get_pod_specific_name p "pause"

abbrev pub pause_image : String
pause_image = "docker.io/mirrorgooglecontainers/pause-amd64:3.0"

ports_of : List Container → List ℕ
ports_of [] = []
ports_of (c ∷ cs) = c.ports ++ ports_of cs

unfoldable pub pause_config : String → Pod → ContainerConfig
unfolding ports_of
pause_config dns_ip p = record {
  image = pause_image;
  commands = [];
  exposed_ports = ports_of p.spec.containers;
  dns = dns_ip ∷ [];
  binds = [];
  shares_with = none;
  memory = 0;
  nano_cpus = 0;
}

-- The volumes of a job are directories of the host.
unfoldable pub binds_of : Pod → Container → List (String × String)
unfolding get_pod_specific_name
binds_of p c =
    if contains "JobSpecificLabel" p.labels
    then map (λ m. (m.name, m.mount_path)) c.volume_mounts
    else map (λ m. (get_pod_specific_name p m.name, m.mount_path)) c.volume_mounts

-- The entries of `Resources`, a map with these keys.
unfoldable pub find_memory : List (ResourceName × ℕ) → Option ℕ
find_memory [] = none
find_memory ((ResourceName.memory, n) ∷ rs) = some n
find_memory (r ∷ rs) = find_memory rs

unfoldable pub find_cpu : List (ResourceName × ℕ) → Option ℕ
find_cpu [] = none
find_cpu ((ResourceName.cpu, n) ∷ rs) = some n
find_cpu (r ∷ rs) = find_cpu rs

-- `int64(n) < 0` of a uint64.
abbrev pub is_negative : ℕ → Bool
is_negative n = leb (2 ^ 63) n

unfoldable pub limit_memory : Option ℕ → Exec Worker ℕ
limit_memory none = pure 0
limit_memory (some n) = if is_negative n then raise (bad_limit n) else pure n

unfoldable pub limit_cpu : ℕ → Option ℕ → Exec Worker ℕ
limit_cpu num_cpu none = pure 0
limit_cpu num_cpu (some n) =
    if is_negative n
    then raise (bad_limit n)
    else pure (1000000000 * (if ltb num_cpu n then num_cpu else n))

module _ (env : Env) where
  -- The address that the container got.
  unfoldable pub take_ip : ℕ → Exec Worker (Unit {0})
  unfolding set_status
  take_ip a = do
    ip ← gets (λ w. env.ip (length w.docker))
    if not (env.is_ip ip)
        then raise (invalid_ip ip)
        else modify (set_status a (λ s. record s { pod_ip = ip }))

  unfoldable pub start_sand_box : ℕ → String → String → Exec Worker (Unit {0})
  unfolding docker add_pod_sand_box take_ip
  start_sand_box a name id = do
    modify (λ w. record w { runtime = add_pod_sand_box a id w.runtime })
    docker env (container_start id)
    docker env (container_inspect name)
    take_ip a

  -- After the pause image is read.
  unfoldable pub make_sand_box : ℕ → Exec Worker (Unit {0})
  unfolding get_pod_specific_pause_name pause_config create start_sand_box
  make_sand_box a w =
      (do
        id ←
            create env (get_pod_specific_pause_name (deref a w)) (pause_config w.dns_ip (deref a w))
        start_sand_box a (get_pod_specific_pause_name (deref a w)) id)
        w

  -- A failure to read the stream of the image returns nil.
  unfoldable pub unless_unread : Exec Worker (Unit {0}) → Result (Unit {0}) → Exec Worker (Unit {0})
  unless_unread next (ok u) = next
  unless_unread next (err e) = pure tt

  unfoldable pub run_pod_sand_box : ℕ → Exec Worker (Unit {0})
  unfolding docker unless_unread make_sand_box
  run_pod_sand_box a = do
    docker env (image_pull pause_image)
    r ← try (docker env read_all)
    unless_unread (make_sand_box a) r

  unfoldable pub start_container : ℕ → String → Exec Worker (Unit {0})
  unfolding docker add_pod_container
  start_container a id = do
    modify (λ w. record w { runtime = add_pod_container a id w.runtime })
    docker env (container_start id)

  unfoldable pub container_config : Pod → Container → ℕ → ℕ → ContainerConfig
  unfolding binds_of get_pod_specific_pause_name
  container_config p c memory nano_cpus = record {
    image = c.image;
    commands = c.commands;
    exposed_ports = [];
    dns = [];
    binds = binds_of p c;
    shares_with = some (get_pod_specific_pause_name p);
    memory = memory;
    nano_cpus = nano_cpus;
  }

  unfoldable pub make_container : ℕ → Container → Exec Worker (Unit {0})
  unfolding limit_memory limit_cpu find_memory find_cpu create container_config start_container
      get_pod_specific_name
  make_container a c w =
      (do
        memory ← limit_memory (find_memory c.resources)
        nano_cpus ← limit_cpu env.num_cpu (find_cpu c.resources)
        id ←
            create env (get_pod_specific_name (deref a w) c.name)
              (container_config (deref a w) c memory nano_cpus)
        start_container a id)
        w

  unfoldable pub run_pod_container : ℕ → Container → Exec Worker (Unit {0})
  unfolding docker unless_unread make_container
  run_pod_container a c = do
    docker env (image_pull c.image)
    r ← try (docker env read_all)
    unless_unread (make_container a c) r

  unfoldable pub run_pod_containers : ℕ → List Container → Exec Worker (Unit {0})
  unfolding run_pod_container
  run_pod_containers a [] = pure tt
  run_pod_containers a (c ∷ cs) = do run_pod_container a c; run_pod_containers a cs

  -- A failed sandbox is told to the API server, a failed container is not.
  unfoldable pub after_sand_box : Pod → ℕ → Result (Unit {0}) → Exec Worker (Unit {0})
  unfolding set_status update_pod_status_of run_pod_containers
  after_sand_box p a (err e) = do
    modify (set_status a (λ s. record s { phase = PodPhase.failed }))
    update_pod_status_of a
    raise e
  after_sand_box p a (ok u) = do
    run_pod_containers a p.spec.containers
    modify (set_status a (λ s. record s { phase = PodPhase.ready }))
    update_pod_status_of a

  unfoldable pub start_pod : Pod → Exec Worker (Unit {0})
  unfolding alloc PodManager.add_pod run_pod_sand_box after_sand_box
  start_pod p = do
    a ← alloc p
    modify (λ w. record w { pod_meta = PodManager.add_pod p.name a w.pod_meta })
    r ← try (run_pod_sand_box a)
    after_sand_box p a r

  unfoldable pub add_pod : Pod → Exec Worker (Unit {0})
  unfolding pod_by_name start_pod
  add_pod p = do
    known ← gets (λ w. is_some (pod_by_name p.name w.pod_meta))
    if known then raise (pod_exists p.name) else start_pod p
