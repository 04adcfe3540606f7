-- ===== src/Worker/Stopping.antt =====
-- `DeletePodByName` of pkg/kubelet/kubelet.go.
use kuberboat.Prelude.{String, true, List, [], ◌∷◌, Option, none, some}
use kuberboat.Core.{Pod}
use kuberboat.Exec.{no_such_pod, Result, ok, err, Exec, pure, raise, gets, modify, ◌>>=◌, ◌>>◌, try}
use kuberboat.PodManager.{
  pod_by_name, containers_by_pod, sand_box_by_pod, volumes_by_pod, delete_pod_containers,
  delete_pod_volumes,
}
use kuberboat.PodManager
use kuberboat.Worker.{
  Worker, Env, container_stop, container_remove, volume_remove, deref, docker, notify_deletion,
}
use kuberboat.Prelude.{ℕ}

module _ (env : Env) where
  unfoldable pub stop_container : String → Exec Worker (Unit {0})
  unfolding docker
  stop_container c = do docker env (container_stop c); docker env (container_remove c)

  unfoldable pub stop_containers : List String → Exec Worker (Unit {0})
  unfolding stop_container
  stop_containers [] = pure tt
  stop_containers (c ∷ cs) = do stop_container c; stop_containers cs

  unfoldable pub remove_volumes : List String → Exec Worker (Unit {0})
  unfolding docker
  remove_volumes [] = pure tt
  remove_volumes (v ∷ vs) = do docker env (volume_remove v); remove_volumes vs

  unfoldable pub stop_sand_box : Option String → Exec Worker (Unit {0})
  unfolding stop_container
  stop_sand_box none = pure tt
  stop_sand_box (some c) = stop_container c

  -- What stands between the two changes of the managers.
  unfoldable pub stop_pod : ℕ → Exec Worker (Unit {0})
  unfolding containers_by_pod sand_box_by_pod volumes_by_pod delete_pod_containers
      delete_pod_volumes stop_containers stop_sand_box remove_volumes
  stop_pod a = do
    containers ← gets (λ w. containers_by_pod a w.runtime)
    stop_containers containers
    sand_box ← gets (λ w. sand_box_by_pod a w.runtime)
    stop_sand_box sand_box
    modify (λ w. record w { runtime = delete_pod_containers a w.runtime })
    volumes ← gets (λ w. volumes_by_pod a w.runtime)
    remove_volumes volumes
    modify (λ w. record w { runtime = delete_pod_volumes a w.runtime })

  unfoldable pub delete_known : String → Option ℕ → Exec Worker (Unit {0})
  unfolding PodManager.delete_pod_by_name stop_pod
  delete_known n none = raise (no_such_pod n)
  delete_known n (some a) = do
    modify (λ w. record w { pod_meta = PodManager.delete_pod_by_name n w.pod_meta })
    stop_pod a

  -- The pod that the deferred call has, or nil.
  unfoldable pub deferred_pod : Option ℕ → Worker → Option Pod
  deferred_pod none w = none
  deferred_pod (some a) w = some (deref a w)

  unfoldable pub give_back : Result (Unit {0}) → Exec Worker (Unit {0})
  give_back (ok u) = pure tt
  give_back (err e) = raise e

  -- The deferred call has the value that `err` had when it was deferred, nil.
  unfoldable pub delete_pod_by_name : String → Exec Worker (Unit {0})
  unfolding pod_by_name delete_known deferred_pod notify_deletion give_back
  delete_pod_by_name n = do
    a ← gets (λ w. pod_by_name n w.pod_meta)
    r ← try (delete_known n a)
    p ← gets (deferred_pod a)
    notify_deletion true p
    give_back r
