-- ===== src/Tests/Workers.antt =====
-- Examples for jobs and for the worker's monitor.
use kuberboat.Prelude.{◌≢◌, ◌-◌, ◌≡◌, refl, lookup, string_eq, some, [], ◌∷◌}
use kuberboat.Core.{Kind, Job, PodPhase, PodStatus}
use kuberboat.ComponentManager.{new_component_manager}
use kuberboat.ComponentManager.Integrity.{IsCoherent}
use kuberboat.Exec.{ok}
use kuberboat.World.{World}
use kuberboat.Nodes.{registered_nodes}
use kuberboat.JobControl.{apply_job, fails}
use kuberboat.JobControl.Retries.{fails-budget}
use kuberboat.Kubelet.{monitor_pod, exited}
use kuberboat.Kubelet.Phases.{FailedOrSame, monitor_pod-FailedOrSame}
use kuberboat.ComponentManager.{deref, get_pod_by_name}
use kuberboat.PodControl.{create_pod, update_pod_status}
use kuberboat.Events.{report}
use kuberboat.Events.Reports.{report-IsCoherent}
use kuberboat.NodeControl.{pending, register}
use kuberboat.NodeControl.Rollback.{Registered, register-Registered}
use kuberboat.Tests.{
  env, worker, empty_world, one_ready, web, meta, ready_status, one_ready-IsCoherent,
}

abbrev matrix : Job
matrix = record {
  kind = Kind.job;
  meta = meta "matrix" [];
  cuda_path = "";
  script_path = "";
  cuda_data = [];
  script_data = [];
}

abbrev submitted : World
submitted = (apply_job env matrix empty_world).1

budget : lookup "matrix" submitted.retry_budget ≡ some 3
unfolding apply_job new_component_manager registered_nodes
budget = refl

come_through : (fails env 2 "matrix" submitted).0 ≡ ok tt
unfolding apply_job fails new_component_manager registered_nodes
come_through = refl

fails-budget_example :
    lookup "matrix" (fails env 2 "matrix" submitted).1.retry_budget ≡ some (3 - 2)
fails-budget_example = fails-budget env 2 "matrix" 3 submitted budget come_through

-- The one container of a ready pod has exited with code 0.
monitor_pod-FailedOrSame_example :
    FailedOrSame
      (record web { status = ready_status })
      (monitor_pod (some (exited (some 0) ∷ [])) (record web { status = ready_status }))
monitor_pod-FailedOrSame_example =
    monitor_pod-FailedOrSame (some (exited (some 0) ∷ [])) (record web { status = ready_status })

abbrev broken : PodStatus
broken = record ready_status { phase = PodPhase.failed; running_containers = 0 }

not_ready : broken.phase ≢ PodPhase.ready
not_ready e = cc

report-IsCoherent_example : IsCoherent (report env "web" broken one_ready).1.cm
report-IsCoherent_example =
    report-IsCoherent env "web" broken one_ready not_ready one_ready-IsCoherent

abbrev busier : PodStatus
busier = record ready_status { running_containers = 2 }

known : get_pod_by_name "web" one_ready.cm ≡ some 0
unfolding create_pod update_pod_status new_component_manager registered_nodes get_pod_by_name
known = refl

still_ready : (deref one_ready.cm.heap 0).status.phase ≡ busier.phase
unfolding create_pod update_pod_status new_component_manager registered_nodes deref
still_ready = refl

-- The worker answers 1, so it is not entered, although there is no error.
register-Registered_example :
    Registered
      (pending "bbbbbbbb" 0 "10.0.0.3" (worker "n3" "" 0))
      empty_world
      1
      (register env (λ i. 1) "10.0.0.3" (worker "n3" "" 0) empty_world)
register-Registered_example =
    register-Registered env (λ i. 1) "10.0.0.3" (worker "n3" "" 0) empty_world
