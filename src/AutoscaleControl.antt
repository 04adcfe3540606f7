-- ===== src/AutoscaleControl.antt =====
-- pkg/apiserver/scale/controller.go: the creation of an autoscaler. Its monitor, which compares
-- floating-point usages, is not modelled.
pub mod Monitored
use kuberboat.Prelude.{
  ℕ, ltb, String, Bool, true, false, if◌then◌else◌, List, [], ◌∷◌, Option, none, some,
}
use kuberboat.Core.{Deployment, HorizontalPodAutoscaler}
use kuberboat.ComponentManager.{
  ComponentManager, set_autoscaler, autoscaler_exists_by_name, get_autoscaler_by_name,
  list_autoscalers, deployment_exists_by_name, deployment_autoscaled,
}
use kuberboat.Exec.{
  Result, ok, err, autoscaler_exists, no_such_deployment, deployment_monitored, Exec, modify, ◌>>=◌,
  ◌>>◌,
}
use kuberboat.World.{World, Env, Api, clock}
use kuberboat.DeploymentControl.Scaling.{adjust}

unfoldable pub clip_deployment_replicas : HorizontalPodAutoscaler → Deployment → Deployment
clip_deployment_replicas s d =
    if ltb d.spec.replicas s.spec.min_replicas
    then record d { spec = record d.spec { replicas = s.spec.min_replicas } }
    else if ltb s.spec.max_replicas d.spec.replicas
    then record d { spec = record d.spec { replicas = s.spec.max_replicas } }
    else d

unfoldable pub stamp : ℕ → HorizontalPodAutoscaler → HorizontalPodAutoscaler
stamp t s = record s { meta = record s.meta { creation_timestamp = t } }

-- The deployment is clipped through its pointer. The monitor, which starts then, is left out.
unfoldable pub install : Env → HorizontalPodAutoscaler → Api (Unit {0})
unfolding clock stamp set_autoscaler adjust clip_deployment_replicas
install env s = do
  t ← clock env.now
  modify λ w. record w { cm = set_autoscaler (stamp t s) w.cm }
  modify (adjust s.spec.scale_target_ref.name (clip_deployment_replicas s))

unfoldable pub create_autoscaler : Env → HorizontalPodAutoscaler → Api (Unit {0})
unfolding autoscaler_exists_by_name deployment_exists_by_name deployment_autoscaled install
create_autoscaler env s w =
    if autoscaler_exists_by_name s.name w.cm
    then (err (autoscaler_exists s.name), w)
    else if deployment_exists_by_name s.spec.scale_target_ref.name w.cm
    then if deployment_autoscaled s.spec.scale_target_ref.name w.cm
      then (err (deployment_monitored s.spec.scale_target_ref.name), w)
      else install env s w
    else (err (no_such_deployment s.spec.scale_target_ref.name), w)

-- The names that exist, as autoscalers, and those that do not.
unfoldable pub find_autoscalers :
    ComponentManager → List String → List HorizontalPodAutoscaler × List String
unfolding autoscaler_exists_by_name get_autoscaler_by_name
find_autoscalers cm [] = ([], [])
find_autoscalers cm (n ∷ ns) =
    let (found, lost) = find_autoscalers cm ns in
    if autoscaler_exists_by_name n cm
    then elim (get_autoscaler_by_name n cm) [ none ↦ (found, lost) | some s ↦ (s ∷ found, lost) ]
    else (found, n ∷ lost)

unfoldable pub describe_autoscalers :
    Bool → List String → World → List HorizontalPodAutoscaler × List String
unfolding find_autoscalers list_autoscalers
describe_autoscalers every ns w =
    if every then (list_autoscalers w.cm, []) else find_autoscalers w.cm ns
