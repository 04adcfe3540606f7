-- ===== src/DeploymentControl/Describing.antt =====
-- pkg/apiserver/deployment/controller.go: the description of deployments, and the deletion of all of them.
use kuberboat.Prelude.{ℕ, String, Bool, if◌then◌else◌, List, [], ◌∷◌, Option, none, some}
use mathlib.Core.Option.{map}
use kuberboat.Core.{Deployment}
use kuberboat.ComponentManager.{
  ComponentManager, get_deployment_by_name, deployment_exists_by_name, list_deployments,
  list_pods_by_deployment_name,
}
use kuberboat.Exec.{pure, ◌>>◌}
use kuberboat.World.{World, Env, Api}
use kuberboat.ServiceControl.{get_pod_names}
use kuberboat.DeploymentControl.Handlers.{delete_deployment_by_name}

-- `none` is the panic on a nil list.
unfoldable pub get_deployment_pod_names : ComponentManager → String → Option (List String)
unfolding list_pods_by_deployment_name get_pod_names
get_deployment_pod_names cm n = elim (list_pods_by_deployment_name n cm) [
  | none ↦ none
  | some xs ↦ some (get_pod_names cm.heap xs)
]

-- The pods of each deployment that is described.
unfoldable pub pods_of_deployments :
    ComponentManager → List Deployment → Option (List (List String))
unfolding get_deployment_pod_names
pods_of_deployments cm [] = some []
pods_of_deployments cm (s ∷ ss) =
    let rest = pods_of_deployments cm ss in
    elim (get_deployment_pod_names cm s.name) [ none ↦ none | some xs ↦ map (λ yss. xs ∷ yss) rest ]

unfoldable pub find_deployments : ComponentManager → List String → List Deployment × List String
unfolding deployment_exists_by_name get_deployment_by_name
find_deployments cm [] = ([], [])
find_deployments cm (n ∷ ns) =
    let (found, missing) = find_deployments cm ns in
    if deployment_exists_by_name n cm
    then elim (get_deployment_by_name n cm) [
      | none ↦ (found, missing)
      | some s ↦ (s ∷ found, missing)
    ]
    else (found, n ∷ missing)

unfoldable pub describe_deployments :
    Bool → List String → World → Option (List Deployment × List (List String) × List String)
unfolding find_deployments list_deployments pods_of_deployments
describe_deployments every ns w =
    let (found, missing) =
      if every then (list_deployments w.cm, []) else find_deployments w.cm ns in
    map (λ pods. (found, pods, missing)) (pods_of_deployments w.cm found)

-- The loop over a snapshot of the deployments, which the first error ends; the fuel is that of each
-- deletion.
unfoldable pub delete_each : Env → ℕ → List Deployment → Api (Unit {0})
unfolding delete_deployment_by_name
delete_each env fuel [] = pure tt
delete_each env fuel (d ∷ ds) = do
  delete_deployment_by_name env fuel d.name
  delete_each env fuel ds

unfoldable pub delete_all_deployments : Env → ℕ → Api (Unit {0})
unfolding list_deployments delete_each
delete_all_deployments env fuel w = delete_each env fuel (list_deployments w.cm) w
