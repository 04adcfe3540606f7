-- ===== src/ServiceControl/Describing.antt =====
-- pkg/apiserver/service/controller.go: the description of services, and the address that the
-- recovery sets.
use kuberboat.Prelude.{String, Bool, if◌then◌else◌, List, [], ◌∷◌, Option, none, some}
use mathlib.Core.Option.{map}
use kuberboat.Core.{Service}
use kuberboat.ComponentManager.{
  ComponentManager, get_service_by_name, service_exists_by_name, list_services,
  list_pods_by_service_name,
}
use kuberboat.World.{World, Ip}
use kuberboat.ServiceControl.{get_pod_names}

-- `none` is the panic on a nil list.
unfoldable pub get_service_pod_names : ComponentManager → String → Option (List String)
unfolding list_pods_by_service_name get_pod_names
get_service_pod_names cm n = elim (list_pods_by_service_name n cm) [
  | none ↦ none
  | some xs ↦ some (get_pod_names cm.heap xs)
]

-- The pods of each service that is described.
unfoldable pub pods_of_services : ComponentManager → List Service → Option (List (List String))
unfolding get_service_pod_names
pods_of_services cm [] = some []
pods_of_services cm (s ∷ ss) =
    let rest = pods_of_services cm ss in
    elim (get_service_pod_names cm s.name) [ none ↦ none | some xs ↦ map (λ yss. xs ∷ yss) rest ]

unfoldable pub find_services : ComponentManager → List String → List Service × List String
unfolding service_exists_by_name get_service_by_name
find_services cm [] = ([], [])
find_services cm (n ∷ ns) =
    let (found, missing) = find_services cm ns in
    if service_exists_by_name n cm
    then elim (get_service_by_name n cm) [ none ↦ (found, missing) | some s ↦ (s ∷ found, missing) ]
    else (found, n ∷ missing)

unfoldable pub describe_services :
    Bool → List String → World → Option (List Service × List (List String) × List String)
unfolding find_services list_services pods_of_services
describe_services every ns w =
    let (found, missing) = if every then (list_services w.cm, []) else find_services w.cm ns in
    map (λ pods. (found, pods, missing)) (pods_of_services w.cm found)

unfoldable pub set_current_ip : Ip → World → World
set_current_ip ip w = record w { current_ip = ip }
