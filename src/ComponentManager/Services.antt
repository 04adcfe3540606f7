-- ===== src/ComponentManager/Services.antt =====
-- pkg/apiserver/component.go: the methods on services, DNS configurations and autoscalers.
use kuberboat.Prelude.{
  String, Bool, string_eq, lookup, contains, insert, delete, values, filter, map, List, [], ◌∷◌,
  ◌++◌, Option, none, some,
}
use kuberboat.Core.{Service, Dns, HorizontalPodAutoscaler, Labels}
use kuberboat.Util.{is_subset}
use kuberboat.ComponentManager.State.{ComponentManager, Addr}

unfoldable pub set_service : Service → List Addr → ComponentManager → ComponentManager
unfolding insert
set_service s xs cm = record cm {
  services_to_pods = insert s.name xs cm.services_to_pods;
  services = insert s.name s cm.services;
}

unfoldable pub delete_service_by_name : String → ComponentManager → ComponentManager
unfolding delete
delete_service_by_name n cm = record cm {
  services_to_pods = delete n cm.services_to_pods;
  services = delete n cm.services;
}

-- `none` is the panic of `PushBack` on the nil list of an unknown service.
unfoldable pub add_pod_to_service : String → Addr → ComponentManager → Option ComponentManager
unfolding lookup insert
add_pod_to_service n a cm = elim (lookup n cm.services_to_pods) [
  | none ↦ none
  | some xs ↦ some (record cm { services_to_pods = insert n (xs ++ a ∷ []) cm.services_to_pods })
]

unfoldable pub get_service_by_name : String → ComponentManager → Option Service
unfolding lookup
get_service_by_name n cm = lookup n cm.services

unfoldable pub service_exists_by_name : String → ComponentManager → Bool
unfolding contains
service_exists_by_name n cm = contains n cm.services

unfoldable pub list_services : ComponentManager → List Service
list_services cm = values cm.services

unfoldable pub list_services_by_labels : Labels → ComponentManager → List String
list_services_by_labels ls cm =
    map (λ s. s.name) (filter (λ s. is_subset s.spec.selector ls) (values cm.services))

unfoldable pub list_pods_by_service_name : String → ComponentManager → Option (List Addr)
unfolding lookup
list_pods_by_service_name n cm = lookup n cm.services_to_pods

unfoldable pub set_dns : Dns → ComponentManager → ComponentManager
unfolding insert
set_dns d cm = record cm { dns = insert d.name d cm.dns }

unfoldable pub dns_exists_by_name : String → ComponentManager → Bool
unfolding contains
dns_exists_by_name n cm = contains n cm.dns

unfoldable pub delete_dns_by_name : String → ComponentManager → ComponentManager
unfolding delete
delete_dns_by_name n cm = record cm { dns = delete n cm.dns }

unfoldable pub get_dns_by_name : String → ComponentManager → Option Dns
unfolding lookup
get_dns_by_name n cm = lookup n cm.dns

unfoldable pub list_dns : ComponentManager → List Dns
list_dns cm = values cm.dns

unfoldable pub set_autoscaler : HorizontalPodAutoscaler → ComponentManager → ComponentManager
unfolding insert
set_autoscaler s cm = record cm { autoscalers = insert s.name s cm.autoscalers }

unfoldable pub delete_autoscaler_by_name : String → ComponentManager → ComponentManager
unfolding delete
delete_autoscaler_by_name n cm = record cm { autoscalers = delete n cm.autoscalers }

unfoldable pub autoscaler_exists_by_name : String → ComponentManager → Bool
unfolding contains
autoscaler_exists_by_name n cm = contains n cm.autoscalers

unfoldable pub list_autoscalers : ComponentManager → List HorizontalPodAutoscaler
list_autoscalers cm = values cm.autoscalers

unfoldable pub get_autoscaler_by_name : String → ComponentManager → Option HorizontalPodAutoscaler
unfolding lookup
get_autoscaler_by_name n cm = lookup n cm.autoscalers
