-- ===== src/Legacy.antt =====
-- pkg/apiserver/legacy.go: what the event handlers may still ask of a deleted pod.
use kuberboat.Prelude.{String, string_eq, lookup, insert, delete, Option, none, some}
use kuberboat.Core.{Deployment}
use kuberboat.ComponentManager.{get_deployment_by_pod_name}
use kuberboat.World.{World, PodLegacy}

unfoldable pub get_pod_legacy_by_name : String → World → Option PodLegacy
unfolding lookup
get_pod_legacy_by_name n w = lookup n w.pod_legacy

-- The empty name says that no deployment had the pod.
legacy_of : Option Deployment → PodLegacy
legacy_of none = record { deployment_name = "" }
legacy_of (some d) = record { deployment_name = d.name }

unfoldable pub set_pod_legacy : String → World → World
unfolding insert get_deployment_by_pod_name legacy_of
set_pod_legacy n w = record w {
  pod_legacy = insert n (legacy_of (get_deployment_by_pod_name n w.cm)) w.pod_legacy;
}

unfoldable pub delete_pod_legacy_by_name : String → World → World
unfolding delete
delete_pod_legacy_by_name n w = record w { pod_legacy = delete n w.pod_legacy }
