-- ===== src/Recovery/Restored.antt =====
-- What a new API server should hold after a recovery: what etcd holds.
use kuberboat.Prelude.{
  NoneTwice, suc, String, ◌≡◌, sym, ap, ◌∙◌, string_eq, GoMap, All, List, [], ◌∷◌, map,
}
use kuberboat.Core.{Service, Deployment}
use kuberboat.ComponentManager.{Addr}
use kuberboat.Exec.{Result, ok}
use kuberboat.World.{World, Key, Value, Ip, NodeWithClient}
use kuberboat.Recovery.{stored, as_node, as_pod, as_service, as_deployment, as_ip}
use kuberboat.Recovery.Pods.{IsLoaded, pods_by_name, by_name, view}
use kuberboat.Recovery.Lists.{CleanEntry}
use kuberboat.Recovery.Names.{HasList, names_view, names_filled}
use kuberboat.Recovery.Contents.{HasServices, HasDeployments}

-- What is asked of etcd: no node has the name of another, each service and deployment
-- has its list, and no list has a name twice.
pub record IsConsistent (m : GoMap Key Value) : Type 0 where
  pub nodes : NoneTwice (map (λ n. n.name) (stored as_node m))
  pub clean : All CleanEntry m
  pub services : All (λ (s : Service). HasList m (Key.services_pods s.name)) (stored as_service m)
  pub deployments :
      All (λ (d : Deployment). HasList m (Key.deployments_pods d.name)) (stored as_deployment m)

abbrev pub last_or : List Ip → Ip → Ip
last_or [] ip = ip
last_or (x ∷ xs) ip = last_or xs x

-- The maps of the names of pods that etcd has for the services and for the deployments.
abbrev pub service_names : GoMap String Addr → GoMap Key Value → GoMap String (List String)
service_names known m =
    names_filled (λ (s : Service). s.name) (λ s. Key.services_pods s.name) known m
      (stored as_service m) []

abbrev pub deployment_names : GoMap String Addr → GoMap Key Value → GoMap String (List String)
deployment_names known m =
    names_filled (λ (d : Deployment). d.name) (λ d. Key.deployments_pods d.name) known m
      (stored as_deployment m) []

-- The method returns, and the server holds what etcd holds: pods, services and deployments by their
-- names, their lists with the names of the pods that exist, the last address of a service.
pub record IsRestored (m : GoMap Key Value) (nodes : GoMap String NodeWithClient) (ip : Ip)
    (r : Result (Unit {0}) × World) : Type 0 where
  pub answer : r.0 ≡ ok tt
  pub registry : r.1.nodes ≡ nodes
  pub current_ip : r.1.current_ip ≡ last_or (stored as_ip m) ip
  pub pods : view r.1.cm.heap r.1.cm.pods ≡ pods_by_name (stored as_pod m) []
  pub services : r.1.cm.services ≡ by_name (λ s. s.name) (λ s. s) (stored as_service m) []
  pub service_lists : names_view r.1.cm.heap r.1.cm.services_to_pods ≡ service_names r.1.cm.pods m
  pub deployments : r.1.cm.deployments ≡ by_name (λ d. d.name) (λ d. d) (stored as_deployment m) []
  pub deployment_lists :
      names_view r.1.cm.heap r.1.cm.deployment_to_pods ≡ deployment_names r.1.cm.pods m

-- The two phases put together, from a cache that has only pods.
module _ (known : GoMap String Addr) (ip : Ip) (w : World)
    (loaded : IsLoaded (pods_by_name (stored as_pod w.etcd) []) known w.cm)
    (address : w.current_ip ≡ last_or (stored as_ip w.etcd) ip)
    (first last : Result (Unit {0}) × World)
    (s : HasServices known (stored as_service w.etcd) w first)
    (d : HasDeployments known
      (stored as_deployment first.1.etcd)
      (record first.1 { calls = suc first.1.calls })
      last) where
  service_names_step :
      names_view last.1.cm.heap last.1.cm.services_to_pods ≡ service_names last.1.cm.pods w.etcd
  service_names_step =
      ap (λ h. names_view h last.1.cm.services_to_pods) (d.kept.heap ∙ s.kept.heap)
      ∙ ap (names_view w.cm.heap) d.service_lists
      ∙ s.lists
      ∙ ap
          (λ l.
            names_filled (λ (s : Service). s.name) (λ s. Key.services_pods s.name) known w.etcd
              (stored as_service w.etcd) (names_view w.cm.heap l))
          loaded.no_service_lists
      ∙ ap (λ k. service_names k w.etcd) d.placed.same

  deployment_names_step :
      names_view last.1.cm.heap last.1.cm.deployment_to_pods
      ≡ deployment_names last.1.cm.pods w.etcd
  deployment_names_step =
      ap (λ h. names_view h last.1.cm.deployment_to_pods) d.kept.heap
      ∙ d.lists
      ∙ ap
          (λ l.
            names_filled (λ (d : Deployment). d.name) (λ d. Key.deployments_pods d.name) known
              first.1.etcd (stored as_deployment first.1.etcd) (names_view first.1.cm.heap l))
          (s.deployment_lists ∙ loaded.no_deployment_lists)
      ∙ ap (deployment_names known) s.kept.etcd
      ∙ ap (λ k. deployment_names k w.etcd) d.placed.same

  pub both-IsRestored : IsRestored w.etcd w.nodes ip last
  both-IsRestored = record {
    answer = d.answer;
    registry = d.kept.nodes ∙ s.kept.nodes;
    current_ip = d.kept.current_ip ∙ s.kept.current_ip ∙ address;
    pods =
        ap (λ h. view h last.1.cm.pods) (d.kept.heap ∙ s.kept.heap)
        ∙ ap (view w.cm.heap) (sym d.placed.same ∙ loaded.same)
        ∙ loaded.viewed;
    services =
        d.services
        ∙ s.services
        ∙ ap (by_name (λ s. s.name) (λ s. s) (stored as_service w.etcd)) loaded.no_services;
    service_lists = service_names_step;
    deployments =
        d.deployments
        ∙ ap (by_name (λ d. d.name) (λ d. d) (stored as_deployment first.1.etcd))
            (s.deployments ∙ loaded.no_deployments)
        ∙ ap (λ m. by_name (λ d. d.name) (λ d. d) (stored as_deployment m) []) s.kept.etcd;
    deployment_lists = deployment_names_step;
  }
