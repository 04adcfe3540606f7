-- ===== src/Tests/Recovery.antt =====
-- Examples for a new API server.
use kuberboat.Prelude.{
  ◌≡◌, inl, inr, some, IsMap, ◌≢◌, refl, String, ◌==◌, nat_eq, lookup, contains, GoMap, All, [],
  ◌∷◌,
}
use kuberboat.ComponentManager.Integrity.{IsCoherent}
use kuberboat.World.{World, Key, Value, key_eq, key_beq}
use kuberboat.Recovery.{stored, as_pod, as_node, as_service, as_deployment, recover}
use kuberboat.Recovery.Pods.{by_name}
use kuberboat.Recovery.Lists.{CleanEntry}
use kuberboat.Recovery.Nodes.{entry}
use kuberboat.Recovery.Safety.{recover-IsCoherent}
use kuberboat.Recovery.Restored.{IsConsistent, IsRestored}
use kuberboat.Recovery.Restoring.{recover-IsRestored}
use kuberboat.Core.{Pod}
use kuberboat.ComponentManager.{new_component_manager}
use kuberboat.Nodes.{registered_nodes}
use kuberboat.Exec.{ok}
use kuberboat.PodControl.{create_pod, fill}
use kuberboat.PodControl.Creation.{IsRequested}
use kuberboat.Recovery.Durable.{cached, FitsPod, recover-create_pod}
use kuberboat.Tests.{env, env_failing, empty_world, worker, web, front, shop}

-- One worker, one pod, a service whose list has a pod that is gone, and a deployment.
abbrev saved : GoMap Key Value
saved =
    (Key.nodes "n1", Value.node (worker "n1" "10.0.0.1" 5))
    ∷ (Key.pods "web", Value.pod web)
    ∷ (Key.services_meta "front", Value.service front)
    ∷ (Key.services_pods "front", Value.names ("web" ∷ "gone" ∷ []))
    ∷ (Key.deployments_meta "shop", Value.deployment (shop 1))
    ∷ (Key.deployments_pods "shop", Value.names ("web" ∷ []))
    ∷ (Key.ip_assigner, Value.ip (record { o0 = 240; o1 = 0; o2 = 1; o3 = 7 }))
    ∷ []

abbrev restarted : World
restarted = record empty_world { nodes = []; etcd = saved }

abbrev gone : String
gone = "gone"

web_is_other : web.name ≢ gone
web_is_other e = cc

saved-Clean : All CleanEntry saved
saved-Clean = (tt, (tt, (tt, (((web_is_other, tt), (tt, tt)), (tt, ((tt, tt), (tt, tt)))))))

saved-IsConsistent : IsConsistent saved
unfolding stored as_node as_service as_deployment lookup key_beq
saved-IsConsistent = record {
  nodes = (tt, tt);
  clean = saved-Clean;
  services = (("web" ∷ "gone" ∷ [], refl), tt);
  deployments = (("web" ∷ [], refl), tt);
}

recover-IsRestored_example :
    IsRestored saved
      (by_name (λ n. n.name) entry (stored as_node saved) [])
      restarted.current_ip
      (recover env (λ i. 0) restarted)
recover-IsRestored_example =
    recover-IsRestored env (λ i. 0) (λ i. refl) (λ i. refl) restarted refl refl saved-IsConsistent

-- The worker answers 1, and the file of the targets cannot be written.
recover-IsCoherent_example :
    IsCoherent (recover (env_failing (λ n. n == 5)) (λ i. 1) restarted).1.cm
recover-IsCoherent_example =
    recover-IsCoherent (env_failing (λ n. n == 5)) (λ i. 1) restarted refl saved-Clean

abbrev begun : World
begun = record empty_world { etcd = (Key.nodes "n1", Value.node (worker "n1" "10.0.0.1" 5)) ∷ [] }

abbrev replaced : World
replaced = record empty_world { nodes = []; etcd = (create_pod env web begun).1.etcd }

web_created : (create_pod env web begun).0 ≡ ok 0
unfolding create_pod new_component_manager registered_nodes
web_created = refl

replaced-IsConsistent : IsConsistent replaced.etcd
unfolding create_pod stored as_node as_service as_deployment new_component_manager registered_nodes
    key_beq
replaced-IsConsistent = record {
  nodes = (tt, tt);
  clean = (tt, (tt, tt));
  services = tt;
  deployments = tt;
}

replaced-IsMap : IsMap replaced.etcd
unfolding create_pod new_component_manager registered_nodes contains key_beq
replaced-IsMap = (refl, (refl, tt))

replaced-FitsPod : All FitsPod replaced.etcd
unfolding create_pod as_pod new_component_manager registered_nodes key_beq
replaced-FitsPod = (inl refl, (inr (fill "aaaaaaaa" 1 "10.0.0.2" web, refl, refl), tt))

recover-create_pod_example :
    (q : Pod) × IsRequested web q
    × (cached "web" (create_pod env web begun).1.cm ≡ some q)
    × (cached "web" (recover env (λ i. 0) replaced).1.cm ≡ some q)
recover-create_pod_example =
    recover-create_pod env env (λ i. 0) web begun replaced 0 web_created (λ i. refl) (λ i. refl)
      refl refl refl replaced-IsConsistent replaced-IsMap replaced-FitsPod
