-- ===== src/Recovery/Contents.antt =====
-- What services and deployments a new API server holds when its calls succeed.
use kuberboat.Prelude.{
  ℕ, suc, String, ◌≡◌, refl, sym, ap, subst, ◌∙◌, true, string_eq, GoMap, lookup, contains, insert,
  All, All-lookup, List, [], ◌∷◌, filter, some,
}
use kuberboat.Core.{Service, Deployment}
use kuberboat.ComponentManager.{Addr, set_service, set_deployment}
use kuberboat.ComponentManager.Integrity.{Named}
use kuberboat.Exec.{Result, ok, continue, modify, ◌>>◌}
use kuberboat.World.{World, Env, Key, Value, key_eq, Api, call}
use kuberboat.Recovery.{known_pods, names_at, get_names, recover_services, recover_deployments}
use kuberboat.Recovery.Pods.{by_name}
use kuberboat.Recovery.Lists.{CleanEntry}
use kuberboat.Recovery.Coherence.{IsPlaced, set_service-IsPlaced, set_deployment-IsPlaced}
use kuberboat.Recovery.Names.{
  names_view, names_view-insert, known_pods-names, known_names, listed, HasList, names_filled,
}

-- What neither phase changes.
pub record IsKept (w v : World) : Type 0 where
  pub heap : v.cm.heap ≡ w.cm.heap
  pub etcd : v.etcd ≡ w.etcd
  pub nodes : v.nodes ≡ w.nodes
  pub current_ip : v.current_ip ≡ w.current_ip

pub record HasServices (known : GoMap String Addr) (ss : List Service) (w : World)
    (r : Result (Unit {0}) × World) : Type 0 where
  pub answer : r.0 ≡ ok tt
  pub placed : IsPlaced known r.1
  pub kept : IsKept w r.1
  pub services : r.1.cm.services ≡ by_name (λ s. s.name) (λ s. s) ss w.cm.services
  pub lists :
      names_view w.cm.heap r.1.cm.services_to_pods
      ≡ names_filled
          (λ (s : Service). s.name)
          (λ s. Key.services_pods s.name)
          known
          w.etcd
          ss
          (names_view w.cm.heap w.cm.services_to_pods)
  pub deployments : r.1.cm.deployments ≡ w.cm.deployments
  pub deployment_lists : r.1.cm.deployment_to_pods ≡ w.cm.deployment_to_pods

pub record HasDeployments (known : GoMap String Addr) (ds : List Deployment) (w : World)
    (r : Result (Unit {0}) × World) : Type 0 where
  pub answer : r.0 ≡ ok tt
  pub placed : IsPlaced known r.1
  pub kept : IsKept w r.1
  pub deployments : r.1.cm.deployments ≡ by_name (λ d. d.name) (λ d. d) ds w.cm.deployments
  pub lists :
      names_view w.cm.heap r.1.cm.deployment_to_pods
      ≡ names_filled
          (λ (d : Deployment). d.name)
          (λ d. Key.deployments_pods d.name)
          known
          w.etcd
          ds
          (names_view w.cm.heap w.cm.deployment_to_pods)
  pub services : r.1.cm.services ≡ w.cm.services
  pub service_lists : r.1.cm.services_to_pods ≡ w.cm.services_to_pods

-- A list of a service or a deployment that joins the lists.
joined :
    (known : GoMap String Addr) (w : World) (ns : List String) (k : Key) (n : String)
    (lists : GoMap String (List Addr))
    → IsPlaced known w
    → lookup k w.etcd ≡ some (Value.names ns)
    → names_view w.cm.heap (insert n (known_pods known ns) lists)
      ≡ insert n (known_names known w.etcd k) (names_view w.cm.heap lists)
joined known w ns k n lists p q =
    names_view-insert w.cm.heap n (known_pods known ns) lists
    ∙ ap (λ l. insert n l (names_view w.cm.heap lists))
        (known_pods-names w.cm.heap known ns
            (subst (All (Named w.cm.heap)) (sym p.same) p.coherent.pods_named)
          ∙ ap (λ f. filter (λ j. contains j known) (listed f)) (sym q))

module _ (env : Env) (status : ℕ → ℕ) (up : (i : ℕ) → env.succeeds i ≡ true)
    (known : GoMap String Addr) where
  get_names-found :
      (k : Key) (n : String) (ns : List String) (w : World)
      → lookup k w.etcd ≡ some (Value.names ns)
      → get_names env k n w ≡ (ok ns, record w { calls = suc w.calls })
  unfolding get_names call names_at
  get_names-found k n ns w q = rw (up w.calls, q) refl

  counted-IsPlaced :
      (w : World) → IsPlaced known w → IsPlaced known (record w { calls = suc w.calls })
  counted-IsPlaced w p = record { coherent = p.coherent; same = p.same; clean = p.clean }

  pub recover_services-HasServices :
      (ss : List Service) (w : World)
      → IsPlaced known w
      → All (λ (s : Service). HasList w.etcd (Key.services_pods s.name)) ss
      → HasServices known ss w (recover_services env status known ss w)
  unfolding recover_services set_service
  recover_services-HasServices [] w p has = record {
    answer = refl;
    placed = p;
    kept = record { heap = refl; etcd = refl; nodes = refl; current_ip = refl };
    services = refl;
    lists = refl;
    deployments = refl;
    deployment_lists = refl;
  }
  recover_services-HasServices (s ∷ ss) w p has =
      let once = All-lookup CleanEntry (Key.services_pods s.name) w.etcd p.clean has.0.1 in
      let xs = known_pods known has.0.0 in
      let v = record w { calls = suc w.calls; cm = set_service s xs w.cm } in
      let ih =
        recover_services-HasServices ss v
          (set_service-IsPlaced s known has.0.0 (record w { calls = suc w.calls })
            (counted-IsPlaced w p) once)
          has.1 in
      subst (λ r. HasServices known (s ∷ ss) w (continue next r))
        (sym (get_names-found (Key.services_pods s.name) s.name has.0.0 w has.0.1))
        (record {
          answer = ih.answer;
          placed = ih.placed;
          kept = record {
            heap = ih.kept.heap;
            etcd = ih.kept.etcd;
            nodes = ih.kept.nodes;
            current_ip = ih.kept.current_ip;
          };
          services = ih.services;
          lists =
              ih.lists
              ∙ ap
                  (names_filled (λ (s : Service). s.name) (λ s. Key.services_pods s.name) known
                    w.etcd ss)
                  (joined known w has.0.0 (Key.services_pods s.name) s.name w.cm.services_to_pods p
                    has.0.1);
          deployments = ih.deployments;
          deployment_lists = ih.deployment_lists;
        })
    where
      next : List String → Api (Unit {0})
      next ns =
          modify (λ (v : World). record v { cm = set_service s (known_pods known ns) v.cm })
          >> recover_services env status known ss

  pub recover_deployments-HasDeployments :
      (ds : List Deployment) (w : World)
      → IsPlaced known w
      → All (λ (d : Deployment). HasList w.etcd (Key.deployments_pods d.name)) ds
      → HasDeployments known ds w (recover_deployments env status known ds w)
  unfolding recover_deployments set_deployment
  recover_deployments-HasDeployments [] w p has = record {
    answer = refl;
    placed = p;
    kept = record { heap = refl; etcd = refl; nodes = refl; current_ip = refl };
    deployments = refl;
    lists = refl;
    services = refl;
    service_lists = refl;
  }
  recover_deployments-HasDeployments (d ∷ ds) w p has =
      let once = All-lookup CleanEntry (Key.deployments_pods d.name) w.etcd p.clean has.0.1 in
      let xs = known_pods known has.0.0 in
      let v = record w { calls = suc w.calls; cm = set_deployment d xs w.cm } in
      let ih =
        recover_deployments-HasDeployments ds v
          (set_deployment-IsPlaced d known has.0.0 (record w { calls = suc w.calls })
            (counted-IsPlaced w p) once)
          has.1 in
      subst (λ r. HasDeployments known (d ∷ ds) w (continue next r))
        (sym (get_names-found (Key.deployments_pods d.name) d.name has.0.0 w has.0.1))
        (record {
          answer = ih.answer;
          placed = ih.placed;
          kept = record {
            heap = ih.kept.heap;
            etcd = ih.kept.etcd;
            nodes = ih.kept.nodes;
            current_ip = ih.kept.current_ip;
          };
          services = ih.services;
          lists =
              ih.lists
              ∙ ap
                  (names_filled (λ (d : Deployment). d.name) (λ d. Key.deployments_pods d.name)
                    known w.etcd ds)
                  (joined known w has.0.0 (Key.deployments_pods d.name) d.name
                    w.cm.deployment_to_pods p has.0.1);
          deployments = ih.deployments;
          service_lists = ih.service_lists;
        })
    where
      next : List String → Api (Unit {0})
      next ns =
          modify (λ (v : World). record v { cm = set_deployment d (known_pods known ns) v.cm })
          >> recover_deployments env status known ds
