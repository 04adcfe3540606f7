-- ===== src/DeploymentControl/Scaling.antt =====
-- pkg/apiserver/deployment/controller.go: the pods that a deployment gains and loses. The list of
-- the deployment and the deployment itself are reached by pointers, which the maps of the cache
-- hold, so each step reads them there anew.
pub mod Coherence
pub mod Losing
pub mod Gaining
pub mod Adding
use Prim.Native.String.{◌++◌ as str_append, slice}
use kuberboat.Prelude.{
  ℕ, zero, suc, ◌-◌, String, Bool, true, false, string_eq, lookup, insert, length, List, [], ◌∷◌,
  Option, none, some, if◌then◌else◌,
}
use kuberboat.Core.{Pod, blank_pod, Deployment}
use kuberboat.ComponentManager.{
  ComponentManager, Addr, deref, name_of, get_deployment_by_name, list_pods_by_deployment_name,
  push_deployment_pod,
}
use kuberboat.Exec.{
  Result, ok, err, panic, Exec, pure, raise, gets, modify, attempt, log_error, ◌>>=◌, ◌>>◌,
}
use kuberboat.World.{World, Env, Api, Key, Value, etcd_put, draw}
use kuberboat.PodControl.{create_pod, delete_pod_by_name}
use kuberboat.ServiceControl.{get_pod_names}
use kuberboat.DeploymentControl.{inc32, update_status_on_pod_removal, find_outdated_pods}

-- `d.Name + "-" + specHash[0:10] + "-" + uuid.NewString()[0:5]`
unfoldable pub get_pod_name : String → String → String → String
get_pod_name name hash id =
    str_append name (str_append "-" (str_append (slice hash 0 10) (str_append "-" (slice id 0 5))))

-- A change of the deployment through its pointer.
unfoldable pub adjust : String → (Deployment → Deployment) → World → World
unfolding lookup insert
adjust n f w = elim (lookup n w.cm.deployments) [
  | none ↦ w
  | some d ↦ record w { cm = record w.cm { deployments = insert n (f d) w.cm.deployments } }
]

unfoldable pub count_one : Deployment → Deployment
unfolding inc32
count_one d = record d { status = record d.status { replicas = inc32 d.status.replicas } }

unfoldable pub from_template : Deployment → String → String → Pod
unfolding get_pod_name
from_template d hash id = record blank_pod {
  meta = record blank_pod.meta {
    name = get_pod_name d.name hash id;
    labels = d.spec.template.labels;
  };
  spec = d.spec.template.spec;
}

unfoldable pub push : String → Addr → World → World
unfolding push_deployment_pod
push n a w = record w { cm = push_deployment_pod n a w.cm }

-- The back of the list.
unfoldable pub back : List Addr → Option Addr
back [] = none
back (a ∷ []) = some a
back (a ∷ b ∷ xs) = back (b ∷ xs)

unfoldable pub back_of : String → World → Option Addr
unfolding back list_pods_by_deployment_name
back_of n w = elim (list_pods_by_deployment_name n w.cm) [ none ↦ none | some xs ↦ back xs ]

module _ (env : Env) where
  unfoldable pub add_pod : Deployment → String → Api (Unit {0})
  unfolding draw from_template create_pod adjust count_one push
  add_pod d hash = do
    id ← draw env.uuid
    a ← create_pod env (from_template d hash id)
    modify (adjust d.name count_one)
    modify (push d.name a)

  -- A pod that cannot be created is passed over.
  unfoldable pub add_pods : ℕ → Deployment → String → Api (Unit {0})
  unfolding add_pod
  add_pods zero d hash = pure tt
  add_pods (suc k) d hash = do attempt (add_pod d hash); add_pods k d hash

  -- What etcd is told of the deployment and of its list after a change; errors are only logged.
  unfoldable pub save : String → Api (Unit {0})
  unfolding get_deployment_by_name list_pods_by_deployment_name etcd_put get_pod_names
  save n w = elim (get_deployment_by_name n w.cm) [
    | none ↦ (ok tt, w)
    | some d ↦ elim (list_pods_by_deployment_name n w.cm) [
      | none ↦ (ok tt, w)
      | some xs ↦
          (do
            log_error (etcd_put env (Key.deployments_meta n) (Value.deployment d))
            log_error
                (etcd_put env (Key.deployments_pods n) (Value.names (get_pod_names w.cm.heap xs))))
            w
    ]
  ]

  unfoldable pub more_pods : Deployment → ℕ → Api (Unit {0})
  unfolding add_pods save
  more_pods d k = do
    add_pods k d (env.hash_template d.spec.template.labels d.spec.template.spec)
    save d.name

  -- The deletion changes the list of the deployment too.
  unfoldable pub delete_deployment_pod : String → Addr → Api (Unit {0})
  unfolding delete_pod_by_name insert adjust update_status_on_pod_removal deref
  delete_deployment_pod n a = do
    name ← gets (λ w. name_of w.cm.heap a)
    delete_pod_by_name env name
    modify λ w. record w { expect_deleted_pod = insert name tt w.expect_deleted_pod }
    modify λ w. adjust n (λ d. update_status_on_pod_removal env d (deref w.cm.heap a)) w

  -- The first loop of `fewerPods`, over a snapshot of the outdated pods.
  unfoldable pub delete_outdated : String → ℕ → List Addr → Api (Unit {0})
  unfolding delete_deployment_pod
  delete_outdated n zero xs = pure tt
  delete_outdated n (suc k) [] = pure tt
  delete_outdated n (suc k) (a ∷ xs) = do
    attempt (delete_deployment_pod n a)
    delete_outdated n k xs

  unfoldable pub delete_back : String → Option Addr → Api (Unit {0})
  unfolding delete_deployment_pod
  delete_back n none = raise panic
  delete_back n (some a) = attempt (delete_deployment_pod n a)

  -- The second loop. An empty list has no back, and its nil element is followed.
  unfoldable pub delete_latest : String → ℕ → Api (Unit {0})
  unfolding delete_back back_of
  delete_latest n zero = pure tt
  delete_latest n (suc k) = do last ← gets (back_of n); delete_back n last; delete_latest n k

  unfoldable pub fewer_pods : Deployment → List Addr → ℕ → Api (Unit {0})
  unfolding find_outdated_pods delete_outdated delete_latest save
  fewer_pods d xs k = do
    outdated ← gets (λ w. find_outdated_pods env w.cm.heap d xs)
    delete_outdated d.name k outdated
    delete_latest d.name (k - length outdated)
    save d.name
