-- ===== src/DeploymentControl/Scaling/Adding.antt =====
-- What the loop of `morePods` adds to the list of a deployment.
use kuberboat.Prelude.{ℕ, zero, suc, ◌+◌, String, ◌≡◌, refl, subst, string_eq, List, arith}
use kuberboat.Core.{Deployment}
use kuberboat.ComponentManager.{Addr, Heap}
use kuberboat.Exec.{Result, ok, err, continue, attempt}
use kuberboat.Exec.Keeps.{continue_cases}
use kuberboat.World.{World, Env}
use kuberboat.PodControl.{create_pod}
use kuberboat.PodControl.Creation.{create_pod-Created}
use kuberboat.DeploymentControl.Scaling.{from_template, add_pod, add_pods, more_pods, save}
use kuberboat.DeploymentControl.Scaling.Coherence.{save-cm}
use kuberboat.DeploymentControl.Scaling.Gaining.{
  IsGrown, IsGrown-more, IsGrown-cm, after_create, after_success,
}

-- At the start, the creation of a pod of the template would succeed with the object `b`.
abbrev pub IsCreatable : Env → Deployment → World → Addr → Type 0
IsCreatable env d w b =
    (create_pod env
      (from_template d (env.hash_template d.spec.template.labels d.spec.template.spec)
        (env.uuid w.calls))
      (record w { calls = suc w.calls })).0
    ≡ ok b

module _ (env : Env) (xs : List Addr) (h : Heap) (d : Deployment) (m : ℕ) where
  add_pod-IsGrown :
      (hash : String) (k : ℕ) (w : World)
      → IsGrown d.name xs h m k w
      → IsGrown d.name xs h m (suc k) (add_pod env d hash w).1
  unfolding add_pod
  add_pod-IsGrown hash k w g =
      let v : World = record w { calls = suc w.calls } in
      let p = from_template d hash (env.uuid w.calls) in
      after_create d.name xs h m k p v (create_pod env p v) (IsGrown-cm d.name xs h m k w v refl g)
        (create_pod-Created env p v).0

  pub add_pods-IsGrown :
      (hash : String) (j k : ℕ) (w : World)
      → IsGrown d.name xs h m k w
      → IsGrown d.name xs h m (j + k) (add_pods env j d hash w).1
  unfolding add_pods
  add_pods-IsGrown hash zero k w g = subst (λ i. IsGrown d.name xs h m i w) (omega arith) g
  add_pods-IsGrown hash (suc j) k w g =
      continue_cases (λ r. IsGrown d.name xs h m (suc j + k) r.1) (IsGrown d.name xs h m (suc k))
        (λ _. add_pods env j d hash) (attempt (add_pod env d hash) w) (add_pod-IsGrown hash k w g)
        (λ e v q. enlarge j v q)
        (λ _ v q.
          subst (λ i. IsGrown d.name xs h m i (add_pods env j d hash v).1) (omega arith)
            (add_pods-IsGrown hash j (suc k) v q))
    where
      enlarge :
          (i : ℕ) (v : World)
          → IsGrown d.name xs h m (suc k) v
          → IsGrown d.name xs h m (suc i + k) v
      enlarge zero v q = subst (λ i. IsGrown d.name xs h m i v) (omega arith) q
      enlarge (suc i) v q =
          subst (λ j. IsGrown d.name xs h m j v) (omega arith)
            (IsGrown-more d.name xs h m (suc i + k) v (enlarge i v q))

  saved :
      (k : ℕ) (r : Result (Unit {0}) × World)
      → IsGrown d.name xs h m k r.1
      → IsGrown d.name xs h m k (continue (λ _. save env d.name) r).1
  saved k (ok _, v) g = IsGrown-cm d.name xs h m k v (save env d.name v).1 (save-cm env d.name v) g
  saved k (err e, v) g = g

  pub more_pods-IsGrown :
      (j : ℕ) (w : World)
      → IsGrown d.name xs h m 0 w
      → IsGrown d.name xs h m j (more_pods env d j w).1
  unfolding more_pods
  more_pods-IsGrown j w g =
      let sum = env.hash_template d.spec.template.labels d.spec.template.spec in
      saved j (add_pods env j d sum w) (
        subst (λ i. IsGrown d.name xs h m i (add_pods env j d sum w).1) (omega arith)
          (add_pods-IsGrown sum j 0 w g))

module _ (env : Env) (xs : List Addr) (h : Heap) (d : Deployment) where
  first_of :
      (j : ℕ) (hash : String) (w : World)
      → IsGrown d.name xs h 1 1 (add_pod env d hash w).1
      → IsGrown d.name xs h 1 (suc j) (add_pods env (suc j) d hash w).1
  unfolding add_pods
  first_of j hash w g =
      continue_cases (λ r. IsGrown d.name xs h 1 (suc j) r.1) (IsGrown d.name xs h 1 1)
        (λ _. add_pods env j d hash) (attempt (add_pod env d hash) w) g
        (λ e v q. record {
          new = q.new;
          listed = q.listed;
          many = q.many;
          few = omega (arith, q.few);
          later = q.later;
          bigger = q.bigger;
          older = q.older;
        })
        (λ _ v q.
          subst (λ i. IsGrown d.name xs h 1 i (add_pods env j d hash v).1) (omega arith)
            (add_pods-IsGrown env xs h d 1 hash j 1 v q))

  -- The first creation succeeds, and others may follow.
  pub more_pods-adds :
      (j : ℕ) (w : World) (b : Addr)
      → IsCreatable env d w b
      → IsGrown d.name xs h 0 0 w
      → IsGrown d.name xs h 1 (suc j) (more_pods env d (suc j) w).1
  unfolding more_pods add_pod
  more_pods-adds j w b done g =
      let sum = env.hash_template d.spec.template.labels d.spec.template.spec in
      let v : World = record w { calls = suc w.calls } in
      let p = from_template d sum (env.uuid w.calls) in
      saved env xs h d 1 (suc j) (add_pods env (suc j) d sum w) (
        first_of j sum w (
          after_success d.name xs h 0 0 p v (create_pod env p v) b done
            (IsGrown-cm d.name xs h 0 0 w v refl g) (create_pod-Created env p v).0))
