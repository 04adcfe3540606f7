-- ===== src/JobControl/Retries.antt =====
-- The retries of jobs.
use kuberboat.Prelude.{
  ℕ, zero, suc, ◌-◌, ◌≡◌, refl, ap, subst, ◌∙◌, String, string_eq, lookup, lookup-insert_self,
  Option, none, some, arith,
}
use kuberboat.Exec.{Result, ok, err, pure, modify, attempt, continue, ◌>>◌}
use kuberboat.Exec.Keeps.{Keeps, Leads-pure, Leads-modify, Leads-attempt, Keeps-bind, Keeps-then}
use kuberboat.World.{World, Env}
use kuberboat.ComponentManager.Integrity.{IsCoherent}
use kuberboat.PodControl.{create_pod, delete_pod_by_name}
use kuberboat.PodControl.Creation.{create_pod-IsCoherent}
use kuberboat.PodControl.Deletion.{delete_pod_by_name-IsCoherent}
use kuberboat.JobControl.{
  job_pod, set_budget, create_corresponding_pod, retry, handle_pod_fail, fails,
}

abbrev Coherent : World → Type 0
Coherent w = IsCoherent w.cm

module _ (env : Env) where
  create_corresponding_pod-Keeps : (n : String) → Keeps Coherent (create_corresponding_pod env n)
  unfolding create_corresponding_pod
  create_corresponding_pod-Keeps n =
      Keeps-bind (create_pod env (job_pod n)) (λ _. pure tt)
        (record { at = λ w v. create_pod-IsCoherent env (job_pod n) w v })
        (λ _. Leads-pure tt (λ w v. v))

  delete-Keeps : (n : String) → Keeps Coherent (attempt (delete_pod_by_name env n))
  delete-Keeps n =
      Leads-attempt (delete_pod_by_name env n)
        (record { at = λ w v. delete_pod_by_name-IsCoherent env n w v })

  retry-Keeps : (n : String) (b : ℕ) → Keeps Coherent (retry env n b)
  unfolding retry set_budget
  retry-Keeps n b =
      Keeps-then (attempt (delete_pod_by_name env n))
        (attempt (create_corresponding_pod env n) >> modify (set_budget n b)) (delete-Keeps n)
        (Keeps-then (attempt (create_corresponding_pod env n)) (modify (set_budget n b))
          (Leads-attempt (create_corresponding_pod env n) (create_corresponding_pod-Keeps n))
          (Leads-modify (set_budget n b) (λ w v. v)))

  handle_pod_fail-Keeps : (n : String) → Keeps Coherent (handle_pod_fail env n)
  unfolding handle_pod_fail
  handle_pod_fail-Keeps n = record { at = λ w v. go (lookup n w.retry_budget) w v }
    where
      go :
          (b : Option ℕ) (w : World)
          → Coherent w
          → Coherent
              (elim b as (λ _. Result (Unit {0}) × World) [
                | none ↦ (ok tt, w)
                | some k ↦ elim k as (λ _. Result (Unit {0}) × World) [
                  | zero ↦ attempt (delete_pod_by_name env n) w
                  | suc j ↦ retry env n j w
                ]
              ]).1
      go none w v = v
      go (some zero) w v = (delete-Keeps n).at w v
      go (some (suc j)) w v = (retry-Keeps n j).at w v

  -- The handling of the failure of a job keeps the cache coherent, whatever fails on the way.
  pub handle_pod_fail-IsCoherent :
      (n : String) (w : World) → IsCoherent w.cm → IsCoherent (handle_pod_fail env n w).1.cm
  handle_pod_fail-IsCoherent n w v = (handle_pod_fail-Keeps n).at w v

  delete_pod_by_name-budget :
      (n : String) (w : World) → (delete_pod_by_name env n w).1.retry_budget ≡ w.retry_budget
  unfolding delete_pod_by_name
  delete_pod_by_name-budget n w = ground arith

  set-last :
      (n : String) (b : ℕ) (r : Result (Unit {0}) × World)
      → (continue (λ _. modify (set_budget n b)) r).0 ≡ ok tt
      → lookup n (continue (λ _. modify (set_budget n b)) r).1.retry_budget ≡ some b
  unfolding set_budget
  set-last n b (ok _, w) q = lookup-insert_self n b w.retry_budget
  set-last n b (err e, w) q = cc

  retry-budget :
      (n : String) (b : ℕ) (w : World)
      → (retry env n b w).0 ≡ ok tt
      → lookup n (retry env n b w).1.retry_budget ≡ some b
  unfolding retry
  retry-budget n b w q = go (attempt (delete_pod_by_name env n) w) q
    where
      go :
          (r : Result (Unit {0}) × World)
          → (continue
              (λ _. attempt (create_corresponding_pod env n) >> modify (set_budget n b))
              r).0
            ≡ ok tt
          → lookup n
              (continue
                (λ _. attempt (create_corresponding_pod env n) >> modify (set_budget n b))
                r).1.retry_budget
            ≡ some b
      go (ok _, v) e = set-last n b (attempt (create_corresponding_pod env n) v) e
      go (err x, v) e = cc

  handle_pod_fail-budget :
      (n : String) (b : ℕ) (w : World)
      → lookup n w.retry_budget ≡ some b
      → (handle_pod_fail env n w).0 ≡ ok tt
      → lookup n (handle_pod_fail env n w).1.retry_budget ≡ some (b - 1)
  unfolding handle_pod_fail
  handle_pod_fail-budget n zero w q =
      rw (handle_pod_fail, q) (λ e. ap (λ m. lookup n m) (delete_pod_by_name-budget n w) ∙ q)
  handle_pod_fail-budget n (suc b) w q =
      rw (handle_pod_fail, q) (λ e. retry-budget n b w e ∙ ap (λ c. some c) (omega arith))

  -- A job with `b` retries left has `b - k` of them left after `k` failures, none when `k` is more,
  -- if the process has come through them.
  pub fails-budget :
      (k : ℕ) (n : String) (b : ℕ) (w : World)
      → lookup n w.retry_budget ≡ some b
      → (fails env k n w).0 ≡ ok tt
      → lookup n (fails env k n w).1.retry_budget ≡ some (b - k)
  unfolding fails
  fails-budget zero n b w q e = q ∙ ap (λ c. some c) (omega arith)
  fails-budget (suc k) n b w q e =
      go (handle_pod_fail env n w) (λ p. handle_pod_fail-budget n b w q p)
        (λ v p d.
          subst (λ c. lookup n (fails env k n v).1.retry_budget ≡ some c) (omega arith)
            (fails-budget k n (b - 1) v p d))
        e
    where
      go :
          (r : Result (Unit {0}) × World)
          → (r.0 ≡ ok tt → lookup n r.1.retry_budget ≡ some (b - 1))
          → ((v : World)
              → lookup n v.retry_budget ≡ some (b - 1)
              → (fails env k n v).0 ≡ ok tt
              → lookup n (fails env k n v).1.retry_budget ≡ some (b - suc k))
          → (continue (λ _. fails env k n) r).0 ≡ ok tt
          → lookup n (continue (λ _. fails env k n) r).1.retry_budget ≡ some (b - suc k)
      go (ok _, v) step next d = next v (step refl) d
      go (err x, v) step next d = cc
