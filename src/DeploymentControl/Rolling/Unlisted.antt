-- ===== src/DeploymentControl/Rolling/Unlisted.antt =====
-- An object that no list of a deployment has, and the steps of a rolling update that keep it so.
use kuberboat.Prelude.{
  ℕ, ℤ, pos, negsuc, zero, suc, ◌≤◌, ◌<◌, String, ◌≡◌, ◌≢◌, refl, sym, ap, subst, inl, inr,
  Option-cases, string_eq, lookup, All, All-lookup, All-insert, All-append, GoMap, map_values,
  length-append, List, [], ◌∷◌, ◌++◌, length, arith,
}
use kuberboat.Core.{Pod, Deployment}
use kuberboat.ComponentManager.{
  ComponentManager, Addr, Heap, name_of, remove_pod, fresh, alloc, set_pod, push_deployment_pod,
  get_deployment_by_name, list_pods_by_deployment_name,
}
use kuberboat.ComponentManager.Links.{remove_pod-All}
use kuberboat.Exec.{Result, ok, err, continue, modify, attempt, ◌>>◌}
use kuberboat.Exec.Keeps.{Keeps, Leads-pure, Leads-attempt, Keeps-then}
use kuberboat.World.{World, Env}
use kuberboat.PodControl.{create_pod}
use kuberboat.PodControl.Creation.{Created, create_pod-Created}
use kuberboat.DeploymentControl.{compute_rolling_update_pod_creation}
use kuberboat.DeploymentControl.Scaling.{
  adjust, count_one, from_template, push, add_pod, add_pods, more_pods, save, delete_deployment_pod,
  delete_outdated,
}
use kuberboat.DeploymentControl.Scaling.Coherence.{adjust-lists, save-cm}
use kuberboat.DeploymentControl.Scaling.Losing.{Dropped, delete_deployment_pod-Dropped}
use kuberboat.DeploymentControl.Monitor.{create_many, create_missing}

-- The object is in the heap and in no list of a deployment.
abbrev pub Lacks : Addr → String × List Addr → Type 0
Lacks a e = All (λ b. b ≢ a) e.1

pub record IsUnlisted (a : Addr) (w : World) : Type 0 where
  pub object : a < length w.cm.heap
  pub nowhere : All (Lacks a) w.cm.deployment_to_pods

module _ (a : Addr) where
  IsUnlisted-grown :
      (w v : World)
      → length w.cm.heap ≤ length v.cm.heap
      → v.cm.deployment_to_pods ≡ w.cm.deployment_to_pods
      → IsUnlisted a w
      → IsUnlisted a v
  IsUnlisted-grown w v le lists u = record {
    object = omega (arith, u.object, le);
    nowhere = subst (λ m. All (Lacks a) m) (sym lists) u.nowhere;
  }

  IsUnlisted-cm : (w v : World) → v.cm ≡ w.cm → IsUnlisted a w → IsUnlisted a v
  IsUnlisted-cm w v same =
      IsUnlisted-grown w v (omega (arith, ap (λ (c : ComponentManager). length c.heap) same))
        (ap (λ (c : ComponentManager). c.deployment_to_pods) same)

  push-IsUnlisted :
      (n : String) (b : Addr) (w : World) → b ≢ a → IsUnlisted a w → IsUnlisted a (push n b w)
  unfolding push push_deployment_pod
  push-IsUnlisted n b w other u = elim (Option-cases (lookup n w.cm.deployment_to_pods)) [
    | inl unknown ↦ rw (push_deployment_pod, unknown) u
    | inr (xs, known) ↦
        rw (push_deployment_pod, known)
          (record {
            object = u.object;
            nowhere =
                All-insert (Lacks a) n (xs ++ b ∷ []) w.cm.deployment_to_pods
                  (All-append (λ c. c ≢ a) xs (b ∷ [])
                    (All-lookup (Lacks a) n w.cm.deployment_to_pods u.nowhere known) (other, tt))
                  u.nowhere;
          })
  ]

  module _ (env : Env) where
    after_create :
        (n : String) (p : Pod) (w : World) (r : Result Addr × World)
        → IsUnlisted a w
        → Created p w.cm r
        → IsUnlisted a (continue (λ b. modify (adjust n count_one) >> modify (push n b)) r).1
    unfolding fresh alloc set_pod
    after_create n p w (err e, v) u (inl (x, _, same)) = IsUnlisted-cm w v same u
    after_create n p w (ok b, v) u (inl (x, bad, _)) = cc
    after_create n p w (err e, v) u (inr (q, _, same, _, _)) =
        IsUnlisted-grown w v
          (omega (
            arith,
            ap (λ (c : ComponentManager). length c.heap) same,
            length-append w.cm.heap (q ∷ []),
          ))
          (ap (λ (c : ComponentManager). c.deployment_to_pods) same) u
    after_create n p w (ok b, v) u (inr (q, _, same, _, inr bad)) = cc
    after_create n p w (ok b, v) u (inr (q, _, same, _, inl it)) =
        let l = adjust-lists n count_one v in
        push-IsUnlisted n b (adjust n count_one v) (λ e. omega (arith, e, u.object, same_ok it))
          (IsUnlisted-grown v (adjust n count_one v) (omega (arith, ap length l.0)) l.2 (
            IsUnlisted-grown w v
              (omega (
                arith,
                ap (λ (c : ComponentManager). length c.heap) same,
                length-append w.cm.heap (q ∷ []),
              ))
              (ap (λ (c : ComponentManager). c.deployment_to_pods) same) u))
      where
        same_ok : {x y : Addr} → Path (Result Addr) (ok x) (ok y) → x ≡ y
        same_ok e = cc

    add_pod-Keeps : (d : Deployment) (hash : String) → Keeps (IsUnlisted a) (add_pod env d hash)
    unfolding add_pod
    add_pod-Keeps d hash = record {
      at = λ w u.
          let v : World = record w { calls = suc w.calls } in
          let p = from_template d hash (env.uuid w.calls) in
          after_create d.name p v (create_pod env p v) (IsUnlisted-cm w v refl u)
            (create_pod-Created env p v).0;
    }

    add_pods-Keeps :
        (k : ℕ) (d : Deployment) (hash : String) → Keeps (IsUnlisted a) (add_pods env k d hash)
    unfolding add_pods
    add_pods-Keeps zero d hash = Leads-pure tt (λ w u. u)
    add_pods-Keeps (suc k) d hash =
        Keeps-then (attempt (add_pod env d hash)) (add_pods env k d hash)
          (Leads-attempt (add_pod env d hash) (add_pod-Keeps d hash)) (add_pods-Keeps k d hash)

    pub save-Keeps : (n : String) → Keeps (IsUnlisted a) (save env n)
    save-Keeps n = record { at = λ w u. IsUnlisted-cm w (save env n w).1 (save-cm env n w) u }

    create_many-Keeps : (d : Deployment) (z : ℤ) → Keeps (IsUnlisted a) (create_many env d z)
    unfolding create_many more_pods
    create_many-Keeps d (pos zero) = Leads-pure tt (λ w u. u)
    create_many-Keeps d (pos (suc k)) =
        Keeps-then _ (save env d.name) (add_pods-Keeps (suc k) d _) (save-Keeps d.name)
    create_many-Keeps d (negsuc k) = Leads-pure tt (λ w u. u)

    pub create_missing-Keeps : (n : String) → Keeps (IsUnlisted a) (create_missing env n)
    unfolding create_missing
    create_missing-Keeps n = record {
      at = λ w u. elim (Option-cases (get_deployment_by_name n w.cm)) [
        | inl unknown ↦ rw (create_missing, unknown) u
        | inr (d, known) ↦ elim (Option-cases (list_pods_by_deployment_name n w.cm)) [
          | inl no_list ↦ rw (create_missing, known, no_list) u
          | inr (xs, listed) ↦
              rw (create_missing, known, listed)
                ((create_many-Keeps d (compute_rolling_update_pod_creation env w.cm.heap d xs)).at w
                  u)
        ]
      ];
    }

    shorter :
        (h : Heap) (name : String) (lists : GoMap String (List Addr))
        → All (Lacks a) lists
        → All (Lacks a) (map_values (remove_pod h name) lists)
    shorter h name [] u = tt
    shorter h name ((n, xs) ∷ lists) u =
        (remove_pod-All h name (λ b. b ≢ a) xs u.0, shorter h name lists u.1)

    after_delete :
        (name : String) (w : World) (r : Result (Unit {0}) × World)
        → Dropped name w r
        → IsUnlisted a w
        → IsUnlisted a r.1
    after_delete name w (r, v) (inl (e, _, same)) u = IsUnlisted-cm w v same u
    after_delete name w (r, v) (inr (_, gone)) u = record {
      object = omega (arith, u.object, ap length gone.heap);
      nowhere =
          subst (λ m. All (Lacks a) m) (sym gone.lists)
            (shorter w.cm.heap name w.cm.deployment_to_pods u.nowhere);
    }

    pub delete_outdated-Keeps :
        (n : String) (k : ℕ) (xs : List Addr) → Keeps (IsUnlisted a) (delete_outdated env n k xs)
    unfolding delete_outdated
    delete_outdated-Keeps n zero xs = Leads-pure tt (λ w u. u)
    delete_outdated-Keeps n (suc k) [] = Leads-pure tt (λ w u. u)
    delete_outdated-Keeps n (suc k) (b ∷ xs) =
        Keeps-then (attempt (delete_deployment_pod env n b)) (delete_outdated env n k xs)
          (Leads-attempt (delete_deployment_pod env n b) (record {
            at = λ w u.
                after_delete (name_of w.cm.heap b) w (delete_deployment_pod env n b w)
                  (delete_deployment_pod-Dropped env n b w) u;
          }))
          (delete_outdated-Keeps n k xs)
