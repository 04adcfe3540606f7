-- ===== src/DeploymentControl/Scaling/Coherence.antt =====
-- The pods that a deployment gains and loses leave the cache coherent.
use kuberboat.Prelude.{
  ℕ, zero, suc, ◌-◌, ◌<◌, String, ◌≡◌, ◌≢◌, refl, sym, subst, inl, inr, ==_iff, string_eq,
  Option-cases, GoMap, lookup, insert, contains-lookup, contains-insert, lookup-insert_self, All,
  All-lookup, Option, none, some, List, [], ◌∷◌, length, length-append, arith,
}
use kuberboat.Core.{Pod, Deployment}
use kuberboat.ComponentManager.{
  Addr, Heap, deref, name_of, fresh, alloc, set_pod, push_deployment_pod,
}
use kuberboat.ComponentManager.Links.{Linked}
use kuberboat.ComponentManager.Integrity.{IsCoherent, LinkedEntry}
use kuberboat.ComponentManager.Growth.{push_deployment_pod-IsCoherent}
use kuberboat.Exec.{Result, ok, err, panic, continue, gets, modify, ◌>>◌, attempt}
use kuberboat.Exec.Keeps.{
  Keeps, Leads-pure, Leads-raise, Leads-gets, Leads-attempt, Keeps-bind, Keeps-then,
}
use kuberboat.World.{World, Env}
use kuberboat.PodControl.{create_pod, delete_pod_by_name}
use kuberboat.PodControl.Creation.{Created, create_pod-Created, create_pod-IsCoherent}
use kuberboat.PodControl.Deletion.{delete_pod_by_name-IsCoherent}
use kuberboat.DeploymentControl.{find_outdated_pods, update_status_on_pod_removal}
use kuberboat.DeploymentControl.Scaling.{
  adjust, back_of, count_one, from_template, push, add_pod, add_pods, save, more_pods,
  delete_deployment_pod, delete_outdated, delete_back, delete_latest, fewer_pods,
}

abbrev pub Coherent : World → Type 0
Coherent w = IsCoherent w.cm

pub adjust-IsCoherent :
    (n : String) (f : Deployment → Deployment) (w : World) → Coherent w → Coherent (adjust n f w)
unfolding adjust
adjust-IsCoherent n f w v = elim (Option-cases (lookup n w.cm.deployments)) [
  | inl unknown ↦ rw (adjust, unknown) v
  | inr (d, known) ↦
      rw (adjust, known)
        (record {
          pods_once = v.pods_once;
          pods_named = v.pods_named;
          deployments_linked = v.deployments_linked;
          services_linked = v.services_linked;
          deployments_listed = λ k. ground (
            arith,
            contains-insert n k (f d) w.cm.deployments,
            contains-lookup n w.cm.deployments,
            ==_iff n k,
            v.deployments_listed k,
            known,
          );
          services_listed = v.services_listed;
        })
]

-- The rest of the cache is out of the reach of such a change.
pub adjust-lists :
    (n : String) (f : Deployment → Deployment) (w : World)
    → ((adjust n f w).cm.heap ≡ w.cm.heap)
      × ((adjust n f w).cm.pods ≡ w.cm.pods)
      × ((adjust n f w).cm.deployment_to_pods ≡ w.cm.deployment_to_pods)
unfolding adjust
adjust-lists n f w = elim (Option-cases (lookup n w.cm.deployments)) [
  | inl unknown ↦ rw (adjust, unknown) (refl, refl, refl)
  | inr (d, known) ↦ rw (adjust, known) (refl, refl, refl)
]

-- A registered object that the list of the deployment lacks.
abbrev IsNew : String → Addr → World → Type 0
IsNew n a w =
    (a < length w.cm.heap)
    × (lookup (name_of w.cm.heap a) w.cm.pods ≡ some a)
    × ((xs : List Addr) → lookup n w.cm.deployment_to_pods ≡ some xs → All (λ b. b ≢ a) xs)

push-IsCoherent :
    (n : String) (a : Addr) (w : World) → IsNew n a w → Coherent w → Coherent (push n a w)
unfolding push
push-IsCoherent n a w new v = elim (Option-cases (lookup n w.cm.deployment_to_pods)) [
  | inl unknown ↦ unfold push_deployment_pod in rw (push_deployment_pod, unknown) v
  | inr (xs, known) ↦
      push_deployment_pod-IsCoherent n a xs w.cm new.0 new.1 (new.2 xs known) v known
]

fresh-unlisted :
    (h : Heap) (m : GoMap String Addr) (xs : List Addr) → Linked h m xs → All (λ b. b ≢ length h) xs
fresh-unlisted h m [] l = tt
fresh-unlisted h m (b ∷ xs) l = (omega (arith, l.0), fresh-unlisted h m xs l.3)

-- What a successful creation returns is new to every list.
created-IsNew :
    (n : String) (q : Pod) (w v : World)
    → Coherent w
    → v.cm ≡ set_pod (fresh w.cm) (alloc q w.cm)
    → IsNew n (fresh w.cm) v
unfolding fresh alloc set_pod
created-IsNew n q w v coh same = rw same (
  omega (arith, length-append w.cm.heap (q ∷ [])),
  lookup-insert_self _ (length w.cm.heap) w.cm.pods,
  λ xs known. fresh-unlisted w.cm.heap w.cm.pods xs (
      All-lookup (LinkedEntry w.cm.heap w.cm.pods) n w.cm.deployment_to_pods coh.deployments_linked
        known),
)

adjust-IsNew :
    (n : String) (f : Deployment → Deployment) (a : Addr) (w : World)
    → IsNew n a w
    → IsNew n a (adjust n f w)
adjust-IsNew n f a w new =
    rw ((adjust-lists n f w).0, (adjust-lists n f w).1, (adjust-lists n f w).2) new

module _ (env : Env) where
  -- Where a creation ends, the new pod is counted and pushed.
  after_create :
      (n : String) (p : Pod) (w : World) (r : Result Addr × World)
      → Coherent w
      → IsCoherent r.1.cm
      → Created p w.cm r
      → IsCoherent (continue (λ a. modify (adjust n count_one) >> modify (push n a)) r).1.cm
  after_create n p w (err e, v) cw cv made = cv
  after_create n p w (ok a, v) cw cv (inl (e, bad, _)) = cc
  after_create n p w (ok a, v) cw cv (inr (q, asked, same, _, inr bad)) = cc
  after_create n p w (ok a, v) cw cv (inr (q, asked, same, _, inl it)) =
      push-IsCoherent n a (adjust n count_one v)
        (adjust-IsNew n count_one a v
          (subst (λ b. IsNew n b v) (sym (same_ok it)) (created-IsNew n q w v cw same)))
        (adjust-IsCoherent n count_one v cv)
    where
      same_ok : {x y : Addr} → Path (Result Addr) (ok x) (ok y) → x ≡ y
      same_ok e = cc

  add_pod-Keeps : (d : Deployment) (hash : String) → Keeps Coherent (add_pod env d hash)
  unfolding add_pod
  add_pod-Keeps d hash = record {
    at = λ w v.
        after_create d.name (from_template d hash (env.uuid w.calls))
          (record w { calls = suc w.calls })
          (create_pod env (from_template d hash (env.uuid w.calls))
            (record w { calls = suc w.calls }))
          v
          (create_pod-IsCoherent env (from_template d hash (env.uuid w.calls))
            (record w { calls = suc w.calls }) v)
          ((create_pod-Created env (from_template d hash (env.uuid w.calls))
            (record w { calls = suc w.calls })).0);
  }

  add_pods-Keeps : (k : ℕ) (d : Deployment) (hash : String) → Keeps Coherent (add_pods env k d hash)
  unfolding add_pods
  add_pods-Keeps zero d hash = Leads-pure tt (λ w v. v)
  add_pods-Keeps (suc k) d hash =
      Keeps-then (attempt (add_pod env d hash)) (add_pods env k d hash)
        (Leads-attempt (add_pod env d hash) (add_pod-Keeps d hash)) (add_pods-Keeps k d hash)

  pub save-cm : (n : String) (w : World) → (save env n w).1.cm ≡ w.cm
  unfolding save
  save-cm n w = ground arith

  save-Keeps : (n : String) → Keeps Coherent (save env n)
  save-Keeps n = record { at = λ w v. subst IsCoherent (sym (save-cm n w)) v }

  pub more_pods-Keeps : (d : Deployment) (k : ℕ) → Keeps Coherent (more_pods env d k)
  unfolding more_pods
  more_pods-Keeps d k = Keeps-then _ (save env d.name) (add_pods-Keeps k d _) (save-Keeps d.name)

  after_delete :
      (n name : String) (f : World → Deployment → Deployment) (r : Result (Unit {0}) × World)
      → IsCoherent r.1.cm
      → IsCoherent
          (continue
            (λ _.
              modify (λ (w : World). record w {
                expect_deleted_pod = insert name tt w.expect_deleted_pod;
              })
              >> modify (λ w. adjust n (f w) w))
            r).1.cm
  after_delete n name f (err e, w) v = v
  after_delete n name f (ok _, w) v = adjust-IsCoherent n _ _ v

  pub delete_deployment_pod-Keeps :
      (n : String) (a : Addr) → Keeps Coherent (delete_deployment_pod env n a)
  unfolding delete_deployment_pod
  delete_deployment_pod-Keeps n a = record {
    at = λ w v.
        after_delete n (name_of w.cm.heap a)
          (λ w d. update_status_on_pod_removal env d (deref w.cm.heap a))
          (delete_pod_by_name env (name_of w.cm.heap a) w)
          (delete_pod_by_name-IsCoherent env (name_of w.cm.heap a) w v);
  }

  delete_outdated-Keeps :
      (n : String) (k : ℕ) (xs : List Addr) → Keeps Coherent (delete_outdated env n k xs)
  unfolding delete_outdated
  delete_outdated-Keeps n zero xs = Leads-pure tt (λ w v. v)
  delete_outdated-Keeps n (suc k) [] = Leads-pure tt (λ w v. v)
  delete_outdated-Keeps n (suc k) (a ∷ xs) =
      Keeps-then _ (delete_outdated env n k xs)
        (Leads-attempt (delete_deployment_pod env n a) (delete_deployment_pod-Keeps n a))
        (delete_outdated-Keeps n k xs)

  delete_back-Keeps : (n : String) (last : Option Addr) → Keeps Coherent (delete_back env n last)
  unfolding delete_back
  delete_back-Keeps n none = Leads-raise panic (λ w v. v)
  delete_back-Keeps n (some a) =
      Leads-attempt (delete_deployment_pod env n a) (delete_deployment_pod-Keeps n a)

  delete_latest-Keeps : (n : String) (k : ℕ) → Keeps Coherent (delete_latest env n k)
  unfolding delete_latest
  delete_latest-Keeps n zero = Leads-pure tt (λ w v. v)
  delete_latest-Keeps n (suc k) =
      Keeps-bind (gets (back_of n)) (λ last. delete_back env n last >> delete_latest env n k)
        (Leads-gets (back_of n) (λ w v. v))
        (λ last.
          Keeps-then (delete_back env n last) (delete_latest env n k) (delete_back-Keeps n last)
            (delete_latest-Keeps n k))

  pub fewer_pods-Keeps :
      (d : Deployment) (xs : List Addr) (k : ℕ) → Keeps Coherent (fewer_pods env d xs k)
  unfolding fewer_pods
  fewer_pods-Keeps d xs k =
      Keeps-bind (gets (λ w. find_outdated_pods env w.cm.heap d xs))
        (λ outdated.
          delete_outdated env d.name k outdated
          >> (delete_latest env d.name (k - length outdated) >> save env d.name))
        (Leads-gets (λ w. find_outdated_pods env w.cm.heap d xs) (λ w v. v))
        (λ outdated.
          Keeps-then (delete_outdated env d.name k outdated)
            (delete_latest env d.name (k - length outdated) >> save env d.name)
            (delete_outdated-Keeps d.name k outdated)
            (Keeps-then (delete_latest env d.name (k - length outdated)) (save env d.name)
              (delete_latest-Keeps d.name (k - length outdated)) (save-Keeps d.name)))
