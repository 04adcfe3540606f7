-- ===== src/DeploymentControl/Scaling/Losing.antt =====
-- What the deletion of a pod of a deployment takes from the cache.
use kuberboat.Prelude.{
  ℕ, ◌-◌, ◌≤◌, String, ◌≡◌, refl, ap, ◌∙◌, ◌⊎◌, inl, inr, string_eq, insert, delete, map_values,
  List, length, arith,
}
use kuberboat.Core.{Deployment}
use kuberboat.ComponentManager
use kuberboat.ComponentManager.{Addr, deref, name_of, remove_pod}
use kuberboat.Exec.{Error, Result, ok, err, continue, modify, ◌>>◌}
use kuberboat.World.{World, Env}
use kuberboat.PodControl.{delete_pod_by_name}
use kuberboat.PodControl.Deletion.{Deleted, delete_pod_by_name-Deleted}
use kuberboat.DeploymentControl.{find_outdated_pods, update_status_on_pod_removal}
use kuberboat.DeploymentControl.Scaling.{
  adjust, delete_deployment_pod, delete_outdated, delete_latest, fewer_pods, save,
}
use kuberboat.DeploymentControl.Scaling.Coherence.{adjust-lists}

-- The pod of the name is gone from the map of pods and from the lists of deployments.
pub record IsWithout (name : String) (w v : World) : Type 0 where
  pub heap : v.cm.heap ≡ w.cm.heap
  pub pods : v.cm.pods ≡ delete name w.cm.pods
  pub lists :
      v.cm.deployment_to_pods ≡ map_values (remove_pod w.cm.heap name) w.cm.deployment_to_pods

-- Either an error, with the cache as it was, or the pod is gone.
abbrev pub Dropped : String → World → Result (Unit {0}) × World → Type 0
Dropped name w (r, v) =
    ((e : Error) × (r ≡ err e) × (v.cm ≡ w.cm)) ⊎ ((r ≡ ok tt) × IsWithout name w v)

module _ (env : Env) where
  after_delete :
      (n name : String) (f : World → Deployment → Deployment) (w : World)
      (r : Result (Unit {0}) × World)
      → Deleted name w.cm r
      → Dropped name w (
          continue
            (λ _.
              modify (λ (v : World). record v {
                expect_deleted_pod = insert name tt v.expect_deleted_pod;
              })
              >> modify (λ v. adjust n (f v) v))
            r)
  unfolding ComponentManager.delete_pod_by_name
  after_delete n name f w (err e, v) (inl (x, q, same)) = inl (e, refl, same)
  after_delete n name f w (err e, v) (inr (bad, _, _)) = cc
  after_delete n name f w (ok _, v) (inl (e, bad, _)) = cc
  after_delete n name f w (ok _, v) (inr (_, same, _)) =
      let u : World = record v { expect_deleted_pod = insert name tt v.expect_deleted_pod } in
      let k = adjust-lists n (f u) u in
      inr (
        refl,
        record {
          heap = k.0 ∙ ap (λ (c : ComponentManager.ComponentManager). c.heap) same;
          pods = k.1 ∙ ap (λ (c : ComponentManager.ComponentManager). c.pods) same;
          lists = k.2 ∙ ap (λ (c : ComponentManager.ComponentManager). c.deployment_to_pods) same;
        },
      )

  pub delete_deployment_pod-Dropped :
      (n : String) (a : Addr) (w : World)
      → Dropped (name_of w.cm.heap a) w (delete_deployment_pod env n a w)
  unfolding delete_deployment_pod
  delete_deployment_pod-Dropped n a w =
      after_delete n (name_of w.cm.heap a)
        (λ v d. update_status_on_pod_removal env d (deref v.cm.heap a)) w
        (delete_pod_by_name env (name_of w.cm.heap a) w)
        (delete_pod_by_name-Deleted env (name_of w.cm.heap a) w).0

  -- With outdated pods enough, no other ones are deleted.
  pub fewer_pods-outdated :
      (d : Deployment) (xs : List Addr) (k : ℕ) (w : World)
      → k ≤ length (find_outdated_pods env w.cm.heap d xs)
      → fewer_pods env d xs k w
        ≡ (delete_outdated env d.name k (find_outdated_pods env w.cm.heap d xs) >> save env d.name)
            w
  unfolding fewer_pods delete_latest
  fewer_pods-outdated d xs k w le =
      ap
        (λ j.
          (delete_outdated env d.name k (find_outdated_pods env w.cm.heap d xs)
              >> (delete_latest env d.name j >> save env d.name))
            w)
        enough
    where
      enough : k - length (find_outdated_pods env w.cm.heap d xs) ≡ 0
      enough = omega (arith, le)
