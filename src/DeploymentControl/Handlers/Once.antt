-- ===== src/DeploymentControl/Handlers/Once.antt =====
-- A deletion that the deployment controller asks for is counted once.
use kuberboat.Prelude.{
  String, ◌≡◌, refl, sym, ap, subst, ◌∙◌, inl, inr, true, false, ==_refl, string_eq, Option-cases,
  lookup, contains, insert, contains-insert, contains-delete,
}
use kuberboat.Core.{Pod, Deployment}
use kuberboat.ComponentManager.{Addr, deref, name_of}
use kuberboat.Exec.{Result, ok, err, continue, modify, ◌>>◌}
use kuberboat.World.{World, Env}
use kuberboat.PodControl.{delete_pod_by_name}
use kuberboat.DeploymentControl.{update_status_on_pod_removal}
use kuberboat.DeploymentControl.Scaling.{adjust, delete_deployment_pod}
use kuberboat.DeploymentControl.Handlers.{handle_pod_deletion}

adjust-expected :
    (n : String) (f : Deployment → Deployment) (w : World)
    → (adjust n f w).expect_deleted_pod ≡ w.expect_deleted_pod
unfolding adjust
adjust-expected n f w = elim (Option-cases (lookup n w.cm.deployments)) [
  | inl unknown ↦ rw (adjust, unknown) refl
  | inr (d, known) ↦ rw (adjust, known) refl
]

-- The rest of a deletion that has succeeded expects the event.
after_delete :
    (n name : String) (f : World → Deployment → Deployment) (r : Result (Unit {0}) × World)
    → (continue
        (λ _.
          modify
            (λ (w : World). record w { expect_deleted_pod = insert name tt w.expect_deleted_pod })
          >> modify (λ w. adjust n (f w) w))
        r).0
      ≡ ok tt
    → contains name
        (continue
          (λ _.
            modify
              (λ (w : World). record w { expect_deleted_pod = insert name tt w.expect_deleted_pod })
            >> modify (λ w. adjust n (f w) w))
          r).1.expect_deleted_pod
      ≡ true
after_delete n name f (err e, w) q = cc
after_delete n name f (ok _, w) q =
    ap (contains name) (adjust-expected n _ _)
    ∙ contains-insert name name tt w.expect_deleted_pod
    ∙ rw (==_refl name) refl

module _ (env : Env) (n : String) (a : Addr) (w : World) where
  expected :
      (delete_deployment_pod env n a w).0 ≡ ok tt
      → contains (name_of w.cm.heap a) (delete_deployment_pod env n a w).1.expect_deleted_pod ≡ true
  unfolding delete_deployment_pod
  expected q =
      after_delete n (name_of w.cm.heap a)
        (λ w d. update_status_on_pod_removal env d (deref w.cm.heap a))
        (delete_pod_by_name env (name_of w.cm.heap a) w) q

  -- After the controller has deleted a pod and counted it down, the event of its deletion leaves the
  -- cache as it is, tells etcd nothing, and is not expected any more.
  pub handle_pod_deletion-once :
      (p : Pod) (m : String)
      → p.name ≡ name_of w.cm.heap a
      → (delete_deployment_pod env n a w).0 ≡ ok tt
      → let before = (delete_deployment_pod env n a w).1 in
        let after = (handle_pod_deletion env p m before).1 in
        (after.cm ≡ before.cm)
        × (after.etcd ≡ before.etcd)
        × (contains p.name after.expect_deleted_pod ≡ false)
  unfolding handle_pod_deletion
  handle_pod_deletion-once p m same done =
      rw
        (subst (λ k. contains k (delete_deployment_pod env n a w).1.expect_deleted_pod ≡ true)
          (sym same) (expected done))
        (
          refl,
          refl,
          contains-delete p.name p.name (delete_deployment_pod env n a w).1.expect_deleted_pod
              ∙ rw (==_refl p.name) refl,
        )
