-- ===== src/Events/Reports.antt =====
-- What the reports of the workers lead to.
use kuberboat.Prelude.{
  String, ◌≡◌, ◌≢◌, refl, ap, ◌∙◌, inl, inr, Bool, true, false, not, ◌&&◌, ◌==◌, ==_iff,
  Option-cases, if◌then◌else◌, string_eq, some,
}
use kuberboat.Core.{PodPhase, phase_eq, PodStatus}
use kuberboat.ComponentManager.{Addr, deref, get_pod_by_name, get_deployment_by_pod_name}
use kuberboat.ComponentManager.Integrity.{IsCoherent}
use kuberboat.Exec.{Result, ok, err, etcd_failed, pure, attempt, continue, ◌>>◌}
use kuberboat.Exec.Keeps.{Keeps, Leads-pure, Leads-if, Leads-attempt, Keeps-bind, Keeps-then}
use kuberboat.World.{World, Env, Api}
use kuberboat.PodControl.{update_pod_status}
use kuberboat.PodControl.Status.{update_known, update_status_lem, update_pod_status-IsCoherent}
use kuberboat.JobControl
use kuberboat.JobControl.Retries.{handle_pod_fail-IsCoherent}
use kuberboat.DeploymentControl.Handlers
use kuberboat.DeploymentControl.Scaling.Coherence.{Coherent, delete_deployment_pod-Keeps}
use kuberboat.Events.{
  Event, pod_ready_event, pod_fail_event, pod_succeed_event, dispatch, on_entry, report, event_beq,
}

module _ (env : Env) where
  deployment_fail-Keeps : (n : String) → Keeps Coherent (Handlers.handle_pod_fail env n)
  unfolding Handlers.handle_pod_fail
  deployment_fail-Keeps n = record {
    at = λ w v. elim (Option-cases (get_pod_by_name n w.cm)) [
      | inl unknown ↦ rw (Handlers.handle_pod_fail, unknown) v
      | inr (a, known) ↦ elim (Option-cases (get_deployment_by_pod_name n w.cm)) [
        | inl free ↦ rw (Handlers.handle_pod_fail, known, free) v
        | inr (d, owned) ↦
            rw (Handlers.handle_pod_fail, known, owned)
              ((delete_deployment_pod-Keeps env d.name a).at w v)
      ]
    ];
  }

  dispatch_fail-Keeps : (n : String) → Keeps Coherent (dispatch env (pod_fail_event n))
  unfolding dispatch event_beq
  dispatch_fail-Keeps n =
      Keeps-then (attempt (JobControl.handle_pod_fail env n))
        (attempt (Handlers.handle_pod_fail env n) >> pure tt)
        (Leads-attempt (JobControl.handle_pod_fail env n)
          (record { at = λ w v. handle_pod_fail-IsCoherent env n w v }))
        (Keeps-then (attempt (Handlers.handle_pod_fail env n)) (pure tt)
          (Leads-attempt (Handlers.handle_pod_fail env n) (deployment_fail-Keeps n))
          (Leads-pure tt (λ w v. v)))

  dispatch_succeed-Keeps : (n : String) → Keeps Coherent (dispatch env (pod_succeed_event n))
  unfolding dispatch event_beq
  dispatch_succeed-Keeps n =
      Keeps-then {A = Unit {0}} (pure tt) (pure tt) (Leads-pure tt (λ w v. v))
        (Leads-pure tt (λ w v. v))

  on_entry-Keeps :
      (ph : PodPhase) (e : Event) (before after : PodStatus)
      → (after.phase ≡ ph → Keeps Coherent (dispatch env e))
      → Keeps Coherent (on_entry env ph e before after)
  unfolding on_entry
  on_entry-Keeps ph e before after kept =
      Leads-if (not (before.phase == ph) && after.phase == ph) (dispatch env e) (pure tt)
        (λ q. kept ((==_iff after.phase ph).0 (second (not (before.phase == ph)) q)))
        (λ q. Leads-pure tt (λ w v. v))
    where
      second : (b : Bool) {c : Bool} → b && c ≡ true → c ≡ true
      second true q = q
      second false q = cc

  -- A report that does not say that the pod is ready keeps the cache coherent, with all that its
  -- events lead to: the retry of a job, and the deletion of a failed pod of a deployment.
  pub report-IsCoherent :
      (n : String) (s : PodStatus) (w : World)
      → s.phase ≢ PodPhase.ready
      → IsCoherent w.cm
      → IsCoherent (report env n s w).1.cm
  unfolding report
  report-IsCoherent n s w other v =
      (Keeps-bind (update_pod_status env n s)
          (λ before.
            on_entry env PodPhase.ready (pod_ready_event n) before s
            >> (on_entry env PodPhase.failed (pod_fail_event n) before s
                >> on_entry env PodPhase.succeeded (pod_succeed_event n) before s))
          (record { at = λ w v. update_pod_status-IsCoherent env n s w v })
          (λ before.
            Keeps-then (on_entry env PodPhase.ready (pod_ready_event n) before s)
              (on_entry env PodPhase.failed (pod_fail_event n) before s
                >> on_entry env PodPhase.succeeded (pod_succeed_event n) before s)
              (on_entry-Keeps PodPhase.ready (pod_ready_event n) before s (λ q. absurd (other q)))
              (Keeps-then (on_entry env PodPhase.failed (pod_fail_event n) before s)
                (on_entry env PodPhase.succeeded (pod_succeed_event n) before s)
                (on_entry-Keeps PodPhase.failed (pod_fail_event n) before s
                  (λ q. dispatch_fail-Keeps n))
                (on_entry-Keeps PodPhase.succeeded (pod_succeed_event n) before s
                  (λ q. dispatch_succeed-Keeps n))))).at
        w v

  no_entry :
      (ph : PodPhase) (e : Event) (before after : PodStatus) (w : World)
      → before.phase ≡ after.phase
      → on_entry env ph e before after w ≡ (ok tt, w)
  unfolding on_entry
  no_entry ph e before after w same = rw (same, neither (after.phase == ph)) refl
    where
      neither : (b : Bool) → not b && b ≡ false
      neither true = refl
      neither false = refl

  -- A report on a known pod in the phase that it has already makes no event: the state afterwards is
  -- that of the update of its status.
  pub report-same :
      (n : String) (a : Addr) (s : PodStatus) (w : World)
      → get_pod_by_name n w.cm ≡ some a
      → (deref w.cm.heap a).status.phase ≡ s.phase
      → (report env n s w).1 ≡ (update_pod_status env n s w).1
  unfolding report
  report-same n a s w known same = go (update_pod_status env n s w) (env.succeeds w.calls) (
      ap (λ (r : Result PodStatus × World). r.0) (update_known env n a s w known)
      ∙ (update_status_lem env a s w).1)
    where
      events : PodStatus → Api (Unit {0})
      events before =
          on_entry env PodPhase.ready (pod_ready_event n) before s
          >> (on_entry env PodPhase.failed (pod_fail_event n) before s
              >> on_entry env PodPhase.succeeded (pod_succeed_event n) before s)

      quiet : (before : PodStatus) (v : World) → before.phase ≡ s.phase → (events before v).1 ≡ v
      quiet before v e =
          rw
            (
              no_entry PodPhase.ready (pod_ready_event n) before s v e,
              no_entry PodPhase.failed (pod_fail_event n) before s v e,
              no_entry PodPhase.succeeded (pod_succeed_event n) before s v e,
            )
            refl

      same_status : {x y : PodStatus} → Path (Result PodStatus) (ok x) (ok y) → x ≡ y
      same_status e = cc

      go :
          (r : Result PodStatus × World) (b : Bool)
          → r.0 ≡ (if b then ok (deref w.cm.heap a).status else err etcd_failed)
          → (continue events r).1 ≡ r.1
      go (ok x, v) true q = quiet x v (ap (λ (t : PodStatus). t.phase) (same_status q) ∙ same)
      go (ok x, v) false q = cc
      go (err e, v) b q = refl
