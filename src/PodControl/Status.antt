-- ===== src/PodControl/Status.antt =====
-- The status that a worker reports.
use kuberboat.Prelude.{
  ◌⊎◌, String, ◌≡◌, ◌≢◌, refl, sym, subst, inl, inr, Bool-cases, Option-cases, if◌then◌else◌,
  contains-lookup, some, length, get_or-set_self, get_or-set_ne, arith, ◌<◌, string_eq,
}
use native.Mathlib.Decide.{ℕ_discrete}
use kuberboat.Core.{PodStatus, zero_pod}
use kuberboat.ComponentManager.{
  ComponentManager, Addr, deref, get_pod_by_name, pod_exists_by_name, set_status,
}
use kuberboat.ComponentManager.Integrity.{IsCoherent, set_status-IsCoherent}
use kuberboat.Exec.{ok, err, etcd_failed}
use kuberboat.World.{World, Env, key_eq}
use kuberboat.PodControl.{update_status, update_pod_status}

-- The result of the update of the object, by the outcome of the write to etcd.
pub update_status_lem :
    (env : Env) (a : Addr) (s : PodStatus) (w : World)
    → ((update_status env a s w).1.cm ≡ set_status a s w.cm)
      × ((update_status env a s w).0
          ≡ (if env.succeeds w.calls then ok (deref w.cm.heap a).status else err etcd_failed))
unfolding update_status
update_status_lem env a s w = elim (Bool-cases (env.succeeds w.calls)) [
  | inl stored ↦ rw stored (refl, refl)
  | inr refused ↦ rw refused (refl, refl)
]

deref-set_status :
    (a : Addr) (s : PodStatus) (cm : ComponentManager)
    → a < length cm.heap
    → deref (set_status a s cm).heap a ≡ record (deref cm.heap a) { status = s }
unfolding deref set_status
deref-set_status a s cm lt = get_or-set_self zero_pod cm.heap a _ lt

deref-set_status_ne :
    (a b : Addr) (s : PodStatus) (cm : ComponentManager)
    → a ≢ b
    → deref (set_status a s cm).heap b ≡ deref cm.heap b
unfolding deref set_status
deref-set_status_ne a b s cm d = get_or-set_ne zero_pod cm.heap a b _ d

pub update_known :
    (env : Env) (n : String) (a : Addr) (s : PodStatus) (w : World)
    → get_pod_by_name n w.cm ≡ some a
    → update_pod_status env n s w ≡ update_status env a s w
unfolding update_pod_status
update_known env n a s w found = ground (arith, found, contains-lookup n w.cm.pods)

-- A report on a known pod changes the status of its one object, which every list of a deployment
-- or a service sees, and no other object; the rest of the cache is as before, also if etcd fails.
-- The status before is returned if etcd has the new one.
pub update_pod_status_lem :
    (env : Env) (n : String) (a : Addr) (s : PodStatus) (w : World)
    → get_pod_by_name n w.cm ≡ some a
    → a < length w.cm.heap
    → let after = (update_pod_status env n s w).1.cm in
      (deref after.heap a ≡ record (deref w.cm.heap a) { status = s })
      × ((b : Addr) → (a ≡ b) ⊎ (deref after.heap b ≡ deref w.cm.heap b))
      × (after ≡ record w.cm { heap = after.heap })
      × ((update_pod_status env n s w).0
          ≡ (if env.succeeds w.calls then ok (deref w.cm.heap a).status else err etcd_failed))
update_pod_status_lem env n a s w found lt =
    rw (update_known env n a s w found, (update_status_lem env a s w).0)
      (
        deref-set_status a s w.cm lt,
        (λ b. elim (ℕ_discrete a b) [
          | yes e ↦ inl e
          | no d ↦ inr (deref-set_status_ne a b s w.cm d)
        ]),
        unfold set_status in refl,
        (update_status_lem env a s w).1,
      )

-- A report on the status of a pod keeps the cache coherent.
pub update_pod_status-IsCoherent :
    (env : Env) (n : String) (s : PodStatus) (w : World)
    → IsCoherent w.cm
    → IsCoherent (update_pod_status env n s w).1.cm
unfolding update_pod_status
update_pod_status-IsCoherent env n s w v = elim (Bool-cases (pod_exists_by_name n w.cm)) [
  | inr unknown ↦ rw unknown v
  | inl known ↦ rw known (elim (Option-cases (get_pod_by_name n w.cm)) [
    | inl missing ↦ rw missing v
    | inr (a, found) ↦
        rw found (
          subst IsCoherent (sym (update_status_lem env a s w).0) (set_status-IsCoherent a s w.cm v))
  ])
]
