-- ===== src/PodControl/Deletion.antt =====
-- The deletion of pods and the update of their status.
use kuberboat.Prelude.{
  String, ◌≡◌, refl, sym, subst, ◌∙◌, ◌⊎◌, inl, inr, true, ==_refl, Bool-cases, Option-cases, when,
  lookup, lookup-delete, none, suc, string_eq,
}
use kuberboat.ComponentManager
use kuberboat.ComponentManager.{
  ComponentManager, Addr, deref, name_of, get_pod_by_name, pod_exists_by_name, remove_pod,
  set_status,
}
use kuberboat.ComponentManager.Integrity.{
  IsCoherent, delete_pod_by_name-IsCoherent as forget-IsCoherent,
}
use kuberboat.Exec.{
  Error, Result, ok, err, rpc_failed, etcd_failed, no_such_pod, race_condition, no_client,
}
use kuberboat.World.{World, Env, Client, Key, key_eq}
use kuberboat.Nodes.{client_by_ip}
use kuberboat.PodControl.{retire, remove, delete_pod_by_name}

-- Either an error, with the cache as it was, or the pod is gone from the cache and from etcd.
abbrev pub Deleted : String → ComponentManager → Result (Unit {0}) × World → Type 0
Deleted n cm (r, v) =
    ((e : Error) × (r ≡ err e) × (v.cm ≡ cm))
    ⊎ ((r ≡ ok tt)
        × (v.cm ≡ ComponentManager.delete_pod_by_name n cm)
        × (lookup (Key.pods n) v.etcd ≡ none))

module _ (env : Env) (n : String) (w : World) where
  retire-Deleted : (c : Client) → Deleted n w.cm (retire env n c w)
  unfolding retire
  retire-Deleted c = elim (Bool-cases (env.succeeds w.calls)) [
    | inr lost ↦ rw lost (inl (rpc_failed, refl, refl))
    | inl sent ↦ elim (Bool-cases (env.succeeds (suc w.calls))) [
      | inr refused ↦ rw (sent, refused) (inl (etcd_failed, refl, refl))
      | inl gone ↦
          rw (sent, gone)
            (inr (
              refl,
              refl,
              lookup-delete (Key.pods n) (Key.pods n) w.etcd ∙ rw (==_refl (Key.pods n)),
            ))
    ]
  ]

  remove-Deleted : (a : Addr) → Deleted n w.cm (remove env n a w)
  unfolding remove
  remove-Deleted a = elim (Option-cases (client_by_ip (deref w.cm.heap a).status.host_ip w)) [
    | inl missing ↦
        rw (missing, remove) (inl (no_client (deref w.cm.heap a).status.host_ip, refl, refl))
    | inr (c, found) ↦ rw (found, remove) (retire-Deleted c)
  ]

  -- Deletion removes the pod from the cache and from etcd, or fails and leaves the cache as it was;
  -- an unknown name is refused.
  pub delete_pod_by_name-Deleted :
      Deleted n w.cm (delete_pod_by_name env n w)
      × ((pod_exists_by_name n w.cm ≡ true)
          ⊎ (delete_pod_by_name env n w ≡ (err (no_such_pod n), w)))
  unfolding delete_pod_by_name
  delete_pod_by_name-Deleted = (outcome, when (pod_exists_by_name n w.cm) (λ e. rw e refl))
    where
      outcome : Deleted n w.cm (delete_pod_by_name env n w)
      outcome = elim (Bool-cases (pod_exists_by_name n w.cm)) [
        | inr unknown ↦ rw unknown (inl (no_such_pod n, refl, refl))
        | inl known ↦ rw known (elim (Option-cases (get_pod_by_name n w.cm)) [
          | inl missing ↦ rw missing (inl (race_condition n, refl, refl))
          | inr (a, found) ↦ rw found (remove-Deleted a)
        ])
      ]

  -- The deletion of a pod keeps the cache coherent, whatever fails on the way.
  pub delete_pod_by_name-IsCoherent : IsCoherent w.cm → IsCoherent (delete_pod_by_name env n w).1.cm
  delete_pod_by_name-IsCoherent v = elim (delete_pod_by_name-Deleted.0) [
    | inl (e, _, same) ↦ subst IsCoherent (sym same) v
    | inr (_, same, _) ↦ subst IsCoherent (sym same) (forget-IsCoherent n w.cm v)
  ]
