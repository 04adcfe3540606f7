-- ===== src/PodControl/Creation.antt =====
-- The creation of pods.
use kuberboat.Prelude.{
  ◌≡◌, refl, sym, ap, subst, ◌∙◌, ◌⊎◌, inl, inr, false, Bool-cases, Option-cases, unless, lookup,
  contains-lookup, lookup-insert_self, Option, none, some, [], ◌∷◌, length, length-append,
  get_or-append_last, arith, ◌<◌, suc, insert, string_eq,
}
use kuberboat.Core.{Pod, PodPhase, Node, zero_pod}
use kuberboat.ComponentManager.{
  ComponentManager, Addr, deref, name_of, fresh, alloc, set_pod, pod_exists_by_name,
}
use kuberboat.ComponentManager.Integrity.{IsCoherent, alloc-IsCoherent, set_pod-IsCoherent}
use kuberboat.Exec.{
  Error, Result, ok, err, rpc_failed, etcd_failed, panic, no_worker, pod_exists, continue,
}
use kuberboat.World.{World, Env, Api, Client, Key, Value, key_eq}
use kuberboat.Nodes.{client_by_name}
use kuberboat.Schedule.{schedule_pod}
use kuberboat.PodControl.{
  send_job_files, launch, place_pod, create_pod, or_no_worker, or_panic, fill,
}

-- The object that the controller makes of a request.
pub record IsRequested (p q : Pod) : Type 0 where
  pub name : q.name ≡ p.name
  pub labels : q.labels ≡ p.labels
  pub spec : q.spec ≡ p.spec
  pub phase : q.status.phase ≡ PodPhase.pending
  pub pod_ip : q.status.pod_ip ≡ p.status.pod_ip

-- Either nothing was registered and the caller gets an error, or the pod is in the cache and in
-- etcd, and the caller gets it unless its worker could not be told.
abbrev pub Created : Pod → ComponentManager → Result Addr × World → Type 0
Created p cm (r, v) =
    ((e : Error) × (r ≡ err e) × (v.cm ≡ cm))
    ⊎ ((q : Pod) × IsRequested p q
        × (v.cm ≡ set_pod (fresh cm) (alloc q cm))
        × (lookup (Key.pods p.name) v.etcd ≡ some (Value.pod q))
        × ((r ≡ ok (fresh cm)) ⊎ (r ≡ err rpc_failed)))

module _ (env : Env) (p : Pod) where
  -- A step that leaves the cache alone, and then the rest.
  before_launch :
      {A : Type 0} (f : A → Api Addr) (cm : ComponentManager) (r : Result A × World)
      → r.1.cm ≡ cm
      → ((a : A) (s : World) → s.cm ≡ cm → Created p cm (f a s))
      → Created p cm (continue f r)
  before_launch f cm (ok a, s) same next = next a s same
  before_launch f cm (err e, s) same next = inl (e, refl, same)

  send_job_files-cm : (c : Client) (w : World) → (send_job_files env p c w).1.cm ≡ w.cm
  unfolding send_job_files
  send_job_files-cm c w = ground arith

  schedule_pod-cm : (w : World) → (schedule_pod p w).1.cm ≡ w.cm
  unfolding schedule_pod
  schedule_pod-cm w = ground arith

  launch-Created : (n : Node) (c : Client) (w : World) → Created p w.cm (launch env p n c w)
  unfolding launch
  launch-Created n c w = elim (Bool-cases (env.succeeds (suc (suc w.calls)))) [
    | inr refused ↦ rw refused (inl (etcd_failed, refl, refl))
    | inl stored ↦ elim (Bool-cases (env.succeeds (suc (suc (suc w.calls))))) [
      | inl sent ↦ rw (stored, sent) (inr (q, asked, refl, kept, inl refl))
      | inr lost ↦ rw (stored, lost) (inr (q, asked, refl, kept, inr refl))
    ]
  ]
    where
      q : Pod
      q = fill (env.uuid w.calls) (env.now (suc w.calls)) n.status.address p

      asked : IsRequested p q
      asked = record { name = refl; labels = refl; spec = refl; phase = refl; pod_ip = refl }

      kept :
          lookup (Key.pods p.name) (insert (Key.pods p.name) (Value.pod q) w.etcd)
          ≡ some (Value.pod q)
      kept = lookup-insert_self (Key.pods p.name) (Value.pod q) w.etcd

  place_pod-Created : (n : Node) (w : World) → Created p w.cm (place_pod env p n w)
  unfolding place_pod
  place_pod-Created n w = elim (Option-cases (client_by_name n.name w)) [
    | inl missing ↦ rw (missing, or_panic) (inl (panic, refl, refl))
    | inr (c, found) ↦
        rw (found, or_panic)
          (before_launch (λ _. launch env p n c) w.cm (send_job_files env p c w)
            (send_job_files-cm c w)
            (λ _ s same. subst (λ k. Created p k (launch env p n c s)) same (launch-Created n c s)))
  ]

  or_no_worker-Created :
      (chosen : Option Node) (w : World)
      → Created p w.cm (continue (place_pod env p) (or_no_worker chosen w))
  unfolding or_no_worker
  or_no_worker-Created none w = inl (no_worker, refl, refl)
  or_no_worker-Created (some n) w = place_pod-Created n w

  -- Creation registers the pod or leaves the cache as it was. In the first case the pod is pending,
  -- has the labels and the specification of the request, and is in etcd; an error can still come
  -- back, and is then that of the request to the worker. A name that is taken is always refused.
  pub create_pod-Created :
      (w : World)
      → Created p w.cm (create_pod env p w)
        × ((pod_exists_by_name p.name w.cm ≡ false)
            ⊎ (create_pod env p w ≡ (err (pod_exists p.name), w)))
  unfolding create_pod
  create_pod-Created w = (outcome, unless (pod_exists_by_name p.name w.cm) (λ e. rw e refl))
    where
      outcome : Created p w.cm (create_pod env p w)
      outcome = elim (Bool-cases (pod_exists_by_name p.name w.cm)) [
        | inl taken ↦ rw taken (inl (pod_exists p.name, refl, refl))
        | inr new ↦ rw new (
            before_launch (λ chosen v. continue (place_pod env p) (or_no_worker chosen v)) w.cm
              (schedule_pod p w) (schedule_pod-cm w)
              (λ chosen s same.
                subst (λ k. Created p k (continue (place_pod env p) (or_no_worker chosen s))) same
                  (or_no_worker-Created chosen s)))
      ]

new-name :
    (p q : Pod) (cm : ComponentManager)
    → IsRequested p q
    → name_of (alloc q cm).heap (fresh cm) ≡ p.name
unfolding alloc fresh deref
new-name p q cm asked =
    ap (λ (x : Pod). x.name) (get_or-append_last zero_pod cm.heap q) ∙ asked.name

-- The creation of a pod keeps the cache coherent, whatever fails on the way.
pub create_pod-IsCoherent :
    (env : Env) (p : Pod) (w : World) → IsCoherent w.cm → IsCoherent (create_pod env p w).1.cm
unfolding alloc
create_pod-IsCoherent env p w v = elim ((create_pod-Created env p w).1) [
  | inr refused ↦ subst (λ r. IsCoherent r.1.cm) (sym refused) v
  | inl new ↦ elim ((create_pod-Created env p w).0) [
    | inl (e, _, same) ↦ subst IsCoherent (sym same) v
    | inr (q, asked, same, _, _) ↦ subst IsCoherent (sym same) (
        set_pod-IsCoherent (fresh w.cm) (alloc q w.cm) (live q)
          (subst (λ n. lookup n w.cm.pods ≡ none) (sym (new-name p q w.cm asked)) (absent new))
          (alloc-IsCoherent q w.cm v))
  ]
]
  where
    live : (q : Pod) → fresh w.cm < length (alloc q w.cm).heap
    live q = unfold alloc fresh in omega (arith, length-append w.cm.heap (q ∷ []))

    absent : pod_exists_by_name p.name w.cm ≡ false → lookup p.name w.cm.pods ≡ none
    absent new = unfold pod_exists_by_name in ground (arith, new, contains-lookup p.name w.cm.pods)
