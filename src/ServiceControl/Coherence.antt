-- ===== src/ServiceControl/Coherence.antt =====
-- The creation and the deletion of services.
use kuberboat.Prelude.{
  String, ◌≡◌, refl, sym, ap, subst, ◌∙◌, ◌⊎◌, inl, inr, true, false, Bool-cases, unless, when,
  Option-cases, string_eq, lookup, insert, GoMap, lookup-insert, lookup-insert_self, List, [], ◌∷◌,
  suc, Option, none, some, arith,
}
use kuberboat.Core.{PodPhase, Service}
use kuberboat.ComponentManager
use kuberboat.ComponentManager.{
  ComponentManager, Addr, list_pods_by_labels_and_phase, set_service, service_exists_by_name,
  get_service_by_name,
}
use kuberboat.ComponentManager.Integrity.{
  IsCoherent, set_service-IsCoherent, delete_service_by_name-IsCoherent as remove-IsCoherent,
}
use kuberboat.ComponentManager.Selection.{list_pods_by_labels_and_phase-Linked}
use kuberboat.Exec.{
  Error, Result, ok, err, service_exists, no_such_service, etcd_failed, race_condition, log_error,
  modify, ◌>>◌,
}
use kuberboat.Exec.Keeps.{continue_cases}
use kuberboat.World.{World, Env, Client, Rpc, Key, Value, key_eq, key_beq, Api, send}
use kuberboat.Nodes.{clients}
use kuberboat.ClusterIp.{next_cluster_ip, next_ip, assign}
use kuberboat.ServiceControl.{
  broadcast, store, publish, issue, create_service, get_pod_names, get_pod_ips, assigned,
  delete_service_by_name, delete_service_in_etcd, withdraw,
}

abbrev pub SameCm : ComponentManager → World → Type 0
SameCm cm v = v.cm ≡ cm

module _ (env : Env) where
  pub broadcast-cm : (cs : List Client) (r : Rpc) (w : World) → (broadcast env cs r w).1.cm ≡ w.cm
  unfolding broadcast
  broadcast-cm [] r w = refl
  broadcast-cm (c ∷ cs) r w = broadcast-cm cs r (send env c r w).1

  assign-cm : (next : Option _) (w : World) → (assign env next w).1.cm ≡ w.cm
  unfolding assign
  assign-cm none w = refl
  assign-cm (some ip) w = ground arith

  next_cluster_ip-cm : (w : World) → (next_cluster_ip env w).1.cm ≡ w.cm
  unfolding next_cluster_ip
  next_cluster_ip-cm w = assign-cm (next_ip w.current_ip) w

-- The service that is stored for a request.
pub record IsAssigned (s q : Service) : Type 0 where
  pub name : q.name ≡ s.name
  pub labels : q.labels ≡ s.labels
  pub ports : q.spec.ports ≡ s.spec.ports
  pub selector : q.spec.selector ≡ s.spec.selector

-- Either an error, with the cache as it was, or a new entry that etcd has too.
abbrev pub Stored : Service → List Addr → ComponentManager → Result (Unit {0}) × World → Type 0
Stored s xs cm (r, v) =
    ((e : Error) × (r ≡ err e) × (v.cm ≡ cm))
    ⊎ ((r ≡ ok tt)
        × (v.cm ≡ set_service s xs cm)
        × (lookup (Key.services_meta s.name) v.etcd ≡ some (Value.service s))
        × (lookup (Key.services_pods s.name) v.etcd
            ≡ some (Value.names (get_pod_names cm.heap xs))))

module _ (env : Env) where
  store-Stored :
      (s : Service) (xs : List Addr) (w : World)
      → Stored s xs w.cm (store env s (get_pod_names w.cm.heap xs) xs w)
  unfolding store
  store-Stored s xs w = elim (Bool-cases (env.succeeds w.calls)) [
    | inr refused ↦ rw refused (inl (etcd_failed, refl, refl))
    | inl meta ↦ elim (Bool-cases (env.succeeds (suc w.calls))) [
      | inr refused ↦ rw (meta, refused) (inl (etcd_failed, refl, refl))
      | inl pods ↦
          rw (meta, pods)
            (inr (refl, refl, below, lookup-insert_self (Key.services_pods s.name) members stored))
    ]
  ]
    where
      members : Value
      members = Value.names (get_pod_names w.cm.heap xs)

      stored : GoMap Key Value
      stored = insert (Key.services_meta s.name) (Value.service s) w.etcd

      below :
          lookup (Key.services_meta s.name) (insert (Key.services_pods s.name) members stored)
          ≡ some (Value.service s)
      below =
          lookup-insert (Key.services_pods s.name) (Key.services_meta s.name) members stored
          ∙ (unfold key_beq in
              lookup-insert_self (Key.services_meta s.name) (Value.service s) w.etcd)

  publish-Stored :
      (s : Service) (xs : List Addr) (w : World) → Stored s xs w.cm (publish env s xs w)
  unfolding publish
  publish-Stored s xs w =
      continue_cases (Stored s xs w.cm) (SameCm w.cm) (λ _. store env s names xs)
        (broadcast env (clients w) request w) (broadcast-cm env (clients w) request w)
        (λ e v same. inl (e, refl, same))
        (λ _ v same.
          subst (λ cm. Stored s xs cm (store env s (get_pod_names cm.heap xs) xs v)) same
            (store-Stored s xs v))
    where
      names : List String
      names = get_pod_names w.cm.heap xs

      request : Rpc
      request = Rpc.create_service s names (get_pod_ips w.cm.heap xs)

  -- The outcome of a creation: an error and the cache as it was, or the service under its name,
  -- with the ready pods whose labels include its selector, in the cache and in etcd.
  abbrev pub ServiceCreated : Service → ComponentManager → Result (Unit {0}) × World → Type 0
  ServiceCreated s cm r =
      ((e : Error) × (r.0 ≡ err e) × (r.1.cm ≡ cm))
      ⊎ ((q : Service) × IsAssigned s q
          × Stored q (list_pods_by_labels_and_phase s.spec.selector PodPhase.ready cm) cm r)

  issue-ServiceCreated :
      (s : Service) (ip : String) (w : World) → ServiceCreated s w.cm (issue env s ip w)
  unfolding issue
  issue-ServiceCreated s ip w =
      elim (publish-Stored (assigned ip (env.uuid w.calls) (env.now (suc w.calls)) s)
        (list_pods_by_labels_and_phase s.spec.selector PodPhase.ready w.cm)
        (record w { calls = suc (suc w.calls) })) [
          | inl failed ↦ inl failed
          | inr done ↦ inr (
            assigned ip (env.uuid w.calls) (env.now (suc w.calls)) s,
            record { name = refl; labels = refl; ports = refl; selector = refl },
            inr done,
          )
        ]

  -- A creation fails and leaves the cache as it was, or the service is in the cache and in etcd
  -- with the request's name, labels, ports and selector, and its list is the ready pods whose
  -- labels include the selector. A name that is taken is always refused.
  pub create_service-ServiceCreated :
      (s : Service) (w : World)
      → ServiceCreated s w.cm (create_service env s w)
        × ((service_exists_by_name s.name w.cm ≡ false)
            ⊎ (create_service env s w ≡ (err (service_exists s.name), w)))
  unfolding create_service
  create_service-ServiceCreated s w =
      (outcome, unless (service_exists_by_name s.name w.cm) (λ e. rw e refl))
    where
      outcome : ServiceCreated s w.cm (create_service env s w)
      outcome = elim (Bool-cases (service_exists_by_name s.name w.cm)) [
        | inl taken ↦ rw taken (inl (service_exists s.name, refl, refl))
        | inr new ↦ rw new (
            continue_cases (ServiceCreated s w.cm) (SameCm w.cm) (issue env s)
              (next_cluster_ip env w) (next_cluster_ip-cm env w) (λ e v same. inl (e, refl, same))
              (λ ip v same.
                subst (λ cm. ServiceCreated s cm (issue env s ip v)) same
                  (issue-ServiceCreated s ip v)))
      ]

  -- The creation of a service keeps the cache coherent, whatever fails on the way.
  pub create_service-IsCoherent :
      (s : Service) (w : World) → IsCoherent w.cm → IsCoherent (create_service env s w).1.cm
  create_service-IsCoherent s w v = elim ((create_service-ServiceCreated s w).0) [
    | inl (e, _, same) ↦ subst IsCoherent (sym same) v
    | inr (q, _, inl (e, _, same)) ↦ subst IsCoherent (sym same) v
    | inr (q, _, inr (_, same, _, _)) ↦ subst IsCoherent (sym same) (
        set_service-IsCoherent q _ w.cm
          (list_pods_by_labels_and_phase-Linked s.spec.selector PodPhase.ready w.cm v) v)
  ]

module _ (env : Env) where
  delete_service_in_etcd-cm :
      (n : String) (w : World) → (log_error (delete_service_in_etcd env n) w).1.cm ≡ w.cm
  unfolding delete_service_in_etcd
  delete_service_in_etcd-cm n w = ground arith

  -- A deletion fails and leaves the cache as it was, or the service and its list are gone.
  abbrev pub ServiceDeleted : String → ComponentManager → Result (Unit {0}) × World → Type 0
  ServiceDeleted n cm (r, v) =
      ((e : Error) × (r ≡ err e) × (v.cm ≡ cm))
      ⊎ ((r ≡ ok tt) × (v.cm ≡ ComponentManager.delete_service_by_name n cm))

  withdraw-ServiceDeleted :
      (n : String) (s : Service) (w : World) → ServiceDeleted n w.cm (withdraw env n s w)
  unfolding withdraw
  withdraw-ServiceDeleted n s w =
      continue_cases (ServiceDeleted n w.cm) (SameCm w.cm) (λ _. rest)
        (broadcast env (clients w) (Rpc.delete_service n) w)
        (broadcast-cm env (clients w) (Rpc.delete_service n) w) (λ e v same. inl (e, refl, same))
        (λ _ v same. inr (
          refl,
          ap (ComponentManager.delete_service_by_name n)
              (delete_service_in_etcd-cm s.name v ∙ same),
        ))
    where
      rest : Api (Unit {0})
      rest =
          log_error (delete_service_in_etcd env s.name)
          >> modify λ v. record v { cm = ComponentManager.delete_service_by_name n v.cm }

  -- The deletion of a service refuses an unknown name; otherwise it fails and leaves the cache as it
  -- was, or takes the service and its list out of the cache, whether or not etcd follows.
  pub delete_service_by_name-ServiceDeleted :
      (n : String) (w : World)
      → ServiceDeleted n w.cm (delete_service_by_name env n w)
        × ((service_exists_by_name n w.cm ≡ true)
            ⊎ (delete_service_by_name env n w ≡ (err (no_such_service n), w)))
  unfolding delete_service_by_name
  delete_service_by_name-ServiceDeleted n w =
      (outcome, when (service_exists_by_name n w.cm) (λ e. rw e refl))
    where
      outcome : ServiceDeleted n w.cm (delete_service_by_name env n w)
      outcome = elim (Bool-cases (service_exists_by_name n w.cm)) [
        | inr unknown ↦ rw unknown (inl (no_such_service n, refl, refl))
        | inl known ↦ rw known (elim (Option-cases (get_service_by_name n w.cm)) [
          | inl missing ↦ rw missing (inl (race_condition n, refl, refl))
          | inr (s, found) ↦ rw found (withdraw-ServiceDeleted n s w)
        ])
      ]

  -- The deletion of a service keeps the cache coherent, whatever fails on the way.
  pub delete_service_by_name-IsCoherent :
      (n : String) (w : World) → IsCoherent w.cm → IsCoherent (delete_service_by_name env n w).1.cm
  delete_service_by_name-IsCoherent n w v = elim ((delete_service_by_name-ServiceDeleted n w).0) [
    | inl (e, _, same) ↦ subst IsCoherent (sym same) v
    | inr (_, same) ↦ subst IsCoherent (sym same) (remove-IsCoherent n w.cm v)
  ]
