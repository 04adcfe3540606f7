-- ===== src/ServiceControl/Joining.antt =====
-- A pod that becomes ready, and that no service lists yet.
use kuberboat.Prelude.{
  ◌<◌, String, ◌≡◌, ◌≢◌, refl, sym, ap, subst, ◌∙◌, ◌⊎◌, inl, inr, ==_iff, string_eq, lookup,
  lookup-insert, lookup-insert_self, All-lookup, insert, All, All-map, NoneTwice, List, [], ◌∷◌,
  ◌++◌, length, some, Option, arith,
}
use kuberboat.ComponentManager.{
  ComponentManager, Addr, deref, name_of, get_pod_by_name, list_services_by_labels,
  add_pod_to_service,
}
use kuberboat.ComponentManager.Integrity.{IsCoherent, Named}
use kuberboat.ComponentManager.Growth.{add_pod_to_service-IsCoherent}
use kuberboat.Exec.{Error, Result, ok, err}
use kuberboat.Exec.Keeps.{continue_cases}
use kuberboat.World.{World, Env, Rpc}
use kuberboat.Nodes.{clients}
use kuberboat.ServiceControl.{broadcast, join, add_to_all, notify_ready, handle_pod_ready}
use kuberboat.ServiceControl.Coherence.{SameCm, broadcast-cm}

-- The service has a list, without the pod.
abbrev pub IsFree : Addr → ComponentManager → String → Type 0
IsFree a cm s = (xs : List Addr) × (lookup s cm.services_to_pods ≡ some xs) × All (λ b. b ≢ a) xs

-- The pod stands last in the list of the service, which is else as it was.
abbrev pub HasJoined : Addr → ComponentManager → ComponentManager → String → Type 0
HasJoined a before after s =
    (xs : List Addr) × (lookup s before.services_to_pods ≡ some xs)
    × (lookup s after.services_to_pods ≡ some (xs ++ a ∷ []))

added : String → Addr → List Addr → ComponentManager → ComponentManager
added s a xs cm = record cm { services_to_pods = insert s (xs ++ a ∷ []) cm.services_to_pods }

module _ (a : Addr) where
  added_lem :
      (s : String) (xs : List Addr) (cm : ComponentManager)
      → lookup s cm.services_to_pods ≡ some xs
      → add_pod_to_service s a cm ≡ some (added s a xs cm)
  unfolding add_pod_to_service added
  added_lem s xs cm q = rw (q, add_pod_to_service) refl

  added_other :
      (s k : String) (xs : List Addr) (cm : ComponentManager)
      → s ≢ k
      → lookup k (added s a xs cm).services_to_pods ≡ lookup k cm.services_to_pods
  unfolding added
  added_other s k xs cm d =
      ground (arith, lookup-insert s k (xs ++ a ∷ []) cm.services_to_pods, ==_iff s k)

  same_cm : {x y : ComponentManager} → some x ≡ some y → x ≡ y
  same_cm e = cc

  added-IsCoherent :
      (s : String) (xs : List Addr) (cm : ComponentManager)
      → a < length cm.heap
      → lookup (name_of cm.heap a) cm.pods ≡ some a
      → lookup s cm.services_to_pods ≡ some xs
      → All (λ b. b ≢ a) xs
      → IsCoherent cm
      → IsCoherent (added s a xs cm)
  added-IsCoherent s xs cm live held q new v =
      let r = add_pod_to_service-IsCoherent s a xs cm live held new v q in
      subst IsCoherent (same_cm (sym r.1 ∙ added_lem s xs cm q)) r.2

  still-IsFree :
      (s : String) (xs : List Addr) (cm : ComponentManager) (ns : List String)
      → All (λ k. s ≢ k) ns
      → All (IsFree a cm) ns
      → All (IsFree a (added s a xs cm)) ns
  still-IsFree s xs cm [] d free = tt
  still-IsFree s xs cm (k ∷ ns) d ((ys, q, new), free) =
      ((ys, added_other s k xs cm d.0 ∙ q, new), still-IsFree s xs cm ns d.1 free)

  joined_before :
      (s : String) (xs : List Addr) (cm next : ComponentManager) (ns : List String)
      → All (λ k. s ≢ k) ns
      → All (HasJoined a (added s a xs cm) next) ns
      → All (HasJoined a cm next) ns
  joined_before s xs cm next [] d j = tt
  joined_before s xs cm next (k ∷ ns) d ((ys, q, e), j) =
      ((ys, sym (added_other s k xs cm d.0) ∙ q, e), joined_before s xs cm next ns d.1 j)

  added_self :
      (s : String) (xs : List Addr) (cm : ComponentManager)
      → lookup s (added s a xs cm).services_to_pods ≡ some (xs ++ a ∷ [])
  unfolding added
  added_self s xs cm = lookup-insert_self s (xs ++ a ∷ []) cm.services_to_pods

  -- The pod joins every list.
  record Joins (ns : List String) (cm : ComponentManager) (r : Option ComponentManager)
      : Type 0 where
    next : ComponentManager
    result : r ≡ some next
    coherent : IsCoherent next
    joined : All (HasJoined a cm next) ns
    others :
        (k : String)
        → All (λ n. n ≢ k) ns
        → lookup k next.services_to_pods ≡ lookup k cm.services_to_pods

  add_to_all-Joins :
      (ns : List String) (cm : ComponentManager)
      → a < length cm.heap
      → lookup (name_of cm.heap a) cm.pods ≡ some a
      → NoneTwice ns
      → All (IsFree a cm) ns
      → IsCoherent cm
      → Joins ns cm (add_to_all a ns cm)
  unfolding add_to_all added
  add_to_all-Joins [] cm live held apart free v = record {
    next = cm;
    result = refl;
    coherent = v;
    joined = tt;
    others = λ k d. refl;
  }
  add_to_all-Joins (s ∷ ns) cm live held apart ((xs, q, new), free) v =
      let ih =
        add_to_all-Joins ns (added s a xs cm) live held apart.1
          (still-IsFree s xs cm ns apart.0 free) (added-IsCoherent s xs cm live held q new v) in
      rw (added_lem s xs cm q, add_to_all)
        (record {
          next = ih.next;
          result = ih.result;
          coherent = ih.coherent;
          joined = (
            (
              xs,
              q,
              ih.others s (All-map (λ k. s ≢ k) (λ k. k ≢ s) ns (λ k d e. d (sym e)) apart.0)
                  ∙ added_self s xs cm,
            ),
            joined_before s xs cm ih.next ns apart.0 ih.joined,
          );
          others = λ k d. ih.others k d.1 ∙ added_other s k xs cm d.0;
        })

-- An error and the cache as it was, or every service of the names has the pod at the end of its
-- list, and the cache is coherent.
abbrev pub Joined : Addr → List String → ComponentManager → Result (Unit {0}) × World → Type 0
Joined a ns cm r =
    ((e : Error) × (r.0 ≡ err e) × (r.1.cm ≡ cm))
    ⊎ ((r.0 ≡ ok tt) × IsCoherent r.1.cm × All (HasJoined a cm r.1.cm) ns)

module _ (a : Addr) (ns : List String) (w : World) (v : IsCoherent w.cm)
    (live : a < length w.cm.heap) (held : lookup (name_of w.cm.heap a) w.cm.pods ≡ some a)
    (apart : NoneTwice ns) (free : All (IsFree a w.cm) ns) where
  join-Joined : (u : World) → u.cm ≡ w.cm → Joined a ns w.cm (join a ns u)
  unfolding join
  join-Joined u same =
      let j = add_to_all-Joins a ns w.cm live held apart free v in
      rw (ap (add_to_all a ns) same ∙ j.result, join) (inr (refl, j.coherent, j.joined))

notify_ready-Joined :
    (env : Env) (n : String) (a : Addr) (ns : List String) (w : World)
    → IsCoherent w.cm
    → a < length w.cm.heap
    → lookup (name_of w.cm.heap a) w.cm.pods ≡ some a
    → NoneTwice ns
    → All (IsFree a w.cm) ns
    → Joined a ns w.cm (notify_ready env n a ns w)
unfolding notify_ready
notify_ready-Joined env n a [] w v live held apart free = inr (refl, v, tt)
notify_ready-Joined env n a (s ∷ ss) w v live held apart free =
    let request = Rpc.add_pod_to_services (s ∷ ss) n (deref w.cm.heap a).status.pod_ip in
    continue_cases (Joined a (s ∷ ss) w.cm) (SameCm w.cm) (λ _. join a (s ∷ ss))
      (broadcast env (clients w) request w) (broadcast-cm env (clients w) request w)
      (λ e u same. inl (e, refl, same))
      (λ _ u same. join-Joined a (s ∷ ss) w v live held apart free u same)

-- The handling of a pod that became ready, that the cache has, and that no service which selects it
-- lists yet: if the services cannot be told to a worker there is an error and the cache stays as it
-- was; otherwise each of these services has the pod at the end of its list, and the cache is
-- coherent. Each service is selected once.
pub handle_pod_ready-Joined :
    (env : Env) (n : String) (a : Addr) (w : World)
    → get_pod_by_name n w.cm ≡ some a
    → IsCoherent w.cm
    → NoneTwice (list_services_by_labels (deref w.cm.heap a).labels w.cm)
    → All (IsFree a w.cm) (list_services_by_labels (deref w.cm.heap a).labels w.cm)
    → Joined a
        (list_services_by_labels (deref w.cm.heap a).labels w.cm)
        w.cm
        (handle_pod_ready env n w)
unfolding handle_pod_ready get_pod_by_name
handle_pod_ready-Joined env n a w found v apart free =
    let named = All-lookup (Named w.cm.heap) n w.cm.pods v.pods_named found in
    rw (found, handle_pod_ready)
      (notify_ready-Joined env n a (list_services_by_labels (deref w.cm.heap a).labels w.cm) w v
        named.0 (subst (λ k. lookup k w.cm.pods ≡ some a) (sym named.1) found) apart free)
