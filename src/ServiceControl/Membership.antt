-- ===== src/ServiceControl/Membership.antt =====
-- A pod that becomes ready joins the services that select it.
use kuberboat.Prelude.{
  String, ◌≡◌, refl, sym, ap, ◌∙◌, inl, inr, true, Bool-cases, ◌==◌, ==_iff, string_eq, lookup,
  insert, lookup-map_values, lookup-insert_self, In, List, [], ◌∷◌, ◌++◌, none, some,
}
use mathlib.Core.Option
use kuberboat.ComponentManager
use kuberboat.ComponentManager.{
  ComponentManager, Addr, Heap, deref, name_of, get_pod_by_name, list_services_by_labels,
  remove_pod, add_pod_to_service,
}
use kuberboat.Exec.{ok, err, panic}
use kuberboat.World.{World, Env, Rpc}
use kuberboat.Nodes.{clients}
use kuberboat.ServiceControl.{broadcast, join, add_to_all, notify_ready, handle_pod_ready}
use kuberboat.Exec.Keeps.{continue_cases}
use kuberboat.ServiceControl.Coherence.{SameCm, broadcast-cm}

-- A nil pod is followed, which ends the server.
pub handle_pod_ready-panic :
    (env : Env) (n : String) (w : World)
    → get_pod_by_name n w.cm ≡ none
    → handle_pod_ready env n w ≡ (err panic, w)
unfolding handle_pod_ready
handle_pod_ready-panic env n w q = rw (q, handle_pod_ready)

-- The removal takes the first entry of the name, so one that follows it stays.
remove_pod-push :
    (h : Heap) (n : String) (a b : Addr) (xs : List Addr)
    → In b xs
    → name_of h b ≡ n
    → remove_pod h n (xs ++ a ∷ []) ≡ remove_pod h n xs ++ a ∷ []
unfolding remove_pod
remove_pod-push h n a b [] i e = absurd i
remove_pod-push h n a b (x ∷ xs) (inl same) e =
    let hit : (name_of h x == n) ≡ true =
      (==_iff (name_of h x) n).1 (ap (name_of h) (sym same) ∙ e) in
    rw hit
remove_pod-push h n a b (x ∷ xs) (inr i) e = elim (Bool-cases (name_of h x == n)) [
  | inl hit ↦ rw hit
  | inr miss ↦ rw miss (ap (λ ys. x ∷ ys) (remove_pod-push h n a b xs i e))
]

In-last : (a : Addr) (xs : List Addr) → In a (xs ++ a ∷ [])
In-last a [] = inl refl
In-last a (x ∷ xs) = inr (In-last a xs)

-- What is left of a pod that a service lists twice, after its deletion.
abbrev pub Stale : String → Addr → ComponentManager → Type 0
Stale s a cm =
    (ys : List Addr) × (lookup s
        (ComponentManager.delete_pod_by_name (name_of cm.heap a) cm).services_to_pods
      ≡ some ys)
    × In a ys

-- The list of a service keeps an object that was pushed twice and deleted once.
kept_entry :
    (s : String) (a : Addr) (xs : List Addr) (cm : ComponentManager)
    → lookup s cm.services_to_pods ≡ some xs
    → In a xs
    → (next : ComponentManager) × (add_pod_to_service s a cm ≡ some next) × Stale s a next
unfolding add_pod_to_service ComponentManager.delete_pod_by_name
kept_entry s a xs cm q i = (
  record cm { services_to_pods = insert s (xs ++ a ∷ []) cm.services_to_pods },
  rw (q, add_pod_to_service),
  (
    remove_pod cm.heap (name_of cm.heap a) xs ++ a ∷ [],
    lookup-map_values _ s (insert s (xs ++ a ∷ []) cm.services_to_pods)
        ∙ ap (Option.map (remove_pod cm.heap (name_of cm.heap a)))
            (lookup-insert_self s (xs ++ a ∷ []) cm.services_to_pods)
        ∙ ap some (remove_pod-push cm.heap (name_of cm.heap a) a a xs i refl),
    In-last a (remove_pod cm.heap (name_of cm.heap a) xs),
  ),
)

join_one :
    (s : String) (a : Addr) (w : World) (next : ComponentManager)
    → add_pod_to_service s a w.cm ≡ some next
    → join a (s ∷ []) w ≡ (ok tt, record w { cm = next })
join_one s a w next q = unfold join in rw (q, join, add_to_all)

join-Stale :
    (s : String) (a : Addr) (xs : List Addr) (w : World)
    → lookup s w.cm.services_to_pods ≡ some xs
    → In a xs
    → Stale s a (join a (s ∷ []) w).1.cm
join-Stale s a xs w q i =
    let (next, added, stale) = kept_entry s a xs w.cm q i in rw (join_one s a w next added) stale

notify_ready-Stale :
    (env : Env) (n s : String) (a : Addr) (xs : List Addr) (w : World)
    → lookup s w.cm.services_to_pods ≡ some xs
    → In a xs
    → (notify_ready env n a (s ∷ []) w).0 ≡ ok tt
    → Stale s a (notify_ready env n a (s ∷ []) w).1.cm
unfolding notify_ready
notify_ready-Stale env n s a xs w q i =
    continue_cases (λ r. r.0 ≡ ok tt → Stale s a r.1.cm) (SameCm w.cm) (λ _. join a (s ∷ []))
      (broadcast env (clients w) request w) (broadcast-cm env (clients w) request w)
      (λ e v same failed. cc)
      (λ _ v same done.
        join-Stale s a xs v (ap (λ (cm : ComponentManager). lookup s cm.services_to_pods) same ∙ q)
          i)
  where
    request : Rpc
    request = Rpc.add_pod_to_services (s ∷ []) n (deref w.cm.heap a).status.pod_ip

-- A pod that a service lists already, as when the service was created between the report that the
-- pod is ready and its handling, is listed once more when it is handled. If then the pod is
-- deleted, the service still lists it.
pub handle_pod_ready-Stale :
    (env : Env) (n s : String) (a : Addr) (xs : List Addr) (w : World)
    → get_pod_by_name n w.cm ≡ some a
    → list_services_by_labels (deref w.cm.heap a).labels w.cm ≡ s ∷ []
    → lookup s w.cm.services_to_pods ≡ some xs
    → In a xs
    → (handle_pod_ready env n w).0 ≡ ok tt
    → Stale s a (handle_pod_ready env n w).1.cm
handle_pod_ready-Stale env n s a xs w found selected q i =
    rw opened (notify_ready-Stale env n s a xs w q i)
  where
    opened : handle_pod_ready env n w ≡ notify_ready env n a (s ∷ []) w
    opened = unfold handle_pod_ready in rw (found, handle_pod_ready, selected)
