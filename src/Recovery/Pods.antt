-- ===== src/Recovery/Pods.antt =====
-- The pods that a new API server takes over: its map of pods holds what etcd holds, by name.
use kuberboat.Prelude.{
  String, ◌<◌, ◌≡◌, refl, sym, ap, ◌∙◌, Bool-cases, inl, inr, ◌==◌, string_eq, GoMap, insert,
  insert-IsMap, All-insert, All, List, [], ◌∷◌, ◌++◌, length, length-append, get_or-append,
  get_or-append_last, arith,
}
use kuberboat.Core.{Pod, zero_pod}
use kuberboat.ComponentManager.{
  ComponentManager, Addr, Heap, deref, name_of, fresh, alloc, set_pod, new_component_manager,
}
use kuberboat.ComponentManager.Integrity.{IsCoherent, Named, alloc-IsCoherent, new-IsCoherent}
use kuberboat.Recovery.{recover_pods}

-- The map of pods with each object in place of its address.
abbrev pub view : Heap → GoMap String Addr → GoMap String Pod
view h [] = []
view h ((n, a) ∷ m) = (n, deref h a) ∷ view h m

-- A map filled from a list, entry by entry; of two entries of one name the later one counts.
module _ {A B : Type 0} (name : A → String) (value : A → B) where
  abbrev pub by_name : List A → GoMap String B → GoMap String B
  by_name [] m = m
  by_name (x ∷ xs) m = by_name xs (insert (name x) (value x) m)

abbrev pub pods_by_name : List Pod → GoMap String Pod → GoMap String Pod
pods_by_name = by_name (λ p. p.name) (λ p. p)

pub view-insert :
    (h : Heap) (n : String) (a : Addr) (m : GoMap String Addr)
    → view h (insert n a m) ≡ insert n (deref h a) (view h m)
unfolding insert
view-insert h n a [] = refl
view-insert h n a ((k, b) ∷ m) = elim (Bool-cases (k == n)) [
  | inl hit ↦ rw hit refl
  | inr miss ↦ rw miss (ap (λ r. (k, deref h b) ∷ r) (view-insert h n a m))
]

view-alloc :
    (p : Pod) (h : Heap) (m : GoMap String Addr) → All (Named h) m → view (h ++ p ∷ []) m ≡ view h m
unfolding deref
view-alloc p h [] named = refl
view-alloc p h ((n, a) ∷ m) named =
    rw (get_or-append zero_pod h (p ∷ []) a named.0.0, view-alloc p h m named.1) refl

-- Only pods have been taken over yet: those of `m`, at the addresses `known`.
pub record IsLoaded (m : GoMap String Pod) (known : GoMap String Addr) (cm : ComponentManager)
    : Type 0 where
  pub coherent : IsCoherent cm
  pub same : known ≡ cm.pods
  pub viewed : view cm.heap cm.pods ≡ m
  pub no_services : cm.services ≡ []
  pub no_deployments : cm.deployments ≡ []
  pub no_service_lists : cm.services_to_pods ≡ []
  pub no_deployment_lists : cm.deployment_to_pods ≡ []

pub new-IsLoaded : IsLoaded [] [] new_component_manager
unfolding new_component_manager
new-IsLoaded = record {
  coherent = new-IsCoherent;
  same = refl;
  viewed = refl;
  no_services = refl;
  no_deployments = refl;
  no_service_lists = refl;
  no_deployment_lists = refl;
}

pub deref-fresh : (p : Pod) (cm : ComponentManager) → deref (alloc p cm).heap (fresh cm) ≡ p
unfolding deref alloc fresh
deref-fresh p cm = get_or-append_last zero_pod cm.heap p

-- While there are no lists, a pod may replace another of its name.
set_pod-IsCoherent :
    (a : Addr) (cm : ComponentManager)
    → a < length cm.heap
    → cm.services_to_pods ≡ []
    → cm.deployment_to_pods ≡ []
    → IsCoherent cm
    → IsCoherent (set_pod a cm)
unfolding set_pod
set_pod-IsCoherent a cm lt services deployments v = record {
  pods_once = insert-IsMap (name_of cm.heap a) a cm.pods v.pods_once;
  pods_named = All-insert (Named cm.heap) (name_of cm.heap a) a cm.pods (lt, refl) v.pods_named;
  deployments_linked = rw deployments tt;
  services_linked = rw services tt;
  deployments_listed = v.deployments_listed;
  services_listed = v.services_listed;
}

set_pod-IsLoaded :
    (p : Pod) (m : GoMap String Pod) (known : GoMap String Addr) (cm : ComponentManager)
    → IsLoaded m known cm
    → IsLoaded
        (insert p.name p m)
        (insert p.name (fresh cm) known)
        (set_pod (fresh cm) (alloc p cm))
unfolding set_pod alloc fresh
set_pod-IsLoaded p m known cm l = record {
  coherent =
      set_pod-IsCoherent (fresh cm) (alloc p cm) (omega (arith, length-append cm.heap (p ∷ [])))
        l.no_service_lists l.no_deployment_lists (alloc-IsCoherent p cm l.coherent);
  same =
      ap (insert p.name (fresh cm)) l.same
      ∙ ap (λ (q : Pod). insert q.name (fresh cm) cm.pods) (sym (deref-fresh p cm));
  viewed =
      view-insert (alloc p cm).heap _ (fresh cm) cm.pods
      ∙ ap (λ (q : Pod). insert q.name q (view (alloc p cm).heap cm.pods)) (deref-fresh p cm)
      ∙ ap (insert p.name p) (view-alloc p cm.heap cm.pods l.coherent.pods_named ∙ l.viewed);
  no_services = l.no_services;
  no_deployments = l.no_deployments;
  no_service_lists = l.no_service_lists;
  no_deployment_lists = l.no_deployment_lists;
}

pub recover_pods-IsLoaded :
    (ps : List Pod) (m : GoMap String Pod) (known : GoMap String Addr) (cm : ComponentManager)
    → IsLoaded m known cm
    → (let r = recover_pods ps known cm in IsLoaded (pods_by_name ps m) r.0 r.1)
unfolding recover_pods
recover_pods-IsLoaded [] m known cm l = l
recover_pods-IsLoaded (p ∷ ps) m known cm l =
    recover_pods-IsLoaded ps (insert p.name p m) (insert p.name (fresh cm) known)
      (set_pod (fresh cm) (alloc p cm)) (set_pod-IsLoaded p m known cm l)
