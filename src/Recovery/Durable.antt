-- ===== src/Recovery/Durable.antt =====
-- What a client was told to be created outlives the API server.
use kuberboat.Prelude.{
  ℕ, String, ◌≡◌, refl, ap, ◌∙◌, true, inl, inr, Option, some, none, string_eq, GoMap, lookup,
  insert, lookup-insert_self, IsMap, All, [],
}
use kuberboat.Core.{Pod}
use kuberboat.ComponentManager.{
  ComponentManager, Addr, name_of, fresh, alloc, set_pod, new_component_manager,
}
use kuberboat.Exec.{Result, ok}
use kuberboat.World.{World, Env, Key, Value, key_eq}
use kuberboat.PodControl.{create_pod}
use kuberboat.PodControl.Creation.{IsRequested, create_pod-Created}
use kuberboat.Recovery.{as_pod, recover}
use kuberboat.Recovery.Pods.{view, view-insert, deref-fresh}
use kuberboat.Recovery.Restored.{IsConsistent, IsRestored}
use kuberboat.Recovery.Restoring.{recover-IsRestored}
use kuberboat.Recovery.Lookup.{Fits, value_at, as_found, or_else, lookup-stored}

-- The pod that the cache has under the name.
abbrev pub cached : String → ComponentManager → Option Pod
cached n cm = lookup n (view cm.heap cm.pods)

-- A pod stands under its own name in etcd.
abbrev pub FitsPod : Key × Value → Type 0
FitsPod = Fits as_pod Key.pods (λ p. p.name)

pods_injective : (a b : String) → Key.pods a ≡ Key.pods b → a ≡ b
pods_injective a b e = cc

none_else : (o : Option Pod) → or_else o none ≡ o
none_else none = refl
none_else (some p) = refl

cached-set_pod :
    (q : Pod) (n : String) (cm : ComponentManager)
    → q.name ≡ n
    → cached n (set_pod (fresh cm) (alloc q cm)) ≡ some q
unfolding set_pod
cached-set_pod q n cm e =
    ap (lookup n) (
      view-insert (alloc q cm).heap (name_of (alloc q cm).heap (fresh cm)) (fresh cm)
        (alloc q cm).pods
      ∙ ap (λ (x : Pod). insert x.name x (view (alloc q cm).heap (alloc q cm).pods))
          (deref-fresh q cm)
      ∙ ap (λ k. insert k q (view (alloc q cm).heap (alloc q cm).pods)) e)
    ∙ lookup-insert_self n q (view (alloc q cm).heap (alloc q cm).pods)

-- The new server has under a name what etcd has under its key.
restored-cached :
    (m : GoMap Key Value) (nodes : GoMap String _) (ip : _) (r : Result (Unit {0}) × World)
    (n : String)
    → IsMap m
    → All FitsPod m
    → IsRestored m nodes ip r
    → cached n r.1.cm ≡ value_at as_pod (Key.pods n) m
unfolding lookup
restored-cached m nodes ip r n once fits h =
    ap (lookup n) h.pods
    ∙ lookup-stored as_pod Key.pods (λ p. p.name) pods_injective m n [] once fits
    ∙ none_else (value_at as_pod (Key.pods n) m)

-- If CreatePod succeeds, and the server is then replaced by a new one whose calls succeed and whose
-- workers all answer 0, the new server has under the name of the pod the same pod as the old one:
-- that of the request. What is in etcd then has to be consistent, with each pod under its own name.
pub recover-create_pod :
    (env later : Env) (status : ℕ → ℕ) (p : Pod) (w new : World) (a : Addr)
    → (create_pod env p w).0 ≡ ok a
    → ((i : ℕ) → later.succeeds i ≡ true)
    → ((i : ℕ) → status i ≡ 0)
    → new.cm ≡ new_component_manager
    → new.nodes ≡ []
    → new.etcd ≡ (create_pod env p w).1.etcd
    → IsConsistent new.etcd
    → IsMap new.etcd
    → All FitsPod new.etcd
    → (q : Pod) × IsRequested p q
      × (cached p.name (create_pod env p w).1.cm ≡ some q)
      × (cached p.name (recover later status new).1.cm ≡ some q)
unfolding as_pod
recover-create_pod env later status p w new a created up fine cm nodes same c once fits =
    elim (create_pod-Created env p w).0 [
      | inl (e, failed, _) ↦ cc
      | inr (q, asked, cache, kept, _) ↦ (
        q,
        asked,
        ap (cached p.name) cache ∙ cached-set_pod q p.name w.cm asked.name,
        restored-cached new.etcd _ _ (recover later status new) p.name once fits
              (recover-IsRestored later status up fine new cm nodes c)
            ∙ ap (λ m. value_at as_pod (Key.pods p.name) m) same
            ∙ ap (as_found as_pod (Key.pods p.name)) kept,
      )
    ]
