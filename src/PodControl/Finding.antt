-- ===== src/PodControl/Finding.antt =====
-- The pods that a request asks for by name.
use kuberboat.Prelude.{
  String, ◌≡◌, refl, ◌⊎◌, inl, inr, sym, subst, Option-cases, string_eq, lookup, contains-lookup,
  List, [], ◌∷◌, In, none, some,
}
use kuberboat.ComponentManager.{ComponentManager, Addr, get_pod_by_name, pod_exists_by_name}
use kuberboat.PodControl.{find_pods}

-- The name stands for a pod that was found, or is reported as missing and stands for none.
abbrev pub Answered : ComponentManager → String → List Addr × List String → Type 0
Answered cm n (found, missing) =
    ((a : Addr) × (get_pod_by_name n cm ≡ some a) × In a found)
    ⊎ ((get_pod_by_name n cm ≡ none) × In n missing)

more_found :
    (cm : ComponentManager) (n : String) (a : Addr) (r : List Addr × List String)
    → Answered cm n r
    → Answered cm n (a ∷ r.0, r.1)
more_found cm n a (found, missing) (inl (b, q, i)) = inl (b, q, inr i)
more_found cm n a (found, missing) (inr (q, i)) = inr (q, i)

more_missing :
    (cm : ComponentManager) (n m : String) (r : List Addr × List String)
    → Answered cm n r
    → Answered cm n (r.0, m ∷ r.1)
more_missing cm n m (found, missing) (inl (b, q, i)) = inl (b, q, i)
more_missing cm n m (found, missing) (inr (q, i)) = inr (q, inr i)

-- Each name that is asked for is answered: by its pod, or as missing, and then no pod has it.
pub find_pods-Answered :
    (cm : ComponentManager) (n : String) (ns : List String)
    → In n ns
    → Answered cm n (find_pods cm ns)
unfolding find_pods pod_exists_by_name get_pod_by_name
find_pods-Answered cm n (m ∷ ns) (inr i) = elim (Option-cases (lookup m cm.pods)) [
  | inl unknown ↦
      rw (find_pods, contains-lookup m cm.pods, unknown)
        (more_missing cm n m (find_pods cm ns) (find_pods-Answered cm n ns i))
  | inr (a, known) ↦
      rw (find_pods, contains-lookup m cm.pods, known)
        (more_found cm n a (find_pods cm ns) (find_pods-Answered cm n ns i))
]
find_pods-Answered cm n (m ∷ ns) (inl e) = elim (Option-cases (lookup m cm.pods)) [
  | inl unknown ↦
      rw (find_pods, contains-lookup m cm.pods, unknown)
        (inr (subst (λ k. lookup k cm.pods ≡ none) (sym e) unknown, inl e))
  | inr (a, known) ↦
      rw (find_pods, contains-lookup m cm.pods, known)
        (inl (a, subst (λ k. lookup k cm.pods ≡ some a) (sym e) known, inl refl))
]
find_pods-Answered cm n [] i = absurd i
