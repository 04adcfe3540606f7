-- ===== src/ComponentManager/Selection.antt =====
-- Which pods the queries of the cache select.
use kuberboat.Prelude.{
  String, ◌≡◌, ◌≢◌, ◌↔◌, sym, ap, subst, ◌∙◌, Bool, false, ◌&&◌, ◌==◌, ==_iff, ==_refl, Bool-cases,
  string_eq, inl, inr, GoMap, lookup, contains, contains-lookup, values, IsMap, List, [], ◌∷◌,
  filter, All, In, filter-In, In-filter, some, arith,
}
use kuberboat.Core.{PodPhase, phase_eq, Labels}
use kuberboat.Util.{is_subset}
use kuberboat.Util.Subset.{IsSubset, is_subset_iff}
use kuberboat.ComponentManager.State.{Addr, Heap, deref, name_of, ComponentManager}
use kuberboat.ComponentManager.Pods.{list_pods_by_labels_and_phase}
use kuberboat.ComponentManager.Links.{Linked}
use kuberboat.ComponentManager.Integrity.{Named, IsCoherent}

module _ (h : Heap) (m : GoMap String Addr) where
  -- A later entry of the map is another object, since its name differs.
  apart :
      (k : String) (a : Addr) (rest : GoMap String Addr)
      → Named h (k, a)
      → contains k rest ≡ false
      → All (Named h) rest
      → All (λ b. a ≢ b) (values rest)
  unfolding contains
  apart k a [] p c l = tt
  apart k a ((j, b) ∷ rest) p c l = (
    (λ e. cc (differ, (==_iff j k).1 (sym l.0.1 ∙ ap (name_of h) (sym e) ∙ p.1))),
    apart k a rest p (ground (arith, c)) l.1,
  )
    where
      differ : (j == k) ≡ false
      differ = ground (arith, c)

  values-Linked :
      (rest : GoMap String Addr)
      → IsMap rest
      → All (Named h) rest
      → ((k : String) (a : Addr) → lookup k rest ≡ some a → lookup k m ≡ some a)
      → Linked h m (values rest)
  values-Linked [] once l sub = tt
  values-Linked ((k, a) ∷ rest) once l sub = (
    l.0.0,
    subst (λ n. lookup n m ≡ some a) (sym l.0.1) (sub k a head),
    apart k a rest l.0 once.0 l.1,
    values-Linked rest once.1 l.1 (λ j b q. sub j b (below j b q)),
  )
    where
      head : lookup k ((k, a) ∷ rest) ≡ some a
      head = unfold lookup in rw (==_refl k)

      below : (j : String) (b : Addr) → lookup j rest ≡ some b → lookup j ((k, a) ∷ rest) ≡ some b
      below j b q = unfold lookup in ground (arith, once.0, q, contains-lookup k rest, ==_iff k j)

filter-Linked :
    (h : Heap) (m : GoMap String Addr) (p : Addr → Bool) (xs : List Addr)
    → Linked h m xs
    → Linked h m (filter p xs)
filter-Linked h m p [] l = tt
filter-Linked h m p (a ∷ xs) l = elim (Bool-cases (p a)) [
  | inl keep ↦ rw keep (l.0, l.1, filter-All xs l.2, filter-Linked h m p xs l.3)
  | inr drop ↦ rw drop (filter-Linked h m p xs l.3)
]
  where
    filter-All : (ys : List Addr) → All (λ b. a ≢ b) ys → All (λ b. a ≢ b) (filter p ys)
    filter-All [] d = tt
    filter-All (b ∷ ys) d = elim (Bool-cases (p b)) [
      | inl keep ↦ rw keep (d.0, filter-All ys d.1)
      | inr drop ↦ rw drop (filter-All ys d.1)
    ]

-- The pods that a service selects are linked to the cache.
pub list_pods_by_labels_and_phase-Linked :
    (ls : Labels) (ph : PodPhase) (cm : ComponentManager)
    → IsCoherent cm
    → Linked cm.heap cm.pods (list_pods_by_labels_and_phase ls ph cm)
unfolding list_pods_by_labels_and_phase
list_pods_by_labels_and_phase-Linked ls ph cm v =
    filter-Linked cm.heap cm.pods _ (values cm.pods)
      (values-Linked cm.heap cm.pods cm.pods v.pods_once v.pods_named (λ k a q. q))

-- The objects of a map are those that its names stand for.
lookup-In : (k : String) (a : Addr) (m : GoMap String Addr) → lookup k m ≡ some a → In a (values m)
unfolding lookup
lookup-In k a [] q = cc
lookup-In k a ((j, b) ∷ m) q = elim (Bool-cases (j == k)) [
  | inl hit ↦ inl (ground (arith, q, hit))
  | inr miss ↦ inr (lookup-In k a m (ground (arith, q, miss)))
]

Linked-In :
    (h : Heap) (m : GoMap String Addr) (a : Addr) (xs : List Addr)
    → Linked h m xs
    → In a xs
    → lookup (name_of h a) m ≡ some a
Linked-In h m a [] l i = absurd i
Linked-In h m a (b ∷ xs) l (inl e) = subst (λ c. lookup (name_of h c) m ≡ some c) (sym e) l.1
Linked-In h m a (b ∷ xs) l (inr i) = Linked-In h m a xs l.3 i

-- In a coherent cache a query by labels and phase lists an object exactly when the object is the
-- registered one of its name, is in the phase, and its labels include those asked for.
pub list_pods_by_labels_and_phase_iff :
    (ls : Labels) (ph : PodPhase) (cm : ComponentManager) (a : Addr)
    → IsCoherent cm
    → In a (list_pods_by_labels_and_phase ls ph cm) ↔ (
        (lookup (name_of cm.heap a) cm.pods ≡ some a)
        × ((deref cm.heap a).status.phase ≡ ph)
        × IsSubset ls (deref cm.heap a).labels)
unfolding list_pods_by_labels_and_phase
list_pods_by_labels_and_phase_iff ls ph cm a v = (sound, complete)
  where
    test : Addr → Bool
    test b = (deref cm.heap b).status.phase == ph && is_subset ls (deref cm.heap b).labels

    sound :
        In a (filter test (values cm.pods))
        → (lookup (name_of cm.heap a) cm.pods ≡ some a)
          × ((deref cm.heap a).status.phase ≡ ph)
          × IsSubset ls (deref cm.heap a).labels
    sound i =
        let r = In-filter test (values cm.pods) i in
        (
          Linked-In cm.heap cm.pods a (values cm.pods)
              (values-Linked cm.heap cm.pods cm.pods v.pods_once v.pods_named (λ k b q. q)) r.0,
          ground (arith, r.1, ==_iff (deref cm.heap a).status.phase ph),
          (is_subset_iff ls (deref cm.heap a).labels).0 (ground (arith, r.1)),
        )

    complete :
        (lookup (name_of cm.heap a) cm.pods ≡ some a)
          × ((deref cm.heap a).status.phase ≡ ph)
          × IsSubset ls (deref cm.heap a).labels
        → In a (filter test (values cm.pods))
    complete (q, e, s) =
        filter-In test (values cm.pods) (lookup-In (name_of cm.heap a) a cm.pods q)
          (rw (e, (is_subset_iff ls (deref cm.heap a).labels).1 s, ==_refl ph))
