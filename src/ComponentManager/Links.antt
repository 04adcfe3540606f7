-- ===== src/ComponentManager/Links.antt =====
-- Lists of pods, as deployments and services keep them: what links them to the map of pods.
use kuberboat.Prelude.{
  In, ◌<◌, String, ◌≡◌, ◌≢◌, sym, ap, subst, ◌∙◌, ◌==◌, ==_iff, Bool-cases, string_eq, inl, inr,
  GoMap, lookup, insert, delete, lookup-insert, lookup-delete, List, [], ◌∷◌, ◌++◌, length, All,
  All-append, none, some, arith, get_or, set, ◌≤◌, get_or-append, get_or-set_self, get_or-set_ne,
}
use native.Mathlib.Decide.{ℕ_discrete}
use kuberboat.Core.{Pod, PodStatus, zero_pod}
use kuberboat.ComponentManager.State.{
  Addr, Heap, deref, name_of, ComponentManager, alloc, set_status,
}
use kuberboat.ComponentManager.Pods.{remove_pod}

-- Every entry is a live object, is the object that the map has under its name, and stands once.
abbrev pub Linked : Heap → GoMap String Addr → List Addr → Type 0
Linked h m [] = Unit
Linked h m (a ∷ xs) =
    (a < length h) × (lookup (name_of h a) m ≡ some a) × All (λ b. a ≢ b) xs × Linked h m xs

-- No entry has the name.
abbrev pub Unnamed : Heap → String → List Addr → Type 0
Unnamed h n xs = All (λ a. name_of h a ≢ n) xs

module _ (h : Heap) (n : String) where
  pub remove_pod-All {ℓ} :
      (P : Addr → Type ℓ) (xs : List Addr) → All P xs → All P (remove_pod h n xs)
  unfolding remove_pod
  remove_pod-All P [] p = tt
  remove_pod-All P (a ∷ xs) p = elim (Bool-cases (name_of h a == n)) [
    | inl hit ↦ rw hit p.1
    | inr miss ↦ rw miss (p.0, remove_pod-All P xs p.1)
  ]

  -- Two linked objects of one name are one object, so a list names no pod twice.
  rest-Unnamed :
      (m : GoMap String Addr) (a : Addr) (xs : List Addr)
      → lookup n m ≡ some a
      → All (λ b. a ≢ b) xs
      → Linked h m xs
      → Unnamed h n xs
  rest-Unnamed m a [] q d l = tt
  rest-Unnamed m a (b ∷ xs) q d l = (
    λ e. d.0 (some_injective (sym q ∙ ap (λ k. lookup k m) (sym e) ∙ l.1)),
    rest-Unnamed m a xs q d.1 l.3,
  )
    where
      some_injective : {x y : Addr} → some x ≡ some y → x ≡ y
      some_injective e = cc

  Linked-delete :
      (m : GoMap String Addr) (xs : List Addr)
      → Unnamed h n xs
      → Linked h m xs
      → Linked h (delete n m) xs
  Linked-delete m [] u l = tt
  Linked-delete m (a ∷ xs) u l = (
    l.0,
    ground (arith, lookup-delete n (name_of h a) m, ==_iff n (name_of h a), l.1, u.0),
    l.2,
    Linked-delete m xs u.1 l.3,
  )

  -- The deletion of a pod leaves a linked list linked to the smaller map, and unnames the pod.
  pub remove_pod-Linked :
      (m : GoMap String Addr) (xs : List Addr)
      → Linked h m xs
      → Linked h (delete n m) (remove_pod h n xs)
  unfolding remove_pod
  remove_pod-Linked m [] l = tt
  remove_pod-Linked m (a ∷ xs) l = elim (Bool-cases (name_of h a == n)) [
    | inl hit ↦ rw hit (
        Linked-delete m xs
          (rest-Unnamed m a xs (subst (λ k. lookup k m ≡ some a) ((==_iff _ n).0 hit) l.1) l.2 l.3)
          l.3)
    | inr miss ↦ rw miss (
      l.0,
      ground (
        arith,
        lookup-delete n (name_of h a) m,
        ==_iff n (name_of h a),
        ==_iff (name_of h a) n,
        l.1,
        miss,
      ),
      remove_pod-All (λ b. a ≢ b) xs l.2,
      remove_pod-Linked m xs l.3,
    )
  ]

  pub remove_pod-Unnamed :
      (m : GoMap String Addr) (xs : List Addr) → Linked h m xs → Unnamed h n (remove_pod h n xs)
  unfolding remove_pod
  remove_pod-Unnamed m [] l = tt
  remove_pod-Unnamed m (a ∷ xs) l = elim (Bool-cases (name_of h a == n)) [
    | inl hit ↦
        rw hit
          (rest-Unnamed m a xs (subst (λ k. lookup k m ≡ some a) ((==_iff _ n).0 hit) l.1) l.2 l.3)
    | inr miss ↦ rw miss (ground (arith, ==_iff (name_of h a) n), remove_pod-Unnamed m xs l.3)
  ]

-- A pod of a new name leaves every list linked.
pub Linked-insert :
    (h : Heap) (n : String) (a : Addr) (m : GoMap String Addr) (xs : List Addr)
    → lookup n m ≡ none
    → Linked h m xs
    → Linked h (insert n a m) xs
Linked-insert h n a m [] q l = tt
Linked-insert h n a m (b ∷ xs) q l = (
  l.0,
  ground (arith, lookup-insert n (name_of h b) a m, ==_iff n (name_of h b), l.1, q),
  l.2,
  Linked-insert h n a m xs q l.3,
)

-- A registered object that the list does not hold may be pushed to its back.
pub Linked-push :
    (h : Heap) (m : GoMap String Addr) (a : Addr) (xs : List Addr)
    → a < length h
    → lookup (name_of h a) m ≡ some a
    → All (λ b. b ≢ a) xs
    → Linked h m xs
    → Linked h m (xs ++ a ∷ [])
Linked-push h m a [] lt q d l = (lt, q, tt, tt)
Linked-push h m a (b ∷ xs) lt q d l =
    (l.0, l.1, All-append (λ c. b ≢ c) xs (a ∷ []) l.2 (d.0, tt), Linked-push h m a xs lt q d.1 l.3)

-- A change of the heap that keeps the live objects and their names keeps what is linked.
pub Linked-heap :
    (h k : Heap) (m : GoMap String Addr) (xs : List Addr)
    → length h ≤ length k
    → ((a : Addr) → a < length h → name_of k a ≡ name_of h a)
    → Linked h m xs
    → Linked k m xs
Linked-heap h k m [] le same l = tt
Linked-heap h k m (a ∷ xs) le same l = (
  omega (arith, l.0),
  ap (λ n. lookup n m) (same a l.0) ∙ l.1,
  l.2,
  Linked-heap h k m xs le same l.3,
)

pub name_of-alloc :
    (cm : ComponentManager) (p : Pod) (a : Addr)
    → a < length cm.heap
    → name_of (alloc p cm).heap a ≡ name_of cm.heap a
unfolding deref alloc
name_of-alloc cm p a lt = ap (λ (q : Pod). q.name) (get_or-append zero_pod cm.heap (p ∷ []) a lt)

pub name_of-set_status :
    (cm : ComponentManager) (a : Addr) (s : PodStatus) (b : Addr)
    → b < length cm.heap
    → name_of (set_status a s cm).heap b ≡ name_of cm.heap b
unfolding deref set_status
name_of-set_status cm a s b lt = elim (ℕ_discrete a b) [
  | yes e ↦
      ap (λ (q : Pod). q.name)
        (subst
          (λ c.
            get_or (set cm.heap a (record (get_or cm.heap a zero_pod) { status = s })) c zero_pod
            ≡ record (get_or cm.heap c zero_pod) { status = s })
          e (get_or-set_self zero_pod cm.heap a _ (subst (λ c. c < length cm.heap) (sym e) lt)))
  | no d ↦ ap (λ (q : Pod). q.name) (get_or-set_ne zero_pod cm.heap a b _ d)
]

-- What is linked of an entry of the list.
pub In-Linked :
    (h : Heap) (m : GoMap String Addr) (a : Addr) (xs : List Addr)
    → In a xs
    → Linked h m xs
    → (a < length h) × (lookup (name_of h a) m ≡ some a)
In-Linked h m a [] i l = absurd i
In-Linked h m a (x ∷ xs) (inl e) l =
    subst (λ b. (b < length h) × (lookup (name_of h b) m ≡ some b)) (sym e) (l.0, l.1)
In-Linked h m a (x ∷ xs) (inr i) l = In-Linked h m a xs i l.3
