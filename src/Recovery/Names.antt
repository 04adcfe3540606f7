-- ===== src/Recovery/Names.antt =====
-- The lists of pods with the names of the pods in place of their addresses.
use kuberboat.Prelude.{
  String, ◌≡◌, refl, ap, ◌∙◌, true, false, Bool-cases, Option-cases, inl, inr, ◌==◌, string_eq,
  GoMap, lookup, contains, contains-lookup, insert, All, All-lookup, List, [], ◌∷◌, map, filter,
  is_some, Bool, if◌then◌else◌, Option, none, some,
}
use kuberboat.ComponentManager.{Addr, Heap, name_of}
use kuberboat.ComponentManager.Integrity.{Named}
use kuberboat.World.{Key, Value, key_eq}
use kuberboat.Recovery.{known_pods}
use kuberboat.Recovery.Pods.{by_name}

abbrev pub names_view : Heap → GoMap String (List Addr) → GoMap String (List String)
names_view h [] = []
names_view h ((n, xs) ∷ m) = (n, map (name_of h) xs) ∷ names_view h m

pub names_view-insert :
    (h : Heap) (n : String) (xs : List Addr) (m : GoMap String (List Addr))
    → names_view h (insert n xs m) ≡ insert n (map (name_of h) xs) (names_view h m)
unfolding insert
names_view-insert h n xs [] = refl
names_view-insert h n xs ((k, ys) ∷ m) = elim (Bool-cases (k == n)) [
  | inl hit ↦ rw hit refl
  | inr miss ↦ rw miss (ap (λ r. (k, map (name_of h) ys) ∷ r) (names_view-insert h n xs m))
]

known_pods-none :
    (m : GoMap String Addr) (n : String) (ns : List String)
    → lookup n m ≡ none
    → known_pods m (n ∷ ns) ≡ known_pods m ns
unfolding known_pods
known_pods-none m n ns q = rw (q, known_pods) refl

known_pods-some :
    (m : GoMap String Addr) (n : String) (ns : List String) (a : Addr)
    → lookup n m ≡ some a
    → known_pods m (n ∷ ns) ≡ a ∷ known_pods m ns
unfolding known_pods
known_pods-some m n ns a q = rw (q, known_pods) refl

filter_step :
    (p : String → Bool) (n : String) (ns : List String) (b : Bool)
    → p n ≡ b
    → (if b then n ∷ filter p ns else filter p ns) ≡ filter p (n ∷ ns)
filter_step p n ns b q = rw q refl

pub known_pods-names :
    (h : Heap) (m : GoMap String Addr) (ns : List String)
    → All (Named h) m
    → map (name_of h) (known_pods m ns) ≡ filter (λ n. contains n m) ns
unfolding known_pods
known_pods-names h m [] named = refl
known_pods-names h m (n ∷ ns) named = elim (Option-cases (lookup n m)) [
  | inl missing ↦
      ap (map (name_of h)) (known_pods-none m n ns missing)
      ∙ known_pods-names h m ns named
      ∙ filter_step (λ k. contains k m) n ns false (contains-lookup n m ∙ ap is_some missing)
  | inr (a, found) ↦
      ap (map (name_of h)) (known_pods-some m n ns a found)
      ∙ ap (λ k. k ∷ map (name_of h) (known_pods m ns)) (All-lookup (Named h) n m named found).1
      ∙ ap (λ l. n ∷ l) (known_pods-names h m ns named)
      ∙ filter_step (λ k. contains k m) n ns true (contains-lookup n m ∙ ap is_some found)
]

-- The list of names under a key.
abbrev pub listed : Option Value → List String
listed (some (Value.names ns)) = ns
listed _ = []

-- The names of the list that are names of pods.
abbrev pub known_names : GoMap String Addr → GoMap Key Value → Key → List String
known_names known m k = filter (λ n. contains n known) (listed (lookup k m))

-- The key has a list of names.
abbrev pub HasList : GoMap Key Value → Key → Type 0
HasList m k = (ns : List String) × (lookup k m ≡ some (Value.names ns))

-- The map of the names in the lists, filled from `xs`.
abbrev pub names_filled :
    {A : Type 0}
    → (A → String)
    → (A → Key)
    → GoMap String Addr
    → GoMap Key Value
    → List A
    → GoMap String (List String)
    → GoMap String (List String)
names_filled name key known m = by_name name (λ x. known_names known m (key x))
