-- ===== src/Nodes/Sorting.antt =====
-- The order of the registered nodes.
use mathlib.Core.List.{Perm}
use mathlib.Core.List.Perm
use kuberboat.Prelude.{
  ◌≤◌, ◌≡◌, false, List, [], ◌∷◌, All, All-map, values, map, arith, Bool-cases, inl, inr,
}
use native.Mathlib.Nat.{le_trans}
use kuberboat.Core.{Node}
use kuberboat.World.{World}
use kuberboat.Nodes.{less, insert_node, sort_nodes, registered_nodes}

-- Older nodes stand first.
abbrev pub IsSorted : List Node → Type 0
IsSorted [] = Unit
IsSorted (x ∷ xs) = All (λ y. x.creation_timestamp ≤ y.creation_timestamp) xs × IsSorted xs

insert_node-All :
    (P : Node → Type 0) (x : Node) (xs : List Node) → P x → All P xs → All P (insert_node x xs)
unfolding insert_node
insert_node-All P x [] p h = (p, tt)
insert_node-All P x (y ∷ ys) p h = elim (Bool-cases (less y x)) [
  | inl older ↦ rw older (h.0, insert_node-All P x ys p h.1)
  | inr newer ↦ rw newer (p, h)
]

insert_node-IsSorted : (x : Node) (xs : List Node) → IsSorted xs → IsSorted (insert_node x xs)
unfolding insert_node
insert_node-IsSorted x [] h = (tt, tt)
insert_node-IsSorted x (y ∷ ys) h = elim (Bool-cases (less y x)) [
  | inl older ↦ rw older (
    insert_node-All (λ z. y.creation_timestamp ≤ z.creation_timestamp) x ys
        (unfold less in ground (arith, older)) h.0,
    insert_node-IsSorted x ys h.1,
  )
  | inr newer ↦ rw newer ((first newer, later newer), h)
]
  where
    first : less y x ≡ false → x.creation_timestamp ≤ y.creation_timestamp
    first e = unfold less in ground (arith, e)

    later : less y x ≡ false → All (λ z. x.creation_timestamp ≤ z.creation_timestamp) ys
    later e =
        All-map (λ z. y.creation_timestamp ≤ z.creation_timestamp)
          (λ z. x.creation_timestamp ≤ z.creation_timestamp) ys (λ z q. le_trans (first e) q) h.0

insert_node-perm : (x : Node) (xs : List Node) → Perm (insert_node x xs) (x ∷ xs)
unfolding insert_node
insert_node-perm x [] = Perm.refl (x ∷ [])
insert_node-perm x (y ∷ ys) = elim (Bool-cases (less y x)) [
  | inl older ↦ rw older (Perm.trans (Perm.cons y (insert_node-perm x ys)) (Perm.swap x y ys))
  | inr newer ↦ rw newer (Perm.refl (x ∷ y ∷ ys))
]

sort_nodes-IsSorted : (xs : List Node) → IsSorted (sort_nodes xs)
unfolding sort_nodes
sort_nodes-IsSorted [] = tt
sort_nodes-IsSorted (x ∷ xs) = insert_node-IsSorted x (sort_nodes xs) (sort_nodes-IsSorted xs)

sort_nodes-perm : (xs : List Node) → Perm (sort_nodes xs) xs
unfolding sort_nodes
sort_nodes-perm [] = Perm.nil
sort_nodes-perm (x ∷ xs) =
    Perm.trans (insert_node-perm x (sort_nodes xs)) (Perm.cons x (sort_nodes-perm xs))

-- `RegisteredNodes` gives the nodes of the registry, each as often as the registry has it, from the
-- oldest to the newest.
pub registered_nodes_lem :
    (w : World)
    → IsSorted (registered_nodes w) × Perm (registered_nodes w) (map (λ n. n.node) (values w.nodes))
unfolding registered_nodes
registered_nodes_lem w = (
  sort_nodes-IsSorted (map (λ n. n.node) (values w.nodes)),
  sort_nodes-perm (map (λ n. n.node) (values w.nodes)),
)
