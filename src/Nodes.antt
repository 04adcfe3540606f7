-- ===== src/Nodes.antt =====
-- pkg/apiserver/node/node.go: the registry of the workers and the connections to them.
pub mod Sorting
use kuberboat.Prelude.{
  ℕ, String, Bool, true, false, ltb, ◌==◌, string_eq, if◌then◌else◌, GoMap, lookup, contains,
  insert, delete, values, map, List, [], ◌∷◌, Option, none, some,
}
use kuberboat.Core.{Node}
use kuberboat.Exec.{
  ok, err, node_exists, no_such_node, rpc_failed, Exec, ◌>>=◌, ◌>>◌, raise, modify,
}
use kuberboat.World.{World, Env, Api, Client, NodeWithClient, call}

-- pkg/api/core/sort.go: `Less`, by which `sort.Sort` orders the nodes. Insertion stands for the
-- sort; nodes of one time come in the order of the map, which is any.
unfoldable pub less : Node → Node → Bool
less a b = ltb a.creation_timestamp b.creation_timestamp

unfoldable pub insert_node : Node → List Node → List Node
unfolding less
insert_node x [] = x ∷ []
insert_node x (y ∷ ys) = let rest = insert_node x ys in if less y x then y ∷ rest else x ∷ y ∷ ys

unfoldable pub sort_nodes : List Node → List Node
unfolding insert_node
sort_nodes [] = []
sort_nodes (x ∷ xs) = insert_node x (sort_nodes xs)

unfoldable pub registered_nodes : World → List Node
unfolding sort_nodes
registered_nodes w = sort_nodes (map (λ n. n.node) (values w.nodes))

-- `client.NewCtlClient`, and then the entry.
unfoldable pub register_node : Env → Node → Api (Unit {0})
unfolding call contains insert
register_node env node w =
    (if contains node.name w.nodes then raise (node_exists node.name) else (do
      call env rpc_failed
      modify λ (v : World). record v {
        nodes =
            insert node.name
              (record {
                node = node;
                client = record { url = node.status.address; kubelet_port = node.status.port };
              })
              v.nodes;
      }))
      w

unfoldable pub unregister_node : String → Api (Unit {0})
unfolding contains delete
unregister_node n w =
    if contains n w.nodes
    then (ok tt, record w { nodes = delete n w.nodes })
    else (err (no_such_node n), w)

-- `for _, n := range nm.nodes { if n.node.Status.Address == ip { … } }`
unfoldable pub find_ip : String → List NodeWithClient → Option NodeWithClient
find_ip ip [] = none
find_ip ip (n ∷ ns) = if n.node.status.address == ip then some n else find_ip ip ns

unfoldable pub node_by_ip : String → World → Option Node
unfolding find_ip
node_by_ip ip w = elim (find_ip ip (values w.nodes)) [ none ↦ none | some n ↦ some n.node ]

unfoldable pub client_by_ip : String → World → Option Client
unfolding find_ip
client_by_ip ip w = elim (find_ip ip (values w.nodes)) [ none ↦ none | some n ↦ some n.client ]

unfoldable pub client_by_name : String → World → Option Client
unfolding lookup
client_by_name n w = elim (lookup n w.nodes) [ none ↦ none | some m ↦ some m.client ]

unfoldable pub clients : World → List Client
clients w = map (λ n. n.client) (values w.nodes)

unfoldable pub empty : World → Bool
empty w = elim w.nodes [ [] ↦ true | _ ∷ _ ↦ false ]
