-- ===== src/Recovery/Nodes.antt =====
-- The workers that a new API server takes over.
use kuberboat.Prelude.{
  NoneTwice, ℕ, suc, String, ◌≡◌, ◌≢◌, refl, ap, sym, subst, Bool, if◌then◌else◌, ◌∙◌, true, false,
  Bool-cases, inl, inr, ◌==◌, ==_iff, nat_eq, string_eq, GoMap, lookup-insert_self, contains,
  contains-insert, insert, All, List, [], ◌∷◌, ◌++◌, map, some, none, Option, arith,
}
use kuberboat.Core.{Node}
use kuberboat.ComponentManager.{ComponentManager}
use kuberboat.Exec.{Result, ok, err, pure, continue, ◌>>=◌}
use kuberboat.Exec.Keeps.{Keeps, Keeps-bind, Keeps-then, Leads-if}
use kuberboat.World.{
  World, Env, Key, Value, Client, NodeWithClient, notify_registered, Api, call, send,
}
use kuberboat.Nodes.{register_node, unregister_node, client_by_name}
use kuberboat.NodeControl.{tell, notified, greet}
use kuberboat.Recovery.{recover_nodes}
use kuberboat.Recovery.Pods.{by_name}

-- The worker's entry in the registry.
abbrev pub entry : Node → NodeWithClient
entry n = record {
  node = n;
  client = record { url = n.status.address; kubelet_port = n.status.port };
}

-- Every worker is known by its name, and has been told, while cache and etcd are as they were.
pub record IsGreeted (ns : List Node) (w : World) (r : Result _ × World) : Type 0 where
  pub answer : r.0 ≡ ok true
  pub nodes : r.1.nodes ≡ by_name (λ n. n.name) entry ns w.nodes
  pub cm : r.1.cm ≡ w.cm
  pub etcd : r.1.etcd ≡ w.etcd
  pub current_ip : r.1.current_ip ≡ w.current_ip

absent-insert :
    (k : String) (v : NodeWithClient) (ns : List Node) (m : GoMap String NodeWithClient)
    → All (λ j. k ≢ j) (map (λ n. n.name) ns)
    → All (λ n. contains n.name m ≡ false) ns
    → All (λ n. contains n.name (insert k v m) ≡ false) ns
absent-insert k v [] m other absent = tt
absent-insert k v (n ∷ ns) m other absent = (
  ground (arith, contains-insert k n.name v m, ==_iff k n.name, other.0, absent.0),
  absent-insert k v ns m other.1 absent.1,
)

module _ (env : Env) (status : ℕ → ℕ) (up : (i : ℕ) → env.succeeds i ≡ true)
    (fine : (i : ℕ) → status i ≡ 0) where
  entered : Node → World → World
  entered n w = record w { nodes = insert n.name (entry n) w.nodes; calls = suc w.calls }

  told : Node → World → World
  told n w = record w {
    nodes = insert n.name (entry n) w.nodes;
    calls = suc (suc w.calls);
    sent = w.sent ++ ((entry n).client, notify_registered) ∷ [];
  }

  register_node-entered :
      (n : Node) (w : World)
      → contains n.name w.nodes ≡ false
      → register_node env n w ≡ (ok tt, entered n w)
  unfolding register_node entered call
  register_node-entered n w absent = rw (absent, up w.calls) refl

  client-entered :
      (n : Node) (w : World) → client_by_name n.name (entered n w) ≡ some (entry n).client
  unfolding client_by_name entered
  client-entered n w = rw (client_by_name, lookup-insert_self n.name (entry n) w.nodes) refl

  tell-told :
      (n : Node) (w : World) → tell env (some (entry n).client) (entered n w) ≡ (ok tt, told n w)
  unfolding tell send entered told call
  tell-told n w = rw (up (suc w.calls)) refl

  greet-told : (n : Node) (w : World) → greet env status n (entered n w) ≡ (ok true, told n w)
  unfolding greet notified entered
  greet-told n w =
      ap (λ c. notified n.name (status (suc w.calls)) (tell env c (entered n w)))
        (client-entered n w)
      ∙ ap (notified n.name (status (suc w.calls))) (tell-told n w)
      ∙ ap (λ k. notified n.name k (ok tt, told n w)) (fine (suc w.calls))

  pub recover_nodes-IsGreeted :
      (ns : List Node) (w : World)
      → NoneTwice (map (λ n. n.name) ns)
      → All (λ n. contains n.name w.nodes ≡ false) ns
      → IsGreeted ns w (recover_nodes env status ns w)
  unfolding recover_nodes told
  recover_nodes-IsGreeted [] w once absent = record {
    answer = refl;
    nodes = refl;
    cm = refl;
    etcd = refl;
    current_ip = refl;
  }
  recover_nodes-IsGreeted (n ∷ ns) w once absent =
      let ih =
        recover_nodes-IsGreeted ns (told n w) once.1
          (absent-insert n.name (entry n) ns w.nodes once.0 absent.1) in
      subst (λ r. IsGreeted (n ∷ ns) w (continue next r)) (sym (register_node-entered n w absent.0))
        (subst (λ r. IsGreeted (n ∷ ns) w (continue rest r)) (sym (greet-told n w))
          (record {
            answer = ih.answer;
            nodes = ih.nodes;
            cm = ih.cm;
            etcd = ih.etcd;
            current_ip = ih.current_ip;
          }))
    where
      rest : Bool → Api Bool
      rest on = if on then recover_nodes env status ns else pure false

      next : Unit {0} → Api Bool
      next _ = greet env status n >>= rest

-- Whatever the workers answer, cache and etcd stay as they were.
abbrev pub Untouched : ComponentManager → GoMap Key Value → World → Type 0
Untouched cm m w = (w.cm ≡ cm) × (w.etcd ≡ m)

module _ (env : Env) (status : ℕ → ℕ) (cm : ComponentManager) (m : GoMap Key Value) where
  register_node-Untouched : (n : Node) → Keeps (Untouched cm m) (register_node env n)
  unfolding register_node call
  register_node-Untouched n = record {
    at = λ w same. elim (Bool-cases (contains n.name w.nodes)) [
      | inl known ↦ rw known same
      | inr absent ↦ elim (Bool-cases (env.succeeds w.calls)) [
        | inl reached ↦ rw (absent, reached) same
        | inr lost ↦ rw (absent, lost) same
      ]
    ];
  }

  unregister_node-Untouched : (n : String) → Keeps (Untouched cm m) (unregister_node n)
  unfolding unregister_node
  unregister_node-Untouched n = record {
    at = λ w same. elim (Bool-cases (contains n w.nodes)) [
      | inl known ↦ rw known same
      | inr absent ↦ rw absent same
    ];
  }

  notified-Untouched :
      (n : String) (st : ℕ) (r : Result (Unit {0}) × World)
      → Untouched cm m r.1
      → Untouched cm m (notified n st r).1
  unfolding notified
  notified-Untouched n st (err e, w) same = (unregister_node-Untouched n).at w same
  notified-Untouched n st (ok _, w) same = elim (Bool-cases (st == 0)) [
    | inl fine ↦ rw fine same
    | inr refused ↦ rw refused ((unregister_node-Untouched n).at w same)
  ]

  tell-Untouched : (c : Option Client) → Keeps (Untouched cm m) (tell env c)
  unfolding tell send call
  tell-Untouched none = record { at = λ w same. same }
  tell-Untouched (some c) = record { at = λ w same. same }

  greet-Untouched : (n : Node) → Keeps (Untouched cm m) (greet env status n)
  unfolding greet
  greet-Untouched n = record {
    at = λ w same.
        notified-Untouched n.name (status w.calls) (tell env (client_by_name n.name w) w)
          ((tell-Untouched (client_by_name n.name w)).at w same);
  }

  pub recover_nodes-Untouched :
      (ns : List Node) → Keeps (Untouched cm m) (recover_nodes env status ns)
  unfolding recover_nodes
  recover_nodes-Untouched [] = record { at = λ w same. same }
  recover_nodes-Untouched (n ∷ ns) =
      Keeps-then (register_node env n)
        (greet env status n >>= λ on. if on then recover_nodes env status ns else pure false)
        (register_node-Untouched n)
        (Keeps-bind (greet env status n)
          (λ on. if on then recover_nodes env status ns else pure false) (greet-Untouched n)
          (λ on.
            Leads-if on (recover_nodes env status ns) (pure false) (λ _. recover_nodes-Untouched ns)
              (λ _. record { at = λ w same. same })))
