-- ===== src/NodeControl.antt =====
-- pkg/apiserver/node/controller.go: the registration of workers. The address is that of the peer of
-- the request, whose text gRPC gives.
pub mod Rollback
use kuberboat.Prelude.{
  String, ℕ, Bool, true, false, if◌then◌else◌, string_eq, nat_eq, ◌==◌, lookup, insert, Option,
  none, some, List,
}
use kuberboat.Core.{Node, NodePhase, NodeCondition}
use kuberboat.Exec.{
  Result, ok, err, panic, file_failed, Exec, pure, raise, gets, modify, ◌>>=◌, ◌>>◌,
}
use kuberboat.World.{
  World, Env, Api, Client, Rpc, Key, Value, NodeWithClient, notify_registered, call, send, etcd_put,
  draw, clock,
}
use kuberboat.Nodes.{register_node, unregister_node, client_by_name, registered_nodes}

-- `kubelet.Port`
abbrev pub kubelet_port : ℕ
kubelet_port = 4000

unfoldable pub pending : String → ℕ → String → Node → Node
pending id t address n = record n {
  meta = record n.meta { uuid = id; creation_timestamp = t };
  status = record {
    phase = NodePhase.pending;
    condition = NodeCondition.unavailable;
    address = address;
    port = kubelet_port;
  };
}

unfoldable pub running : Node → Node
running n = record n {
  status = record n.status { phase = NodePhase.running; condition = NodeCondition.ready };
}

-- A change of the node through its pointer, which the registry holds.
unfoldable pub set_running : String → World → World
unfolding lookup insert running
set_running n w = elim (lookup n w.nodes) [
  | none ↦ w
  | some m ↦ record w { nodes = insert n (record m { node = running m.node }) w.nodes }
]

-- `if err := m(); err != nil { UnregisterNode(name); return err }`
unfoldable pub taken_back : String → Result (Unit {0}) × World → Result (Unit {0}) × World
unfolding unregister_node
taken_back n (ok _, v) = (ok tt, v)
taken_back n (err e, v) = (err e, (unregister_node n v).1)

unfoldable pub or_unregister : String → Api (Unit {0}) → Api (Unit {0})
unfolding taken_back
or_unregister n m w = taken_back n (m w)

-- After the call of the worker: an error takes the entry back and is returned. So does a status
-- other than 0 take it back, but the error that is returned then is nil; `false` stands for that.
unfoldable pub notified : String → ℕ → Result (Unit {0}) × World → Result Bool × World
unfolding unregister_node
notified n st (err e, w) = (err e, (unregister_node n w).1)
notified n st (ok _, w) = if st == 0 then (ok true, w) else (ok false, (unregister_node n w).1)

module _ (env : Env) where
  -- The request of NotifyRegistered. A nil client is followed.
  unfoldable pub tell : Option Client → Api (Unit {0})
  unfolding send
  tell none = raise panic
  tell (some c) = send env c notify_registered

  -- `scale.GeneratePrometheusTargets`, which writes a file.
  unfoldable pub write_targets : Api (Unit {0})
  unfolding call
  write_targets = call env file_failed

  -- `status` is what the worker answers to the n-th call.
  module _ (status : ℕ → ℕ) where
    -- `if err != nil || r.Status != 0 { … }`
    unfoldable pub greet : Node → Api Bool
    unfolding client_by_name tell notified
    greet n w = notified n.name (status w.calls) (tell (client_by_name n.name w) w)

    -- After the worker has answered.
    unfoldable pub accept : Node → Api (Unit {0})
    unfolding or_unregister set_running write_targets etcd_put running
    accept n = do
      modify (set_running n.name)
      or_unregister n.name write_targets
      or_unregister n.name (etcd_put env (Key.nodes n.name) (Value.node (running n)))

    -- From the registered node on.
    unfoldable pub confirm : Node → Api (Unit {0})
    unfolding greet accept
    confirm n = do on ← greet n; if on then accept n else pure tt

    unfoldable pub register : String → Node → Api (Unit {0})
    unfolding clock draw pending register_node confirm
    register address n = do
      t ← clock env.now
      id ← draw env.uuid
      register_node env (pending id t address n)
      confirm (pending id t address n)
