-- ===== src/NodeControl/Rollback.antt =====
-- A registration that fails is taken back.
use kuberboat.Prelude.{
  ℕ, true, if◌then◌else◌, nat_eq, String, ◌≡◌, refl, sym, subst, Bool, ap, ◌∙◌, ◌⊎◌, inl, inr,
  false, Bool-cases, ==_refl, ◌==◌, string_eq, GoMap, contains, insert, delete, contains-insert,
  lookup-insert_self, Option, none, some, [], ◌∷◌, suc, arith,
}
use kuberboat.Core.{Node}
use kuberboat.Exec.{pure, Error, Result, ok, err, rpc_failed, etcd_failed, node_exists, continue}
use kuberboat.World.{World, Env, Key, Value, NodeWithClient, Client, key_eq, etcd_put}
use kuberboat.Nodes.{register_node, unregister_node, client_by_name}
use kuberboat.NodeControl.{
  pending, running, set_running, taken_back, or_unregister, notified, tell, write_targets, greet,
  accept, confirm, register,
}

module _ {V : Type 0} (k : String) where
  delete-absent : (m : GoMap String V) → contains k m ≡ false → delete k m ≡ m
  unfolding contains delete
  delete-absent [] q = refl
  delete-absent ((j, v) ∷ m) q = elim (Bool-cases (j == k)) [
    | inl hit ↦ ground (arith, q, hit)
    | inr miss ↦ rw miss (ap (λ r. (j, v) ∷ r) (delete-absent m (ground (arith, q, miss))))
  ]

  delete-insert : (v : V) (m : GoMap String V) → contains k m ≡ false → delete k (insert k v m) ≡ m
  unfolding contains delete insert
  delete-insert v [] q = rw (==_refl k) refl
  delete-insert v ((j, u) ∷ m) q = elim (Bool-cases (j == k)) [
    | inl hit ↦ ground (arith, q, hit)
    | inr miss ↦
        rw (miss, delete, miss) (ap (λ r. (j, u) ∷ r) (delete-insert v m (ground (arith, q, miss))))
  ]

  insert-insert : (v u : V) (m : GoMap String V) → insert k u (insert k v m) ≡ insert k u m
  unfolding insert
  insert-insert v u [] = rw (==_refl k) refl
  insert-insert v u ((j, t) ∷ m) = elim (Bool-cases (j == k)) [
    | inl hit ↦ rw (hit, insert, ==_refl k) refl
    | inr miss ↦ rw (miss, insert, miss) (ap (λ r. (j, t) ∷ r) (insert-insert v u m))
  ]

-- The outcome of a registration: an error, with registry and etcd as they were; no error, with both as
-- they were, if the worker answered with a status other than 0; or no error, and the node, running,
-- in the registry and in etcd.
abbrev pub Registered : Node → World → ℕ → Result (Unit {0}) × World → Type 0
Registered n w st (r, v) =
    ((e : Error) × (r ≡ err e) × (v.nodes ≡ w.nodes) × (v.etcd ≡ w.etcd))
    ⊎ ((r ≡ ok tt) × ((st == 0) ≡ false) × (v.nodes ≡ w.nodes) × (v.etcd ≡ w.etcd))
    ⊎ ((r ≡ ok tt)
        × ((st == 0) ≡ true)
        × (m : NodeWithClient) × (v.nodes ≡ insert n.name m w.nodes)
        × (m.node ≡ running n)
        × (m.client.url ≡ n.status.address)
        × (v.etcd ≡ insert (Key.nodes n.name) (Value.node (running n)) w.etcd))

module _ (env : Env) (status : ℕ → ℕ) (n : Node) (w : World) (st : ℕ)
    (absent : contains n.name w.nodes ≡ false) where
  -- The registry has the node besides what it had, and etcd is as it was.
  Holds : NodeWithClient → World → Type 0
  Holds m v = (v.nodes ≡ insert n.name m w.nodes) × (v.etcd ≡ w.etcd)

  unregister-etcd : (v : World) → (unregister_node n.name v).1.etcd ≡ v.etcd
  unfolding unregister_node
  unregister-etcd v = ground arith

  back :
      (m : NodeWithClient) (v : World)
      → Holds m v
      → ((unregister_node n.name v).1.nodes ≡ w.nodes)
        × ((unregister_node n.name v).1.etcd ≡ w.etcd)
  unfolding unregister_node Holds
  back m v held = (
    rw (unregister_node, held.0, contains-insert n.name n.name m w.nodes, ==_refl n.name)
        (delete-insert n.name m w.nodes absent),
    unregister-etcd v ∙ held.1,
  )

  -- A step that fails is taken back, and otherwise the rest follows.
  stage :
      (m : NodeWithClient) (f : World → Result (Unit {0}) × World) (r : Result (Unit {0}) × World)
      → Holds m r.1
      → ((v : World) → Holds m v → Registered n w st (f v))
      → Registered n w st (continue (λ _. f) (taken_back n.name r))
  unfolding taken_back
  stage m f (ok _, v) held next = next v held
  stage m f (err e, v) held next = inl (e, refl, (back m v held).0, (back m v held).1)

  tell-Holds :
      (m : NodeWithClient) (c : Option Client) (v : World) → Holds m v → Holds m (tell env c v).1
  unfolding tell Holds
  tell-Holds m none v held = held
  tell-Holds m (some c) v held = held

  write_targets-Holds :
      (m : NodeWithClient) (v : World) → Holds m v → Holds m (write_targets env v).1
  unfolding write_targets Holds
  write_targets-Holds m v held = held

  set_running-Holds :
      (m : NodeWithClient) (v : World)
      → Holds m v
      → Holds (record m { node = running m.node }) (set_running n.name v)
  unfolding set_running Holds
  set_running-Holds m v held =
      rw (set_running, held.0, lookup-insert_self n.name m w.nodes, held.0)
        (insert-insert n.name m (record m { node = running m.node }) w.nodes, held.1)

  last-Registered :
      (m : NodeWithClient) (v : World)
      → (st == 0) ≡ true
      → m.node ≡ running n
      → m.client.url ≡ n.status.address
      → Holds m v
      → Registered n w st
          (or_unregister n.name (etcd_put env (Key.nodes n.name) (Value.node (running n))) v)
  unfolding or_unregister taken_back Holds etcd_put running
  last-Registered m v fine same url held = elim (Bool-cases (env.succeeds v.calls)) [
    | inr refused ↦
        let b = back m (record v { calls = suc v.calls }) held in
        rw refused (inl (etcd_failed, refl, b.0, b.1))
    | inl stored ↦ rw stored (
        inr (
          inr (
            refl,
            fine,
            m,
            held.0,
            same,
            url,
            ap (insert (Key.nodes n.name) (Value.node (running n))) held.1,
          )))
  ]

  accept-Registered :
      (m : NodeWithClient) (v : World)
      → (st == 0) ≡ true
      → m.node ≡ n
      → m.client.url ≡ n.status.address
      → Holds m v
      → Registered n w st (accept env status n v)
  unfolding accept or_unregister
  accept-Registered m v fine same url held =
      stage (record m { node = running m.node })
        (or_unregister n.name (etcd_put env (Key.nodes n.name) (Value.node (running n))))
        (write_targets env (set_running n.name v))
        (write_targets-Holds (record m { node = running m.node }) (set_running n.name v)
          (set_running-Holds m v held))
        (λ u k. last-Registered (record m { node = running m.node }) u fine (ap running same) url k)

  notified-status :
      (v : World) (b : Bool)
      → (st == 0) ≡ b
      → notified n.name st (ok tt, v)
        ≡ (if b then (ok true, v) else (ok false, (unregister_node n.name v).1))
  unfolding notified
  notified-status v b e = rw e refl

  -- What follows the answer of the worker, which is an error or the status.
  answered :
      (m : NodeWithClient) (r : Result (Unit {0}) × World)
      → m.node ≡ n
      → m.client.url ≡ n.status.address
      → Holds m r.1
      → Registered n w st
          (continue (λ on. if on then accept env status n else pure tt) (notified n.name st r))
  unfolding notified
  answered m (err e, v) same url held = inl (e, refl, (back m v held).0, (back m v held).1)
  answered m (ok _, v) same url held =
      let P : Result Bool × World → Type 0 =
        λ r. Registered n w st (continue (λ on. if on then accept env status n else pure tt) r) in
      elim (Bool-cases (st == 0)) [
        | inl fine ↦
            subst P (sym (notified-status v true fine)) (accept-Registered m v fine same url held)
        | inr refused ↦
            subst P (sym (notified-status v false refused))
              (inr (inl (refl, refused, (back m v held).0, (back m v held).1)))
      ]

-- A worker's registration ends in one of three ways. There is an error, and registry and etcd are as
-- they were: each failure after the worker was entered takes the entry back. Or the worker answers
-- with a status other than 0, and the entry is taken back too, but there is no error. Or the worker
-- answers 0, and is in the registry and in etcd, running, at the address of the request.
pub register-Registered :
    (env : Env) (status : ℕ → ℕ) (address : String) (n : Node) (w : World)
    → Registered
        (pending (env.uuid (suc w.calls)) (env.now w.calls) address n)
        w
        (status (suc (suc (suc w.calls))))
        (register env status address n w)
unfolding register register_node pending Holds confirm greet
register-Registered env status address n w = elim (Bool-cases (contains n.name w.nodes)) [
  | inl taken ↦ rw taken (inl (node_exists n.name, refl, refl, refl))
  | inr new ↦ elim (Bool-cases (env.succeeds (suc (suc w.calls)))) [
    | inr refused ↦ rw (new, refused) (inl (rpc_failed, refl, refl, refl))
    | inl connected ↦
        let m : NodeWithClient = record {
          node = entered;
          client = record { url = address; kubelet_port = entered.status.port };
        } in
        let v : World = record w {
          nodes = insert n.name m w.nodes;
          calls = suc (suc (suc w.calls));
        } in
        rw (new, connected)
          (answered env status entered w (status (suc (suc (suc w.calls)))) new m
            (tell env (client_by_name n.name v) v) refl refl
            (tell-Holds env status entered w (status (suc (suc (suc w.calls)))) new m
              (client_by_name n.name v) v (refl, refl)))
  ]
]
  where
    entered : Node
    entered = pending (env.uuid (suc w.calls)) (env.now w.calls) address n
