-- ===== src/World.antt =====
-- The API server's process: the state of all its managers and controllers, the contents of etcd,
-- and the requests that it has sent to the workers. The controllers of pkg/apiserver share these
-- by pointer, so one record holds them all, and each of their methods is a method on it.
--
-- gRPC, etcd, files, the clock and random UUIDs are not part of the repository. An `Env` gives the
-- outcome of the n-th call of any of them, for every n, so a statement for all environments covers
-- every pattern of failures. `Hash` of pkg/api/util.go prints a value and hashes the text by
-- SHA-256; it is a parameter here too.
use kuberboat.Prelude.{
  ℕ, suc, String, Bool, true, ◌&&◌, ◌==◌, nat_beq, string_eq, Eq, ◌↔◌, ◌≡◌, ==_iff, arith,
  if◌then◌else◌, GoMap, insert, delete, List, [], ◌∷◌, ◌++◌,
}
use kuberboat.Core.{Pod, PodSpec, Labels, Service, Deployment, Node}
use kuberboat.ComponentManager.{ComponentManager}
use kuberboat.Exec.{Error, ok, err, etcd_failed, rpc_failed, file_failed, Exec}

-- The four octets of `ip.To4()`.
pub record Ip : Type 0 where
  pub o0 : ℕ
  pub o1 : ℕ
  pub o2 : ℕ
  pub o3 : ℕ

-- pkg/apiserver/client/client.go: a connection is known by its address.
pub record Client : Type 0 where
  pub url : String
  pub kubelet_port : ℕ

-- The requests that the API server sends to a worker.
pub data Rpc : Type 0 where
  notify_registered : Rpc
  create_pod : Pod → Rpc
  delete_pod : String → Rpc
  transfer_file : String → Rpc
  create_service : Service → List String → List String → Rpc
  delete_service : String → Rpc
  add_pod_to_services : List String → String → String → Rpc
  delete_pod_from_services : List String → String → Rpc

-- The paths of etcd that the program uses.
pub data Key : Type 0 where
  pods : String → Key
  services_meta : String → Key
  services_pods : String → Key
  deployments_meta : String → Key
  deployments_pods : String → Key
  nodes : String → Key
  ip_assigner : Key

-- What `json.Marshal` is given to store.
pub data Value : Type 0 where
  pod : Pod → Value
  service : Service → Value
  deployment : Deployment → Value
  node : Node → Value
  names : List String → Value
  ip : Ip → Value

key_code : Key → ℕ
key_code (Key.pods n) = 0
key_code (services_meta n) = 1
key_code (services_pods n) = 2
key_code (deployments_meta n) = 3
key_code (deployments_pods n) = 4
key_code (Key.nodes n) = 5
key_code ip_assigner = 6

key_name : Key → String
key_name (Key.pods n) = n
key_name (services_meta n) = n
key_name (services_pods n) = n
key_name (deployments_meta n) = n
key_name (deployments_pods n) = n
key_name (Key.nodes n) = n
key_name ip_assigner = ""

unfoldable pub key_beq : Key → Key → Bool
unfolding key_code key_name
key_beq a b = nat_beq (key_code a) (key_code b) && key_name a == key_name b

pub key_beq_iff : (a b : Key) → (key_beq a b ≡ true) ↔ (a ≡ b)
unfolding key_beq
key_beq_iff a b = ground (arith, ==_iff (key_name a) (key_name b))

instance abbrev pub key_eq : Eq Key
key_eq = record { same = key_beq; same_iff = key_beq_iff }

pub record NodeWithClient : Type 0 where
  pub node : Node
  pub client : Client

-- pkg/apiserver/legacy.go
pub record PodLegacy : Type 0 where
  pub deployment_name : String

pub record World : Type 0 where
  pub cm : ComponentManager
  -- nodeManagerInner.nodes
  pub nodes : GoMap String NodeWithClient
  -- schedulerInner.nextIdx
  pub next_idx : ℕ
  -- legacyManagerInner.podLegacy
  pub pod_legacy : GoMap String PodLegacy
  -- clusterIPAssigner.currentIP
  pub current_ip : Ip
  -- expectDeletedPod of the deployment controller
  pub expect_deleted_pod : GoMap String (Unit {0})
  -- retryBudget of the job controller
  pub retry_budget : GoMap String ℕ
  pub etcd : GoMap Key Value
  pub sent : List (Client × Rpc)
  -- how many calls have left the process
  pub calls : ℕ

pub record Env : Type 0 where
  pub succeeds : ℕ → Bool
  pub uuid : ℕ → String
  pub now : ℕ → ℕ
  pub hash_labels : Labels → String
  pub hash_spec : PodSpec → String
  pub hash_template : Labels → PodSpec → String

abbrev pub Api : Type 0 → Type 0
Api A = Exec World A

module _ (env : Env) where
  -- One call: its outcome, or its error.
  unfoldable pub call : Error → Api (Unit {0})
  call e w = (if env.succeeds w.calls then ok tt else err e, record w { calls = suc w.calls })

  -- A request, which may have reached the worker even if it fails.
  unfoldable pub send : Client → Rpc → Api (Unit {0})
  unfolding call
  send c r w = call rpc_failed (record w { sent = w.sent ++ (c, r) ∷ [] })

  -- `etcd.Put`: a failure leaves what was stored.
  unfoldable pub etcd_put : Key → Value → Api (Unit {0})
  etcd_put k v w =
      if env.succeeds w.calls
      then (ok tt, record w { etcd = insert k v w.etcd; calls = suc w.calls })
      else (err etcd_failed, record w { calls = suc w.calls })

  unfoldable pub etcd_delete : Key → Api (Unit {0})
  etcd_delete k w =
      if env.succeeds w.calls
      then (ok tt, record w { etcd = delete k w.etcd; calls = suc w.calls })
      else (err etcd_failed, record w { calls = suc w.calls })

  -- `os.ReadFile`
  unfoldable pub read_file : Api (Unit {0})
  unfolding call
  read_file = call file_failed

-- `uuid.New()`, `time.Now()`
unfoldable pub draw : (ℕ → String) → Api String
draw supply w = (ok (supply w.calls), record w { calls = suc w.calls })

unfoldable pub clock : (ℕ → ℕ) → Api ℕ
clock supply w = (ok (supply w.calls), record w { calls = suc w.calls })
