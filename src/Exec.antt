-- ===== src/Exec.antt =====
-- Go methods that change shared state and may return an error or panic. What was written before
-- the error stays written, so the state comes back beside the error too.
pub mod Keeps
use mathlib.Core.Path.{◌≡◌, refl}
use kuberboat.Prelude.{ℕ, String, Bool, true, false, List}

-- The errors by the place that makes them; `panic` is a nil pointer that is followed.
pub data Error : Type 0 where
  pod_exists : String → Error
  no_such_pod : String → Error
  race_condition : String → Error
  no_affinity_pod : String → Error
  no_affinity_ip : String → Error
  no_worker : Error
  no_client : String → Error
  service_exists : String → Error
  no_such_service : String → Error
  no_such_deployment : String → Error
  no_pod_list : String → Error
  deployment_monitored : String → Error
  no_surge : Error
  autoscaler_exists : String → Error
  no_cluster_ip : Error
  node_exists : String → Error
  no_such_node : String → Error
  no_such_services : List String → Error
  not_registered : Error
  rpc_failed : Error
  etcd_failed : Error
  file_failed : Error
  no_metrics : String → Error
  invalid_ip : String → Error
  iptables_failed : Error
  docker_failed : Error
  bad_limit : ℕ → Error
  panic : Error
  -- Not of the program: a loop that the fuel does not reach the end of.
  out_of_fuel : Error

pub data Result {ℓ} (A : Type ℓ) : Type ℓ where
  ok : A → Result A
  err : Error → Result A

abbrev pub is_ok {ℓ} : {A : Type ℓ} → Result A → Bool
is_ok (ok a) = true
is_ok (err e) = false

abbrev pub Exec {ℓ κ} : Type ℓ → Type κ → Type (ℓ ⊔ κ)
Exec S A = S → Result A × S

module _ {ℓ κ} {S : Type ℓ} {A : Type κ} where
  abbrev pub pure : A → Exec S A
  pure a s = (ok a, s)

  abbrev pub raise : Error → Exec S A
  raise e s = (err e, s)

  abbrev pub gets : (S → A) → Exec S A
  gets f s = (ok (f s), s)

abbrev pub modify {ℓ} : {S : Type ℓ} → (S → S) → Exec S (Unit {0})
modify f s = (ok tt, f s)

module _ {ℓ κ μ} {S : Type ℓ} {A : Type κ} {B : Type μ} where
  abbrev pub continue : (A → Exec S B) → Result A × S → Result B × S
  continue f (ok a, s) = f a s
  continue f (err e, s) = (err e, s)

  infixl 10 ◌>>=◌ ◌>>◌
  abbrev pub ◌>>=◌ : Exec S A → (A → Exec S B) → Exec S B
  ◌>>=◌ m f s = continue f (m s)

  abbrev pub ◌>>◌ : Exec S A → Exec S B → Exec S B
  ◌>>◌ m n s = continue (λ _. n) (m s)

abbrev pub caught {ℓ} : {A : Type ℓ} → Result A → Result (Unit {0})
caught (err panic) = err panic
caught _ = ok tt

module _ {ℓ κ} {S : Type ℓ} {A : Type κ} where
  -- `if err := m(); err != nil { glog.Error(err) }` where `m` cannot panic.
  abbrev pub log_error : Exec S A → Exec S (Unit {0})
  log_error m s = (ok tt, (m s).1)

  -- The same of an `m` that may: a panic ends the server.
  abbrev pub attempt : Exec S A → Exec S (Unit {0})
  attempt m s = (caught (m s).0, (m s).1)

  -- `err = m()`: the error is a value, and the method goes on.
  abbrev pub try : Exec S A → Exec S (Result A)
  try m s = (ok (m s).0, (m s).1)
