-- ===== src/Recovery/Coherence.antt =====
-- The services and deployments of a new API server: each of their lists is linked.
use kuberboat.Prelude.{
  NoneTwice, ℕ, suc, String, ◌≡◌, refl, sym, subst, ◌∙◌, Bool-cases, inl, inr, string_eq, GoMap,
  lookup, All-lookup, All, List, [], ◌∷◌, Option, none, some,
}
use kuberboat.Core.{Service, Deployment}
use kuberboat.ComponentManager.{Addr, set_service, set_deployment}
use kuberboat.ComponentManager.Integrity.{IsCoherent, set_service-IsCoherent}
use kuberboat.ComponentManager.Links.{Linked}
use kuberboat.Exec.{Result, ok, err, continue}
use kuberboat.World.{World, Env, Key, Value, key_eq, Api}
use kuberboat.Recovery.{known_pods, names_at, get_names, recover_services, recover_deployments}
use kuberboat.Recovery.Lists.{CleanEntry, known_pods-Linked, set_deployment-pods, Linked-IsCoherent}

-- The pods are in their places, at the addresses `known`.
pub record IsPlaced (known : GoMap String Addr) (w : World) : Type 0 where
  pub coherent : IsCoherent w.cm
  pub same : known ≡ w.cm.pods
  pub clean : All CleanEntry w.etcd

placed-Linked :
    (known : GoMap String Addr) (w : World) (ns : List String)
    → IsPlaced known w
    → NoneTwice ns
    → Linked w.cm.heap w.cm.pods (known_pods known ns)
placed-Linked known w ns p d =
    subst (λ m. Linked w.cm.heap w.cm.pods (known_pods m ns)) (sym p.same)
      (known_pods-Linked w.cm.heap w.cm.pods p.coherent.pods_named ns d)

pub set_service-IsPlaced :
    (s : Service) (known : GoMap String Addr) (ns : List String) (w : World)
    → IsPlaced known w
    → NoneTwice ns
    → IsPlaced known (record w { cm = set_service s (known_pods known ns) w.cm })
unfolding set_service
set_service-IsPlaced s known ns w p d = record {
  coherent =
      set_service-IsCoherent s (known_pods known ns) w.cm (placed-Linked known w ns p d) p.coherent;
  same = p.same;
  clean = p.clean;
}

pub set_deployment-IsPlaced :
    (d : Deployment) (known : GoMap String Addr) (ns : List String) (w : World)
    → IsPlaced known w
    → NoneTwice ns
    → IsPlaced known (record w { cm = set_deployment d (known_pods known ns) w.cm })
set_deployment-IsPlaced d known ns w p once = record {
  coherent =
      Linked-IsCoherent d (known_pods known ns) w.cm (placed-Linked known w ns p once) p.coherent;
  same =
      p.same
      ∙ sym (set_deployment-pods d (known_pods known ns) w.cm (placed-Linked known w ns p once));
  clean = p.clean;
}

-- What a list of names of etcd is read as.
abbrev Read : Result (List String) → Type 0
Read (ok ns) = NoneTwice ns
Read (err e) = Unit

module _ (env : Env) (known : GoMap String Addr) where
  value-IsPlaced :
      (k : Key) (v : Value) (n : String) (w : World)
      → CleanEntry (k, v)
      → IsPlaced known w
      → IsPlaced known (names_at (some v) n w).1 × Read (names_at (some v) n w).0
  unfolding names_at
  value-IsPlaced k (Value.pod v) n w c p = (p, tt)
  value-IsPlaced k (Value.service v) n w c p = (p, tt)
  value-IsPlaced k (Value.deployment v) n w c p = (p, tt)
  value-IsPlaced k (Value.node v) n w c p = (p, tt)
  value-IsPlaced k (Value.ip v) n w c p = (p, tt)
  value-IsPlaced k (Value.names ns) n w c p = (p, c)

  found-IsPlaced :
      (k : Key) (found : Option Value) (n : String) (w : World)
      → lookup k w.etcd ≡ found
      → IsPlaced known w
      → IsPlaced known (names_at found n w).1 × Read (names_at found n w).0
  unfolding names_at
  found-IsPlaced k none n w q p = (p, tt)
  found-IsPlaced k (some v) n w q p =
      value-IsPlaced k v n w (All-lookup CleanEntry k w.etcd p.clean q) p

  get_names-IsPlaced :
      (k : Key) (n : String) (w : World)
      → IsPlaced known w
      → IsPlaced known (get_names env k n w).1 × Read (get_names env k n w).0
  unfolding get_names
  get_names-IsPlaced k n w p = elim (Bool-cases (env.succeeds w.calls)) [
    | inl up ↦ rw up (found-IsPlaced k (lookup k w.etcd) n after refl counted)
    | inr down ↦ rw down (counted, tt)
  ]
    where
      after : World
      after = record w { calls = suc w.calls }

      counted : IsPlaced known after
      counted = record { coherent = p.coherent; same = p.same; clean = p.clean }

  placed :
      (f : List String → Api (Unit {0})) (r : Result (List String) × World)
      → IsPlaced known r.1 × Read r.0
      → ((ns : List String) (v : World)
          → IsPlaced known v
          → NoneTwice ns
          → IsPlaced known (f ns v).1)
      → IsPlaced known (continue f r).1
  placed f (ok ns, v) p next = next ns v p.0 p.1
  placed f (err e, v) p next = p.0

  module _ (status : ℕ → ℕ) where
    pub recover_services-IsPlaced :
        (ss : List Service) (w : World)
        → IsPlaced known w
        → IsPlaced known (recover_services env status known ss w).1
    unfolding recover_services
    recover_services-IsPlaced [] w p = p
    recover_services-IsPlaced (s ∷ ss) w p =
        placed _ (get_names env (Key.services_pods s.name) s.name w)
          (get_names-IsPlaced (Key.services_pods s.name) s.name w p)
          (λ ns v q once.
            recover_services-IsPlaced ss
              (record v { cm = set_service s (known_pods known ns) v.cm })
              (set_service-IsPlaced s known ns v q once))

    pub recover_deployments-IsPlaced :
        (ds : List Deployment) (w : World)
        → IsPlaced known w
        → IsPlaced known (recover_deployments env status known ds w).1
    unfolding recover_deployments
    recover_deployments-IsPlaced [] w p = p
    recover_deployments-IsPlaced (d ∷ ds) w p =
        placed _ (get_names env (Key.deployments_pods d.name) d.name w)
          (get_names-IsPlaced (Key.deployments_pods d.name) d.name w p)
          (λ ns v q once.
            recover_deployments-IsPlaced ds
              (record v { cm = set_deployment d (known_pods known ns) v.cm })
              (set_deployment-IsPlaced d known ns v q once))
