-- ===== src/Worker/Reports.antt =====
-- What a worker tells the API server of the pods that it starts and stops.
use kuberboat.Prelude.{
  ℕ, String, true, ==_refl, string_eq, Option-cases, inl, inr, get_or, List, [], ◌∷◌, ◌++◌, ◌≡◌,
  refl, ap, ◌∙◌, arith, lookup-delete, contains-lookup, Option, none, some,
}
use mathlib.Core.Option
use kuberboat.Core.{Pod, zero_pod}
use kuberboat.Exec.{Result, ok, err, gets, modify}
use kuberboat.Exec.Keeps.{Keeps, Leads-pure, Leads-gets, Keeps-bind, Keeps-then}
use kuberboat.PodManager.{
  MetaManager, pod_by_name, containers_by_pod, sand_box_by_pod, volumes_by_pod,
  delete_pod_containers, delete_pod_volumes,
}
use kuberboat.PodManager
use kuberboat.Worker.{
  Worker, Env, Command, Report, notify_pod_deletion, deref, docker, tell, notify_deletion,
}
use kuberboat.Worker.Stopping.{
  stop_container, stop_containers, remove_volumes, stop_sand_box, stop_pod, delete_known,
  deferred_pod, give_back, delete_pod_by_name,
}

-- The reports, the names and the pods.
abbrev Says : List Report → MetaManager → List Pod → Worker → Type 0
Says t m h w = (w.told ≡ t) × (w.pod_meta ≡ m) × (w.heap ≡ h)

module _ (env : Env) (t : List Report) (m : MetaManager) (h : List Pod) where
  docker-Says : (c : Command) → Keeps (Says t m h) (docker env c)
  unfolding docker
  docker-Says c = record { at = λ w s. s }

  stop_container-Says : (c : String) → Keeps (Says t m h) (stop_container env c)
  unfolding stop_container
  stop_container-Says c = Keeps-then _ _ (docker-Says _) (docker-Says _)

  stop_containers-Says : (cs : List String) → Keeps (Says t m h) (stop_containers env cs)
  unfolding stop_containers
  stop_containers-Says [] = Leads-pure _ (λ w s. s)
  stop_containers-Says (c ∷ cs) = Keeps-then _ _ (stop_container-Says c) (stop_containers-Says cs)

  remove_volumes-Says : (vs : List String) → Keeps (Says t m h) (remove_volumes env vs)
  unfolding remove_volumes
  remove_volumes-Says [] = Leads-pure _ (λ w s. s)
  remove_volumes-Says (v ∷ vs) = Keeps-then _ _ (docker-Says _) (remove_volumes-Says vs)

  stop_sand_box-Says : (c : Option String) → Keeps (Says t m h) (stop_sand_box env c)
  unfolding stop_sand_box
  stop_sand_box-Says none = Leads-pure _ (λ w s. s)
  stop_sand_box-Says (some c) = stop_container-Says c

  stop_pod-Says : (a : ℕ) → Keeps (Says t m h) (stop_pod env a)
  unfolding stop_pod
  stop_pod-Says a =
      Keeps-bind (gets (λ w. containers_by_pod a w.runtime)) _ (Leads-gets _ (λ w s. s)) λ cs.
        Keeps-then (stop_containers env cs) _ (stop_containers-Says cs) (
          Keeps-bind (gets (λ w. sand_box_by_pod a w.runtime)) _ (Leads-gets _ (λ w s. s)) λ c.
            Keeps-then (stop_sand_box env c) _ (stop_sand_box-Says c) (
              Keeps-then (modify (λ w. record w { runtime = delete_pod_containers a w.runtime })) _
                (record { at = λ w s. s })
                (Keeps-bind (gets (λ w. volumes_by_pod a w.runtime)) _ (Leads-gets _ (λ w s. s))
                  λ vs.
                    Keeps-then (remove_volumes env vs)
                      (modify (λ w. record w { runtime = delete_pod_volumes a w.runtime }))
                      (remove_volumes-Says vs) (record { at = λ w s. s }))))

-- The pod that is deleted, as it was when the request came.
abbrev pub known_pod : String → Worker → Option Pod
known_pod n w = Option.map (λ a. deref a w) (pod_by_name n w.pod_meta)

forgotten :
    (n : String) (m : MetaManager) → pod_by_name n (PodManager.delete_pod_by_name n m) ≡ none
unfolding pod_by_name PodManager.delete_pod_by_name
forgotten n m =
    ground (arith, lookup-delete n n m.pod_by_name, contains-lookup n m.pod_by_name, ==_refl n)

-- The name is unknown, and nothing was told so far.
abbrev IsQuiet : String → Worker → Worker → Type 0
IsQuiet n w v = (v.told ≡ w.told) × (pod_by_name n v.pod_meta ≡ none) × (v.heap ≡ w.heap)

delete_known-IsQuiet :
    (env : Env) (n : String) (w : Worker)
    → IsQuiet n w (delete_known env n (pod_by_name n w.pod_meta) w).1
unfolding delete_known
delete_known-IsQuiet env n w = elim (Option-cases (pod_by_name n w.pod_meta)) [
  | inl unknown ↦ rw unknown (refl, unknown, refl)
  | inr (a, found) ↦ rw found (
      let m : MetaManager = PodManager.delete_pod_by_name n w.pod_meta in
      let k : Says w.told m w.heap (stop_pod env a (record w { pod_meta = m })).1 =
        (stop_pod-Says env w.told m w.heap a).at (record w { pod_meta = m }) (refl, refl, refl) in
      (k.0, ap (pod_by_name n) k.1 ∙ forgotten n w.pod_meta, k.2))
]

give_back_same : (env : Env) (r : Result (Unit {0})) (w : Worker) → (give_back env r w).1 ≡ w
unfolding give_back
give_back_same env (ok u) w = refl
give_back_same env (err e) w = refl

same_pod :
    (env : Env) (a : Option ℕ) (v w : Worker)
    → v.heap ≡ w.heap
    → deferred_pod env a v ≡ Option.map (λ b. deref b w) a
unfolding deferred_pod
same_pod env none v w e = refl
same_pod env (some a) v w e = ap (λ h. some (get_or h a zero_pod)) e

-- Whatever Docker answers, and also for a name that the worker does not know, a request to delete
-- a pod ends with the name unknown to the worker and one report more to the API server, which
-- says that the deletion succeeded.
pub delete_pod_by_name-told :
    (env : Env) (n : String) (w : Worker)
    → (pod_by_name n (delete_pod_by_name env n w).1.pod_meta ≡ none)
      × ((delete_pod_by_name env n w).1.told
          ≡ w.told ++ notify_pod_deletion true (known_pod n w) ∷ [])
unfolding delete_pod_by_name notify_deletion tell deferred_pod
delete_pod_by_name-told env n w =
    let a : Option ℕ = pod_by_name n w.pod_meta in
    let r : Result (Unit {0}) × Worker = delete_known env n a w in
    let k : IsQuiet n w r.1 = delete_known-IsQuiet env n w in
    rw
      (give_back_same env r.0
        (record r.1 { told = r.1.told ++ notify_pod_deletion true (deferred_pod env a r.1) ∷ [] }))
      (
        k.1,
        ap (λ l. l ++ notify_pod_deletion true (deferred_pod env a r.1) ∷ []) k.0
            ∙ ap (λ x. w.told ++ notify_pod_deletion true x ∷ []) (same_pod env a r.1 w k.2),
      )
