-- ===== src/DeploymentControl/Rolling/Round.antt =====
-- What a round of a rolling update does at least: its first deletion, and its first creation.
use kuberboat.Prelude.{
  ℕ, ℤ, pos, suc, ◌+◌, ◌≤◌, ◌<◌, String, ◌≡◌, ◌≢◌, refl, sym, ap, subst, ◌⊎◌, inl, inr, Bool, true,
  false, not, Bool-cases, string_eq, lookup, In, filter-In, In-filter, All, All-map, filter, List,
  [], ◌∷◌, ◌++◌, length, some, arith,
}
use kuberboat.Core.{Deployment}
use kuberboat.ComponentManager.{Addr, Heap, deref, name_of}
use kuberboat.ComponentManager.Integrity.{IsCoherent}
use kuberboat.Exec.{Result, ok, Exec, continue, attempt}
use kuberboat.Exec.Keeps.{Keeps, continue_cases}
use kuberboat.World.{World, Env}
use kuberboat.PodControl.Forgetting.{UnnamedEntry, unnamed_everywhere}
use kuberboat.DeploymentControl.{find_outdated_pods, find_updated_pods, is_pod_updated}
use kuberboat.DeploymentControl.Scaling.{delete_deployment_pod, delete_outdated, save}
use kuberboat.DeploymentControl.Scaling.Losing.{
  Dropped, delete_deployment_pod-Dropped, fewer_pods-outdated,
}
use kuberboat.DeploymentControl.Scaling.Gaining.{start-IsGrown}
use kuberboat.DeploymentControl.Scaling.Adding.{IsCreatable, more_pods-adds}
use kuberboat.DeploymentControl.Handlers.Deleting.{Reachable, delete_pod_by_name-done}
use kuberboat.DeploymentControl.Monitor.{create_many, delete_many}
use kuberboat.DeploymentControl.Rolling.Unlisted.{
  Lacks, IsUnlisted, delete_outdated-Keeps, save-Keeps,
}

-- Every pod is updated or outdated.
length-filter-not :
    (p : Addr → Bool) (xs : List Addr)
    → length (filter (λ a. not (p a)) xs) + length (filter p xs) ≡ length xs
length-filter-not p [] = omega arith
length-filter-not p (x ∷ xs) = elim (Bool-cases (p x)) [
  | inl keep ↦ rw keep (omega (arith, length-filter-not p xs))
  | inr drop ↦ rw drop (omega (arith, length-filter-not p xs))
]

pub partition :
    (env : Env) (h : Heap) (d : Deployment) (xs : List Addr)
    → length (find_outdated_pods env h d xs) + length (find_updated_pods env h d xs) ≡ length xs
unfolding find_outdated_pods find_updated_pods
partition env h d xs = length-filter-not _ xs

-- An outdated pod of the list, the first.
pub first_outdated :
    (env : Env) (h : Heap) (d : Deployment) (xs : List Addr) (b : Addr)
    → In b xs
    → is_pod_updated env d (deref h b) ≡ false
    → (a : Addr) × (rest : List Addr) × (find_outdated_pods env h d xs ≡ a ∷ rest)
      × In a xs
      × (is_pod_updated env d (deref h a) ≡ false)
unfolding find_outdated_pods
first_outdated env h d xs b i old =
    front (filter old_one xs) refl (filter-In old_one xs i (ap not old))
  where
    old_one : Addr → Bool
    old_one a = not (is_pod_updated env d (deref h a))

    not_not : (t : Bool) → not t ≡ true → t ≡ false
    not_not true q = cc
    not_not false q = refl

    front :
        (ys : List Addr)
        → filter (λ a. not (is_pod_updated env d (deref h a))) xs ≡ ys
        → In b ys
        → (a : Addr) × (rest : List Addr) × (filter (λ a. not (is_pod_updated env d (deref h a))) xs
            ≡ a ∷ rest)
          × In a xs
          × (is_pod_updated env d (deref h a) ≡ false)
    front [] q j = absurd j
    front (a ∷ rest) q j =
        let r =
          In-filter (λ a. not (is_pod_updated env d (deref h a))) {a = a} xs
            (subst (λ zs. In a zs) (sym q) (inl refl)) in
        (a, rest, q, r.0, not_not (is_pod_updated env d (deref h a)) r.1)

-- What has happened after a round: an outdated pod is in no list any more, or new pods have joined.
abbrev pub Progressed : Env → Deployment → List Addr → World → World → Type 0
Progressed env d xs w v =
    ((a : Addr) × In a xs × (is_pod_updated env d (deref w.cm.heap a) ≡ false) × IsUnlisted a v)
    ⊎ ((new : List Addr) × (0 < length new)
        × (lookup d.name v.cm.deployment_to_pods ≡ some (xs ++ new)))

module _ (env : Env) (w : World) (v : IsCoherent w.cm) (a : Addr) where
  Dropped-IsUnlisted :
      (r : Result (Unit {0}) × World)
      → a < length w.cm.heap
      → r.0 ≡ ok tt
      → Dropped (name_of w.cm.heap a) w r
      → IsUnlisted a r.1
  Dropped-IsUnlisted (r, u) lt done (inl (e, bad, _)) = cc
  Dropped-IsUnlisted (r, u) lt done (inr (_, gone)) = record {
    object = omega (arith, lt, ap length gone.heap);
    nowhere =
        subst (λ m. All (Lacks a) m) (sym gone.lists)
          (All-map (UnnamedEntry w.cm.heap (name_of w.cm.heap a)) (Lacks a) _
            (λ e.
              All-map (λ b. name_of w.cm.heap b ≢ name_of w.cm.heap a) (λ b. b ≢ a) e.1
                (λ b other same. other (ap (name_of w.cm.heap) same)))
            (unnamed_everywhere w.cm.heap (name_of w.cm.heap a) w.cm.pods w.cm.deployment_to_pods
              v.deployments_linked));
  }

  pub delete_deployment_pod-IsUnlisted :
      (n : String)
      → a < length w.cm.heap
      → lookup (name_of w.cm.heap a) w.cm.pods ≡ some a
      → ((k : ℕ) → env.succeeds k ≡ true)
      → Reachable w a
      → IsUnlisted a (delete_deployment_pod env n a w).1
  unfolding delete_deployment_pod
  delete_deployment_pod-IsUnlisted n lt known all_well near =
      Dropped-IsUnlisted (delete_deployment_pod env n a w) lt
        (rw (delete_pod_by_name-done env all_well w a known near).0 refl)
        (delete_deployment_pod-Dropped env n a w)

pub keeps_on :
    (P : World → Type 0) (m : Exec World (Unit {0})) (r : Result (Unit {0}) × World)
    → Keeps P m
    → P r.1
    → P (continue (λ _. m) r).1
keeps_on P m r k p = continue_cases (λ s. P s.1) P (λ _. m) r p (λ e s q. q) (λ _ s q. k.at s q)

module _ (env : Env) (d : Deployment) (xs : List Addr) (w : World) where
  pub delete_many-IsUnlisted :
      (z : ℤ) (k : ℕ) (a : Addr) (rest : List Addr)
      → z ≡ pos (suc k)
      → suc k ≤ length (find_outdated_pods env w.cm.heap d xs)
      → find_outdated_pods env w.cm.heap d xs ≡ a ∷ rest
      → IsUnlisted a (delete_deployment_pod env d.name a w).1
      → IsUnlisted a (delete_many env d xs z w).1
  unfolding delete_many delete_outdated
  delete_many-IsUnlisted z k a rest q le front u =
      rw (q, fewer_pods-outdated env d xs (suc k) w le, front)
        (keeps_on (IsUnlisted a) (save env d.name) (delete_outdated env d.name (suc k) (a ∷ rest) w)
          (save-Keeps a env d.name)
          (keeps_on (IsUnlisted a) (delete_outdated env d.name k rest)
            (attempt (delete_deployment_pod env d.name a) w)
            (delete_outdated-Keeps a env d.name k rest) u))

  pub create_many-adds :
      (z : ℤ) (k : ℕ) (b : Addr)
      → z ≡ pos (suc k)
      → lookup d.name w.cm.deployment_to_pods ≡ some xs
      → IsCreatable env d w b
      → Progressed env d xs w (create_many env d z w).1
  unfolding create_many
  create_many-adds z k b q listed made = rw q (
      let g = more_pods-adds env xs w.cm.heap d k w b made (start-IsGrown d.name xs w listed) in
      inr (g.new, g.many, g.listed))
