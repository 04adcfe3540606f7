-- ===== src/Recovery/Lists.antt =====
-- The lists of pods that a new API server makes from lists of names.
use kuberboat.Prelude.{
  NoneTwice, String, ◌≡◌, ◌≢◌, refl, sym, ap, subst, ◌∙◌, Bool-cases, Option-cases, inl, inr, ◌==◌,
  ==_iff, string_eq, GoMap, lookup, insert, contains-insert, All-insert, All-lookup, All, List, [],
  ◌∷◌, some, arith,
}
use kuberboat.Core.{Deployment}
use kuberboat.ComponentManager.{ComponentManager, Addr, Heap, name_of, set_all, set_deployment}
use kuberboat.ComponentManager.Integrity.{IsCoherent, Named, LinkedEntry}
use kuberboat.ComponentManager.Links.{Linked}
use kuberboat.World.{Key, Value, key_eq}
use kuberboat.Recovery.{known_pods}

-- A value of etcd that is a list of names has none twice.
abbrev pub CleanEntry : Key × Value → Type 0
CleanEntry (k, Value.names ns) = NoneTwice ns
CleanEntry _ = Unit

module _ (h : Heap) (m : GoMap String Addr) (named : All (Named h) m) where
  known_pods-others :
      (n : String) (a : Addr) (ns : List String)
      → lookup n m ≡ some a
      → All (λ k. n ≢ k) ns
      → All (λ b. a ≢ b) (known_pods m ns)
  unfolding known_pods
  known_pods-others n a [] q d = tt
  known_pods-others n a (k ∷ ns) q d = elim (Option-cases (lookup k m)) [
    | inl missing ↦ rw (missing, All) (known_pods-others n a ns q d.1)
    | inr (b, found) ↦
        rw (found, All)
          (
            λ e. d.0 (
                sym (All-lookup (Named h) n m named q).1
                ∙ ap (name_of h) e
                ∙ (All-lookup (Named h) k m named found).1),
            known_pods-others n a ns q d.1,
          )
  ]

  pub known_pods-Linked : (ns : List String) → NoneTwice ns → Linked h m (known_pods m ns)
  unfolding known_pods
  known_pods-Linked [] d = tt
  known_pods-Linked (n ∷ ns) d = elim (Option-cases (lookup n m)) [
    | inl missing ↦ rw (missing, Linked) (known_pods-Linked ns d.1)
    | inr (a, found) ↦
        rw (found, Linked)
          (
            (All-lookup (Named h) n m named found).0,
            subst (λ k. lookup k m ≡ some a) (sym (All-lookup (Named h) n m named found).1) found,
            known_pods-others n a ns found d.0,
            known_pods-Linked ns d.1,
          )
  ]

insert-found :
    (k : String) (a : Addr) (m : GoMap String Addr) → lookup k m ≡ some a → insert k a m ≡ m
unfolding lookup insert
insert-found k a [] q = cc
insert-found k a ((j, b) ∷ m) q = elim (Bool-cases (j == k)) [
  | inl hit ↦ ground (arith, q, hit, ==_iff j k)
  | inr miss ↦ rw miss (ap (λ r. (j, b) ∷ r) (insert-found k a m (ground (arith, q, miss))))
]

set_all-Linked :
    (h : Heap) (m : GoMap String Addr) (xs : List Addr) → Linked h m xs → set_all h xs m ≡ m
unfolding set_all
set_all-Linked h m [] l = refl
set_all-Linked h m (a ∷ xs) l =
    ap (set_all h xs) (insert-found (name_of h a) a m l.1) ∙ set_all-Linked h m xs l.3

-- Pods that are registered already stay where they are.
pub set_deployment-pods :
    (d : Deployment) (xs : List Addr) (cm : ComponentManager)
    → Linked cm.heap cm.pods xs
    → (set_deployment d xs cm).pods ≡ cm.pods
unfolding set_deployment
set_deployment-pods d xs cm l = set_all-Linked cm.heap cm.pods xs l

pub Linked-IsCoherent :
    (d : Deployment) (xs : List Addr) (cm : ComponentManager)
    → Linked cm.heap cm.pods xs
    → IsCoherent cm
    → IsCoherent (set_deployment d xs cm)
unfolding set_deployment
Linked-IsCoherent d xs cm l v = rw (set_all-Linked cm.heap cm.pods xs l) (record {
  pods_once = v.pods_once;
  pods_named = v.pods_named;
  deployments_linked =
      All-insert (LinkedEntry cm.heap cm.pods) d.name xs cm.deployment_to_pods l
        v.deployments_linked;
  services_linked = v.services_linked;
  deployments_listed = λ k. ground (
    arith,
    contains-insert d.name k d cm.deployments,
    contains-insert d.name k xs cm.deployment_to_pods,
    v.deployments_listed k,
  );
  services_listed = v.services_listed;
})
