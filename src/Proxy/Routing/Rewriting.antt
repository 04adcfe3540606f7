-- ===== src/Proxy/Routing/Rewriting.antt =====
-- The loop of DeletePodFromServices that writes the rules of a service chain again.
use kuberboat.Prelude.{
  ℕ, ◌+◌, ◌≤◌, String, Bool, true, false, not, ◌&&◌, ◌==◌, string_eq, Bool-cases, inl, inr,
  if◌then◌else◌, List, [], ◌∷◌, filter, length, All, ◌≡◌, refl, sym, ap, ◌∙◌, arith,
}
use kuberboat.Exec.{Result}
use kuberboat.Proxy.Names.{Chain, chain_eq, service_chain, Rule, pod_chain-service_chain}
use kuberboat.Proxy.Meta.{PodChain, without_pod}
use kuberboat.Proxy.Iptables.{Documented, Succeeds, nat_table, is_ok}
use kuberboat.Proxy.Client.{Host, KubeProxy, pod_rule, delete_pod_chain, apply_pod_chain, wrapped}
use kuberboat.Proxy.Membership.{rewrite_pod, rewrite_pods}
use kuberboat.Proxy.Routing.{stack, IsPodChain}

-- The pods with another name, and those with this one.
abbrev pub others : String → List PodChain → List PodChain
others n = filter (λ q. not (q.pod_name == n))

abbrev pub named : String → List PodChain → List PodChain
named n = filter (λ q. q.pod_name == n)

-- The pod stands there once at most.
abbrev pub IsOnce : String → List PodChain → Type 0
IsOnce n l = length (named n l) ≤ 1

pub others-none : (n : String) (l : List PodChain) → length (named n l) ≤ 0 → others n l ≡ l
others-none n [] h = refl
others-none n (q ∷ l) h = ground (arith, others-none n l)

pub others-without_pod :
    (n : String) (l : List PodChain) → IsOnce n l → others n l ≡ without_pod n l
unfolding without_pod
others-without_pod n [] h = refl
others-without_pod n (q ∷ l) h = ground (arith, others-without_pod n l, others-none n l)

named-others : (n : String) (l : List PodChain) → length (named n (others n l)) ≤ 0
named-others n [] = omega arith
named-others n (q ∷ l) = ground (arith, named-others n l)

pub without_pod-IsOnce : (n : String) (l : List PodChain) → IsOnce n l → IsOnce n (without_pod n l)
without_pod-IsOnce n l h = rw (sym (others-without_pod n l h)) (omega (arith, named-others n l))

pub others-All : (n : String) (l : List PodChain) → All IsPodChain l → All IsPodChain (others n l)
others-All n [] h = tt
others-All n (q ∷ l) h = elim (Bool-cases (q.pod_name == n)) [
  | inl hit ↦ rw hit (others-All n l h.1)
  | inr miss ↦ rw miss (h.0, others-All n l h.1)
]

module _ {T : Type 0} (host : Host T) where
  -- The loop goes through all pods, since its errors are values, and keeps the metadata.
  pub rewrite_pods-Kept :
      (c : Chain) (n : String) (ps : List PodChain) (round : ℕ) (e : Result (Unit {0}))
      (p : KubeProxy T)
      → (is_ok (rewrite_pods host c n ps round e p).0 ≡ true)
        × ((rewrite_pods host c n ps round e p).1.service_meta ≡ p.service_meta)
  unfolding rewrite_pods rewrite_pod delete_pod_chain apply_pod_chain
  rewrite_pods-Kept c n [] round e p = (refl, refl)
  rewrite_pods-Kept c n (q ∷ ps) round e p = elim (Bool-cases (q.pod_name == n)) [
    | inl hit ↦ rw hit (rewrite_pods-Kept c n ps round e _)
    | inr miss ↦ rw miss (rewrite_pods-Kept c n ps (round + 1) _ _)
  ]

module _ {T : Type 0} (host : Host T) (doc : Documented host.client.iptables)
    (fine : Succeeds host.client.iptables) where
  -- The chain `id` has the rules of `l` on top, and no other service chain has changed.
  abbrev pub IsRewritten : String → ℕ → List PodChain → KubeProxy T → KubeProxy T → Type 0
  IsRewritten id round l p q =
      ((i : String)
        → doc.rules (service_chain i) q.table ≡ (
            if service_chain id == service_chain i
            then stack round l (doc.rules (service_chain i) p.table)
            else doc.rules (service_chain i) p.table))
      × (q.service_meta ≡ p.service_meta)

  on_top :
      (b : Bool) (round : ℕ) (l : List PodChain) (x : Rule) (new old : List Rule)
      → new ≡ (if b then x ∷ old else old)
      → (if b then stack round l new else new) ≡ (if b then stack round l (x ∷ old) else old)
  on_top true round l x new old e = ap (stack round l) e
  on_top false round l x new old e = e

  deleted_pod :
      (q : PodChain) (p : KubeProxy T) (i : String)
      → IsPodChain q
      → doc.rules
          (service_chain i)
          (host.client.iptables.clear_and_delete_chain nat_table q.chain_name p.table).1
        ≡ doc.rules (service_chain i) p.table
  deleted_pod q p i (j, e) =
      doc.rules-clear_and_delete_chain q.chain_name (service_chain i) p.table
        (rw e (pod_chain-service_chain j i))

  inserted :
      (id : String) (rule : Rule) (t : T) (i : String)
      → doc.rules
          (service_chain i)
          (host.client.iptables.insert nat_table (service_chain id) 1 rule t).1
        ≡ (if service_chain id == service_chain i
            then rule ∷ doc.rules (service_chain i) t
            else doc.rules (service_chain i) t)
  inserted id rule t i =
      doc.rules-insert (service_chain id) (service_chain i) rule t
      ∙ ap
          (λ b.
            if b && service_chain id == service_chain i
            then rule ∷ doc.rules (service_chain i) t
            else doc.rules (service_chain i) t)
          (fine.insert-ok (service_chain id) rule t)

  if_same : (b : Bool) (x : List Rule) → x ≡ (if b then x else x)
  if_same true x = refl
  if_same false x = refl

  pub rewrite_pods-IsRewritten :
      (id n : String) (ps : List PodChain) (round : ℕ) (e : Result (Unit {0})) (p : KubeProxy T)
      → All IsPodChain ps
      → IsRewritten id round (others n ps) p (rewrite_pods host (service_chain id) n ps round e p).1
  unfolding rewrite_pods rewrite_pod delete_pod_chain apply_pod_chain stack
  rewrite_pods-IsRewritten id n [] round e p h = (
    λ i. if_same (service_chain id == service_chain i) (doc.rules (service_chain i) p.table),
    refl,
  )
  rewrite_pods-IsRewritten id n (q ∷ ps) round e p h = elim (Bool-cases (q.pod_name == n)) [
    | inl hit ↦ rw hit (
        let p' : KubeProxy T = record p {
          table = (host.client.iptables.clear_and_delete_chain nat_table q.chain_name p.table).1;
        } in
        let rest : IsRewritten id round (others n ps) p'
            (rewrite_pods host (service_chain id) n ps round e p').1 =
          rewrite_pods-IsRewritten id n ps round e p' h.1 in
        (
          λ i.
              rest.0 i
              ∙ ap
                  (λ x.
                    if service_chain id == service_chain i then stack round (others n ps) x else x)
                  (deleted_pod q p i h.0),
          rest.1,
        ))
    | inr miss ↦ rw miss (
        let rule : Rule = pod_rule q.pod_name q.chain_name (round + 1) in
        let r : Result (Unit {0}) × T =
          host.client.iptables.insert nat_table (service_chain id) 1 rule p.table in
        let p' : KubeProxy T = record p { table = r.1 } in
        let rest : IsRewritten id (round + 1) (others n ps) p'
            (rewrite_pods host (service_chain id) n ps (round + 1) (wrapped r.0) p').1 =
          rewrite_pods-IsRewritten id n ps (round + 1) (wrapped r.0) p' h.1 in
        (
          λ i.
              rest.0 i
              ∙ on_top (service_chain id == service_chain i) (round + 1) (others n ps) rule
                  (doc.rules (service_chain i) r.1) (doc.rules (service_chain i) p.table)
                  (inserted id rule p.table i),
          rest.1,
        ))
  ]
