-- ===== src/Proxy/Creation/Outcomes.antt =====
-- The pods of one port: what `link_pods` leaves, and what it does not touch.
use kuberboat.Prelude.{
  ℕ, suc, ◌+◌, ◌≤◌, String, false, ◌==◌, string_eq, ==_iff, ==_refl, Bool-cases, List, [], ◌∷◌,
  ◌++◌, map, length, length-append, append_nil, ◌≡◌, ◌≢◌, ◌⊎◌, inl, inr, refl, sym, ap, ◌∙◌, arith,
}
use kuberboat.Exec.{Result, ok, err, Exec, continue}
use kuberboat.Proxy.Names.{chain_eq, service_chain}
use kuberboat.Proxy.Meta.{ServiceManager, PodChain, get_pod_chains, add_pod_chain}
use kuberboat.Proxy.Iptables.{Documented, is_ok}
use kuberboat.Proxy.Client.{Host, KubeProxy}
use kuberboat.Proxy.Services.{link_pod, link_pods}
use kuberboat.Proxy.Routing.{IsRouted, get_pod_chains-add_pod_chain}
use kuberboat.Proxy.Routing.Linking.{link_pod-IsRouted}
use kuberboat.Proxy.Creation.{IsLinked, entry, link_pod-IsLinked}

-- Two names of service chains are one, or the texts of both differ.
service_chain-injective : (a b : String) → service_chain a ≡ service_chain b → a ≡ b
service_chain-injective a b e = cc

abbrev pub endpoint : PodChain → String × String
endpoint q = (q.pod_name, q.pod_ip)

shift :
    (f : PodChain → String × String) (xs : List PodChain) (y : PodChain)
    (l : List (String × String))
    → map f (xs ++ y ∷ []) ++ l ≡ map f xs ++ f y ∷ l
shift f [] y l = refl
shift f (x ∷ xs) y l = ap (λ r. f x ∷ r) (shift f xs y l)

-- The pods as the request gives them.
abbrev pub endpoints : List String → List String → List (String × String)
endpoints [] ips = []
endpoints (n ∷ ns) [] = []
endpoints (n ∷ ns) (ip ∷ ips) = (n, ip) ∷ endpoints ns ips

module _ {T : Type 0} (host : Host T) where
  -- The pods of the service chain with the `k`-th identifier.
  abbrev pub pods_at : ℕ → KubeProxy T → List PodChain
  pods_at k p = get_pod_chains (service_chain (host.id k)) p.service_meta

  -- Between two states, only the pods of that chain may change.
  pub record IsFrame (k : ℕ) (p q : KubeProxy T) : Type 0 where
    pub grows : p.drawn ≤ q.drawn
    pub others : (j : ℕ) → j ≢ k → pods_at j q ≡ pods_at j p
    pub chains : q.service_meta.service_chains ≡ p.service_meta.service_chains
    pub ips : q.service_meta.service_to_cluster_ip ≡ p.service_meta.service_to_cluster_ip

  pub IsFrame-trans : (k : ℕ) (p q r : KubeProxy T) → IsFrame k p q → IsFrame k q r → IsFrame k p r
  IsFrame-trans k p q r a b = record {
    grows = omega (arith, a.grows, b.grows);
    others = λ j n. b.others j n ∙ a.others j n;
    chains = b.chains ∙ a.chains;
    ips = b.ips ∙ a.ips;
  }

  pub IsFrame-refl : (k : ℕ) (p : KubeProxy T) → IsFrame k p p
  IsFrame-refl k p = record { grows = omega arith; others = λ j n. refl; chains = refl; ips = refl }

  module _ (distinct : (a b : ℕ) → host.id a ≡ host.id b → a ≡ b) where
    pub other_chain :
        (k j : ℕ) → j ≢ k → (service_chain (host.id k) == service_chain (host.id j)) ≡ false
    other_chain k j n = elim (Bool-cases (service_chain (host.id k) == service_chain (host.id j))) [
      | inl hit ↦ absurd (
          n (
            sym (
              distinct k j (
                service_chain-injective _ _
                  ((==_iff (service_chain (host.id k)) (service_chain (host.id j))).0 hit)))))
      | inr miss ↦ miss
    ]

    own_chain :
        (k : ℕ) (q : PodChain) (m : ServiceManager)
        → get_pod_chains (service_chain (host.id k)) (add_pod_chain (service_chain (host.id k)) q m)
          ≡ get_pod_chains (service_chain (host.id k)) m ++ q ∷ []
    own_chain k q m =
        rw
          (
            get_pod_chains-add_pod_chain (service_chain (host.id k)) (service_chain (host.id k)) q
                m,
            ==_refl (service_chain (host.id k)),
          )
          refl

    same-IsFrame :
        (k : ℕ) (p r : KubeProxy T)
        → r.drawn ≡ suc p.drawn
        → r.service_meta ≡ p.service_meta
        → IsFrame k p r
    same-IsFrame k p r d e = record {
      grows = omega (arith, d);
      others = λ j n. ap (get_pod_chains (service_chain (host.id j))) e;
      chains = ap (λ m. m.service_chains) e;
      ips = ap (λ m. m.service_to_cluster_ip) e;
    }

    add-IsFrame :
        (k : ℕ) (q : PodChain) (p r : KubeProxy T)
        → r.drawn ≡ suc p.drawn
        → r.service_meta ≡ add_pod_chain (service_chain (host.id k)) q p.service_meta
        → IsFrame k p r
    unfolding add_pod_chain
    add-IsFrame k q p r d e = record {
      grows = omega (arith, d);
      others = λ j n. ap (get_pod_chains (service_chain (host.id j))) e ∙ other j n;
      chains = ap (λ m. m.service_chains) e;
      ips = ap (λ m. m.service_to_cluster_ip) e;
    }
      where
        other :
            (j : ℕ)
            → j ≢ k
            → get_pod_chains
                (service_chain (host.id j))
                (add_pod_chain (service_chain (host.id k)) q p.service_meta)
              ≡ pods_at j p
        other j n =
            rw
              (
                get_pod_chains-add_pod_chain (service_chain (host.id k)) (service_chain (host.id j))
                    q p.service_meta,
                other_chain k j n,
              )
              refl

    -- What `link_pods` leaves, by its outcome: the rules in step, the frame, and the pods in order.
    module _ (doc : Documented host.client.iptables) where
      abbrev pub IsServing :
          ℕ → List (String × String) → KubeProxy T → Result (Unit {0}) × KubeProxy T → Type 0
      IsServing k l p r =
          IsRouted host doc r.1
          × IsFrame k p r.1
          × ((is_ok r.0 ≡ false) ⊎ (map endpoint (pods_at k r.1) ≡ map endpoint (pods_at k p) ++ l))

      -- One more pod, and then the others.
      step :
          (k : ℕ) (q : PodChain) (l : List (String × String)) (p : KubeProxy T)
          (next : Exec (KubeProxy T) (Unit {0})) (r : Result (Unit {0}) × KubeProxy T)
          → IsLinked host p.service_meta (suc p.drawn) (service_chain (host.id k)) q r
          → IsRouted host doc r.1
          → ((s : KubeProxy T)
              → length (pods_at k s) ≡ length (pods_at k p) + 1
              → IsRouted host doc s
              → IsServing k l s (next s))
          → IsServing k (endpoint q ∷ l) p (continue (λ _. next) r)
      step k q l p next (ok u, s) (d, inl (o, e)) h go =
          let pods : pods_at k s ≡ pods_at k p ++ q ∷ [] =
            ap (get_pod_chains (service_chain (host.id k))) e ∙ own_chain k q p.service_meta in
          let rest : IsServing k l s (next s) =
            go s (ap length pods ∙ length-append (pods_at k p) (q ∷ [])) h in
          (
            rest.0,
            IsFrame-trans k p s (next s).1 (add-IsFrame k q p s d e) rest.1,
            elim rest.2 [
              | inl bad ↦ inl bad
              | inr good ↦
                  inr
                    (good ∙ ap (λ xs. map endpoint xs ++ l) pods ∙ shift endpoint (pods_at k p) q l)
            ],
          )
      step k q l p next (ok u, s) (d, inr (o, e)) h go = cc
      step k q l p next (err x, s) (d, inl (o, e)) h go = cc
      step k q l p next (err x, s) (d, inr (o, e)) h go = (h, same-IsFrame k p s d e, inl refl)

      -- The pods `i`, `i + 1`, ... of the request.
      pub link_pods-IsServing :
          (k port i : ℕ) (ns ips : List String) (p : KubeProxy T)
          → length (pods_at k p) ≡ i
          → IsRouted host doc p
          → IsServing k
              (endpoints ns ips)
              p
              (link_pods host (service_chain (host.id k)) port i ns ips p)
      unfolding link_pods
      link_pods-IsServing k port i [] ips p e h =
          (h, IsFrame-refl k p, inr (append_nil (map endpoint (pods_at k p))))
      link_pods-IsServing k port i (n ∷ ns) [] p e h = (h, IsFrame-refl k p, inl refl)
      link_pods-IsServing k port i (n ∷ ns) (ip ∷ ips) p e h =
          step k (entry host p n ip) (endpoints ns ips) p
            (link_pods host (service_chain (host.id k)) port (i + 1) ns ips)
            (link_pod host (service_chain (host.id k)) port n ip (i + 1) p)
            (link_pod-IsLinked host (service_chain (host.id k)) port n ip (i + 1) p)
            (link_pod-IsRouted host doc (host.id k) port n ip (i + 1) p (ap (λ x. x + 1) (sym e)) h)
            (λ s l q. link_pods-IsServing k port (i + 1) ns ips s (l ∙ ap (λ x. x + 1) e) q)
