-- ===== src/Proxy/Routing/Removing.antt =====
-- DeletePodFromServices keeps the rules of the chains in step.
use kuberboat.Prelude.{
  String, Bool, true, false, ◌&&◌, ◌==◌, string_eq, if◌then◌else◌, List, [], All, All-if, ◌≡◌, refl,
  sym, subst, ap, ◌∙◌, arith, lookup, lookup-insert,
}
use kuberboat.Exec.{Result, ok, err, continue}
use kuberboat.Proxy.Names.{Chain, chain_eq, service_chain, Rule}
use kuberboat.Proxy.Meta.{
  ServiceManager, PodChain, ServiceChain, get_pod_chains, get_service_chains, without_pod,
  delete_pod_chain_from_service_chain, or_nil,
}
use kuberboat.Proxy.Iptables.{Documented, Succeeds, nat_table, is_ok}
use kuberboat.Proxy.Client.{Host, KubeProxy, clear_service_chain}
use kuberboat.Proxy.Services.{update}
use kuberboat.Proxy.Membership.{rewrite_pods, delete_from_chain}
use kuberboat.Proxy.Routing.{stack, IsRouted, IsPodChain, IsServiceChain}
use kuberboat.Proxy.Routing.Rewriting.{
  others, others-without_pod, others-All, without_pod-IsOnce, IsOnce, IsRewritten,
  rewrite_pods-IsRewritten, rewrite_pods-Kept,
}

pub get_pod_chains-delete_pod :
    (n : String) (c d : Chain) (m : ServiceManager)
    → get_pod_chains d (delete_pod_chain_from_service_chain n c m)
      ≡ (if c == d then without_pod n (get_pod_chains c m) else get_pod_chains d m)
unfolding get_pod_chains delete_pod_chain_from_service_chain
get_pod_chains-delete_pod n c d m =
    ground (arith, lookup-insert c d (without_pod n (get_pod_chains c m)) m.pod_chains)

-- The rules of one chain, whether or not it is the one that is written again.
in_step :
    (b : Bool) (left gone kept now : List PodChain) (old mid new : List Rule)
    → new ≡ (if b then stack 0 left mid else mid)
    → mid ≡ (if b then [] else old)
    → old ≡ stack 0 kept []
    → left ≡ gone
    → now ≡ (if b then gone else kept)
    → new ≡ stack 0 now []
in_step true left gone kept now old mid new w c o e d =
    w ∙ ap (stack 0 left) c ∙ ap (λ l. stack 0 l []) (e ∙ sym d)
in_step false left gone kept now old mid new w c o e d = w ∙ c ∙ o ∙ ap (λ l. stack 0 l []) (sym d)

IsOnce-if :
    (n : String) (b : Bool) (l k : List PodChain)
    → IsOnce n l
    → IsOnce n k
    → IsOnce n (if b then l else k)
IsOnce-if n true l k h g = h
IsOnce-if n false l k h g = g

services_kept :
    (n : String) (c : Chain) (t : String) (m m' : ServiceManager)
    → m' ≡ m
    → All IsServiceChain (get_service_chains t m)
    → All IsServiceChain (get_service_chains t (delete_pod_chain_from_service_chain n c m'))
unfolding get_service_chains delete_pod_chain_from_service_chain
services_kept n c t m m' e h =
    subst (λ x. All IsServiceChain (or_nil (lookup t x.service_chains))) (sym e) h

module _ {T : Type 0} (host : Host T) (doc : Documented host.client.iptables)
    (fine : Succeeds host.client.iptables) (n : String) where
  -- The chains are in step, and the pod has no second entry in any of them.
  abbrev pub IsOrderly : KubeProxy T → Type 0
  IsOrderly p =
      IsRouted host doc p
      × ((i : String) → IsOnce n (get_pod_chains (service_chain i) p.service_meta))

  cleared :
      (id : String) (t : T) (i : String)
      → doc.rules
          (service_chain i)
          (host.client.iptables.clear_chain nat_table (service_chain id) t).1
        ≡ (if service_chain id == service_chain i then [] else doc.rules (service_chain i) t)
  cleared id t i =
      doc.rules-clear_chain (service_chain id) (service_chain i) t
      ∙ ap
          (λ b.
            if b && service_chain id == service_chain i then [] else doc.rules (service_chain i) t)
          (fine.clear_chain-ok (service_chain id) t)

  -- The metadata of the chain `id` without the pod, after the rules.
  removed-IsOrderly :
      (id : String) (p p' q : KubeProxy T)
      → IsOrderly p
      → ((i : String)
          → doc.rules (service_chain i) p'.table ≡ (
              if service_chain id == service_chain i
              then []
              else doc.rules (service_chain i) p.table))
      → p'.service_meta ≡ p.service_meta
      → IsRewritten host doc fine id 0
          (others n (get_pod_chains (service_chain id) p.service_meta))
          p'
          q
      → IsOrderly (record q {
        service_meta = delete_pod_chain_from_service_chain n (service_chain id) q.service_meta;
      })
  removed-IsOrderly id p p' q h c e w = (
    record {
      routed = λ i.
          in_step (service_chain id == service_chain i) (others n (pods id))
            (without_pod n (pods id)) (pods i) (now i) (doc.rules (service_chain i) p.table)
            (doc.rules (service_chain i) p'.table) (doc.rules (service_chain i) q.table) (w.0 i)
            (c i) (h.0.routed i) left (after i);
      pods_named = λ i. subst (All IsPodChain) (sym (after i)) (
          All-if IsPodChain _ _ (service_chain id == service_chain i)
            (subst (All IsPodChain) left (others-All n (pods id) (h.0.pods_named id)))
            (h.0.pods_named i));
      services_named = λ t.
          services_kept n (service_chain id) t p.service_meta q.service_meta (w.1 ∙ e)
            (h.0.services_named t);
    },
    λ i. subst (IsOnce n) (sym (after i)) (
        IsOnce-if n (service_chain id == service_chain i) _ _
          (without_pod-IsOnce n (pods id) (h.1 id)) (h.1 i)),
  )
    where
      pods : String → List PodChain
      pods i = get_pod_chains (service_chain i) p.service_meta

      now : String → List PodChain
      now i =
          get_pod_chains (service_chain i)
            (delete_pod_chain_from_service_chain n (service_chain id) q.service_meta)

      after :
          (i : String)
          → now i
            ≡ (if service_chain id == service_chain i then without_pod n (pods id) else pods i)
      after i =
          ap
            (λ m.
              get_pod_chains (service_chain i)
                (delete_pod_chain_from_service_chain n (service_chain id) m))
            (w.1 ∙ e)
          ∙ get_pod_chains-delete_pod n (service_chain id) (service_chain i) p.service_meta

      left : others n (pods id) ≡ without_pod n (pods id)
      left = others-without_pod n (pods id) (h.1 id)

  -- The end of a chain, after the loop.
  chain_end :
      (id : String) (p p' : KubeProxy T) (r : Result (Result (Unit {0})) × KubeProxy T)
      → is_ok r.0 ≡ true
      → IsOrderly p
      → ((i : String)
          → doc.rules (service_chain i) p'.table ≡ (
              if service_chain id == service_chain i
              then []
              else doc.rules (service_chain i) p.table))
      → p'.service_meta ≡ p.service_meta
      → IsRewritten host doc fine id 0
          (others n (get_pod_chains (service_chain id) p.service_meta))
          p'
          r.1
      → IsOrderly
          (continue
            (λ e q. (ok e, update (delete_pod_chain_from_service_chain n (service_chain id)) q))
            r).1
  chain_end id p p' (ok e, q) o h c m w = removed-IsOrderly id p p' q h c m w
  chain_end id p p' (err e, q) o h c m w = cc

  pub delete_from_chain-IsOrderly :
      (c : ServiceChain) (id : String) (e : Result (Unit {0})) (p : KubeProxy T)
      → c.chain_name ≡ service_chain id
      → IsOrderly p
      → IsOrderly (delete_from_chain host n c e p).1
  unfolding delete_from_chain clear_service_chain
  delete_from_chain-IsOrderly c id e p name h = rw name (
      let p' : KubeProxy T = record p {
        table = (host.client.iptables.clear_chain nat_table (service_chain id) p.table).1;
      } in
      let ps : List PodChain = get_pod_chains (service_chain id) p.service_meta in
      chain_end id p p' (rewrite_pods host (service_chain id) n ps 0 e p')
        (rewrite_pods-Kept host (service_chain id) n ps 0 e p').0 h (cleared id p.table) refl
        (rewrite_pods-IsRewritten host doc fine id n ps 0 e p' (h.0.pods_named id)))
