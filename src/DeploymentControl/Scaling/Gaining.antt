-- ===== src/DeploymentControl/Scaling/Gaining.antt =====
-- What the creation of pods adds to the list of a deployment.
use kuberboat.Prelude.{
  ℕ, suc, ◌≤◌, ◌<◌, String, ◌≡◌, refl, ap, ◌∙◌, inl, inr, string_eq, lookup, lookup-insert_self,
  get_or-append, All, All-append, List, [], ◌∷◌, ◌++◌, append_assoc, append_nil, length,
  length-append, some, arith,
}
use kuberboat.Core.{Pod, zero_pod}
use kuberboat.ComponentManager.{
  ComponentManager, Addr, Heap, deref, fresh, alloc, set_pod, push_deployment_pod,
}
use kuberboat.Exec.{Result, ok, err, continue, modify, ◌>>◌}
use kuberboat.World.{World}
use kuberboat.PodControl.Creation.{Created}
use kuberboat.DeploymentControl.Scaling.{adjust, count_one, push}
use kuberboat.DeploymentControl.Scaling.Coherence.{adjust-lists}

-- At least `m` and at most `k` pods, all of them new objects, have joined the list `xs` of `n`, and the objects of
-- before are as they were.
pub record IsGrown (n : String) (xs : List Addr) (h : Heap) (m k : ℕ) (w : World) : Type 0 where
  pub new : List Addr
  pub listed : lookup n w.cm.deployment_to_pods ≡ some (xs ++ new)
  pub many : m ≤ length new
  pub few : length new ≤ k
  pub later : All (λ b. length h ≤ b) new
  pub bigger : length h ≤ length w.cm.heap
  pub older : (a : Addr) → a < length h → deref w.cm.heap a ≡ deref h a

pub start-IsGrown :
    (n : String) (xs : List Addr) (w : World)
    → lookup n w.cm.deployment_to_pods ≡ some xs
    → IsGrown n xs w.cm.heap 0 0 w
start-IsGrown n xs w q = record {
  new = [];
  listed = q ∙ ap some (append_nil xs);
  many = omega arith;
  few = omega arith;
  later = tt;
  bigger = omega arith;
  older = λ a lt. refl;
}

module _ (n : String) (xs : List Addr) (h : Heap) (m : ℕ) where
  pub IsGrown-more : (k : ℕ) (w : World) → IsGrown n xs h m k w → IsGrown n xs h m (suc k) w
  IsGrown-more k w g = record {
    new = g.new;
    listed = g.listed;
    many = g.many;
    few = omega (arith, g.few);
    later = g.later;
    bigger = g.bigger;
    older = g.older;
  }

  -- Only the heap, which grows, and the lists of deployments matter.
  IsGrown-heap :
      (k : ℕ) (w v : World) (q : Pod)
      → v.cm.heap ≡ w.cm.heap ++ q ∷ []
      → v.cm.deployment_to_pods ≡ w.cm.deployment_to_pods
      → IsGrown n xs h m k w
      → IsGrown n xs h m k v
  unfolding deref
  IsGrown-heap k w v q heap lists g = record {
    new = g.new;
    listed = ap (lookup n) lists ∙ g.listed;
    many = g.many;
    few = g.few;
    later = g.later;
    bigger = omega (arith, g.bigger, ap length heap, length-append w.cm.heap (q ∷ []));
    older = λ a lt.
        ap (λ k. deref k a) heap
        ∙ get_or-append zero_pod w.cm.heap (q ∷ []) a (omega (arith, lt, g.bigger))
        ∙ g.older a lt;
  }

  IsGrown-same :
      (k : ℕ) (w v : World)
      → v.cm.heap ≡ w.cm.heap
      → v.cm.deployment_to_pods ≡ w.cm.deployment_to_pods
      → IsGrown n xs h m k w
      → IsGrown n xs h m k v
  IsGrown-same k w v heap lists g = record {
    new = g.new;
    listed = ap (lookup n) lists ∙ g.listed;
    many = g.many;
    few = g.few;
    later = g.later;
    bigger = omega (arith, g.bigger, ap length heap);
    older = λ a lt. ap (λ k. deref k a) heap ∙ g.older a lt;
  }

  pub IsGrown-cm : (k : ℕ) (w v : World) → v.cm ≡ w.cm → IsGrown n xs h m k w → IsGrown n xs h m k v
  IsGrown-cm k w v same =
      IsGrown-same k w v (ap (λ (c : ComponentManager). c.heap) same)
        (ap (λ (c : ComponentManager). c.deployment_to_pods) same)

  -- A new object is pushed.
  push-IsGrown :
      (k : ℕ) (a : Addr) (w : World)
      → length h ≤ a
      → IsGrown n xs h m k w
      → IsGrown n xs h (suc m) (suc k) (push n a w)
  unfolding push push_deployment_pod
  push-IsGrown k a w le g =
      rw (push_deployment_pod, g.listed)
        (record {
          new = g.new ++ a ∷ [];
          listed =
              lookup-insert_self n ((xs ++ g.new) ++ a ∷ []) w.cm.deployment_to_pods
              ∙ ap some (append_assoc xs g.new (a ∷ []));
          many = omega (arith, g.many, length-append g.new (a ∷ []));
          few = omega (arith, g.few, length-append g.new (a ∷ []));
          later = All-append (λ b. length h ≤ b) g.new (a ∷ []) g.later (le, tt);
          bigger = g.bigger;
          older = g.older;
        })

  IsGrown-less : (k : ℕ) (w : World) → IsGrown n xs h (suc m) k w → IsGrown n xs h m k w
  IsGrown-less k w g = record {
    new = g.new;
    listed = g.listed;
    many = omega (arith, g.many);
    few = g.few;
    later = g.later;
    bigger = g.bigger;
    older = g.older;
  }

  -- After a creation that succeeded, and after any.
  created :
      (k : ℕ) (p : Pod) (w v : World) (a : Addr)
      → IsGrown n xs h m k w
      → Created p w.cm (ok a, v)
      → IsGrown n xs h (suc m) (suc k) (push n a (adjust n count_one v))
  unfolding fresh alloc set_pod
  created k p w v a g (inl (x, bad, _)) = cc
  created k p w v a g (inr (q, _, same, _, inr bad)) = cc
  created k p w v a g (inr (q, _, same, _, inl it)) =
      let u = adjust n count_one v in
      let l = adjust-lists n count_one v in
      push-IsGrown k a u (omega (arith, g.bigger, same_ok it)) (
        IsGrown-same k v u l.0 l.2 (
          IsGrown-heap k w v q (ap (λ (c : ComponentManager). c.heap) same)
            (ap (λ (c : ComponentManager). c.deployment_to_pods) same) g))
    where
      same_ok : {x y : Addr} → Path (Result Addr) (ok x) (ok y) → x ≡ y
      same_ok e = cc

  pub after_create :
      (k : ℕ) (p : Pod) (w : World) (r : Result Addr × World)
      → IsGrown n xs h m k w
      → Created p w.cm r
      → IsGrown n xs h m
          (suc k)
          (continue (λ a. modify (adjust n count_one) >> modify (push n a)) r).1
  unfolding fresh alloc set_pod
  after_create k p w (ok a, v) g c =
      IsGrown-less (suc k) (push n a (adjust n count_one v)) (created k p w v a g c)
  after_create k p w (err e, v) g (inl (x, _, same)) = IsGrown-more k v (IsGrown-cm k w v same g)
  after_create k p w (err e, v) g (inr (q, _, same, _, _)) = IsGrown-more k v (
      IsGrown-heap k w v q (ap (λ (c : ComponentManager). c.heap) same)
        (ap (λ (c : ComponentManager). c.deployment_to_pods) same) g)

  pub after_success :
      (k : ℕ) (p : Pod) (w : World) (r : Result Addr × World) (b : Addr)
      → r.0 ≡ ok b
      → IsGrown n xs h m k w
      → Created p w.cm r
      → IsGrown n xs h
          (suc m)
          (suc k)
          (continue (λ a. modify (adjust n count_one) >> modify (push n a)) r).1
  after_success k p w (ok a, v) b q g c = created k p w v a g c
  after_success k p w (err e, v) b q g c = cc
