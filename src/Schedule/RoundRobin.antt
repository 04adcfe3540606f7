-- ===== src/Schedule/RoundRobin.antt =====
-- The rotation over the registered workers.
use kuberboat.Prelude.{
  ℕ, zero, suc, ◌+◌, ◌-◌, ◌%◌, ◌≤◌, ◌<◌, ◌≡◌, refl, sym, ap, ◌∙◌, subst, arith, length, get_elem?,
}
use native.Mathlib.Decide.{dec_le}
use native.Mathlib.Nat.{add-zero, mod-lt, mod-eq_of_lt, mod_self, mod-add-mod, add-mod_right}
use kuberboat.World.{World}
use kuberboat.Nodes.{registered_nodes}
use kuberboat.Schedule.{start, schedule_by_round_robin}

-- The state after that many choices.
pub after : ℕ → World → World
after zero w = w
after (suc k) w = (schedule_by_round_robin (after k w)).1

registered_nodes-round :
    (w : World) → registered_nodes (schedule_by_round_robin w).1 ≡ registered_nodes w
unfolding schedule_by_round_robin registered_nodes
registered_nodes-round w = ground arith

registered_nodes-after : (k : ℕ) (w : World) → registered_nodes (after k w) ≡ registered_nodes w
unfolding after
registered_nodes-after zero w = refl
registered_nodes-after (suc k) w = registered_nodes-round (after k w) ∙ registered_nodes-after k w

next_idx-round :
    (w : World)
    → 0 < length (registered_nodes w)
    → (schedule_by_round_robin w).1.next_idx ≡ suc (start (length (registered_nodes w)) w.next_idx)
unfolding schedule_by_round_robin
next_idx-round w h = ground arith

chosen :
    (w : World)
    → 0 < length (registered_nodes w)
    → (schedule_by_round_robin w).0
      ≡ get_elem? (registered_nodes w) (start (length (registered_nodes w)) w.next_idx)
unfolding schedule_by_round_robin
chosen w h = ground arith

start-lt : (n i : ℕ) → 0 < n → start n i < n
unfolding start
start-lt n i h = ground arith

-- One step round the circle.
start-suc : (n m j : ℕ) → 0 < n → j ≡ m % n → start n (suc j) ≡ (m + 1) % n
unfolding start
start-suc n m j h e = elim (dec_le n (suc j)) [
  | yes full ↦ ground (arith, full, wrap full)
  | no more ↦ ground (arith, more, stay more)
]
  where
    low : j < n
    low = subst (λ k. k < n) (sym e) (mod-lt m h)

    same : (j + 1) % n ≡ (m + 1) % n
    same = ap (λ k. (k + 1) % n) e ∙ mod-add-mod m n 1

    wrap : n ≤ suc j → 0 ≡ (m + 1) % n
    wrap full = sym (ap (λ k. k % n) (omega (arith, low, full)) ∙ mod_self n) ∙ same

    stay : ¬ (n ≤ suc j) → suc j ≡ (m + 1) % n
    stay more =
        let room : j + 1 < n = omega (arith, more, low) in omega (arith, mod-eq_of_lt room) ∙ same

start-after :
    (k : ℕ) (w : World)
    → 0 < length (registered_nodes w)
    → start (length (registered_nodes w)) (after k w).next_idx
      ≡ (start (length (registered_nodes w)) w.next_idx + k) % length (registered_nodes w)
unfolding after
start-after zero w h =
    let n = length (registered_nodes w) in
    let s = start n w.next_idx in
    sym (ap (λ m. m % n) (add-zero s) ∙ mod-eq_of_lt (start-lt n w.next_idx h))
start-after (suc k) w h =
    let n = length (registered_nodes w) in
    let s = start n w.next_idx in
    let i = (after k w).next_idx in
    let here = ap (λ ns. length ns) (registered_nodes-after k w) in
    ap (start n) (next_idx-round (after k w) (subst (λ m. 0 < m) (sym here) h))
    ∙ ap (λ m. start n (suc (start m i))) here
    ∙ start-suc n (s + k) (start n i) h (start-after k w h)
    ∙ ap (λ m. m % n) (omega arith)

-- With workers registered, the k-th choice from any state is the worker k places after the next
-- one, around the circle of the registered workers.
pub schedule_by_round_robin_lem :
    (k : ℕ) (w : World)
    → 0 < length (registered_nodes w)
    → (schedule_by_round_robin (after k w)).0
      ≡ get_elem?
          (registered_nodes w)
          ((start (length (registered_nodes w)) w.next_idx + k) % length (registered_nodes w))
schedule_by_round_robin_lem k w h =
    let here = ap (λ ns. length ns) (registered_nodes-after k w) in
    chosen (after k w) (subst (λ m. 0 < m) (sym here) h)
    ∙ ap (λ ns. get_elem? ns (start (length ns) (after k w).next_idx)) (registered_nodes-after k w)
    ∙ ap (get_elem? (registered_nodes w)) (start-after k w h)

-- The distance around a circle of n places.
reaches : (n s i : ℕ) → s < n → i < n → (k : ℕ) × (k < n) × ((s + k) % n ≡ i)
reaches n s i hs hi = elim (dec_le s i) [
  | yes ahead ↦
      (i - s, omega (arith, ahead), ap (λ m. m % n) (omega (arith, ahead)) ∙ mod-eq_of_lt hi)
  | no behind ↦ (
    i + n - s,
    omega (arith, behind),
    ap (λ m. m % n) (omega (arith, behind)) ∙ add-mod_right i n ∙ mod-eq_of_lt hi,
  )
]

-- The rotation is fair: from any state, among as many choices as there are registered workers,
-- each of the workers is chosen.
pub schedule_by_round_robin-visits :
    (w : World) (i : ℕ)
    → i < length (registered_nodes w)
    → (k : ℕ) × (k < length (registered_nodes w))
      × ((schedule_by_round_robin (after k w)).0 ≡ get_elem? (registered_nodes w) i)
schedule_by_round_robin-visits w i h =
    let n = length (registered_nodes w) in
    let found = reaches n (start n w.next_idx) i (start-lt n w.next_idx (omega (arith, h))) h in
    (
      found.0,
      found.1,
      schedule_by_round_robin_lem found.0 w (omega (arith, h))
          ∙ ap (get_elem? (registered_nodes w)) found.2,
    )
