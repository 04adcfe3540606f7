-- ===== src/Worker/Starting.antt =====
-- What becomes of a pod that the API server asks a worker to start.
use kuberboat.Prelude.{
  ℕ, true, false, ==_refl, string_eq, Option-cases, inl, inr, get_or, set, length-append,
  get_or-set_self, get_or-append_last, length, [], ◌∷◌, ◌++◌, ◌≡◌, ◌⊎◌, refl, ap, ◌∙◌, arith,
  lookup-insert, contains-lookup, none, some,
}
use kuberboat.Core.{Pod, PodStatus, PodPhase, zero_pod}
use kuberboat.Exec.{is_ok, pod_exists, Result, ok, err}
use kuberboat.Exec.Keeps.{continue_cases}
use kuberboat.PodManager.{
  MetaManager, RuntimeManager, pod_by_name, add_pod_sand_box, add_pod_container,
}
use kuberboat.PodManager
use kuberboat.Worker.{
  Worker, Env, update_pod_status, deref, alloc, set_status, tell, update_pod_status_of,
}
use kuberboat.Worker.Running.{
  run_pod_sand_box, run_pod_containers, after_sand_box, start_pod, add_pod,
}
use kuberboat.Worker.Containers.{Has, run_pod_containers-Has, run_pod_sand_box-Has}

-- The pod is known, and the API server has one report more, or none.
abbrev pub IsStarted : Pod → Worker → Result (Unit {0}) × Worker → Type 0
IsStarted p w r =
    (pod_by_name p.name r.1.pod_meta ≡ some (length w.heap))
    × (((is_ok r.0 ≡ true)
          × ((s : PodStatus) × (s.phase ≡ PodPhase.ready)
              × (r.1.told ≡ w.told ++ update_pod_status p.name s ∷ [])))
        ⊎ ((is_ok r.0 ≡ false)
            × ((r.1.told ≡ w.told)
                ⊎ ((s : PodStatus) × (s.phase ≡ PodPhase.failed)
                    × (r.1.told ≡ w.told ++ update_pod_status p.name s ∷ [])))))

module _ (env : Env) (p : Pod) (w : Worker) where
  -- The pod in its last phase, and the report of it.
  ended : PodPhase → Worker → Worker
  unfolding update_pod_status_of tell
  ended phase v =
      (update_pod_status_of (length w.heap)
        (set_status (length w.heap) (λ s. record s { phase = phase }) v)).1

  ended_lem :
      (phase : PodPhase) (v : Worker)
      → Has (length w.heap) p w.told v
      → (pod_by_name p.name (ended phase v).pod_meta ≡ some (length w.heap))
        × ((s : PodStatus) × (s.phase ≡ phase)
            × ((ended phase v).told ≡ w.told ++ update_pod_status p.name s ∷ []))
  unfolding ended set_status
  ended_lem phase v h =
      let a : ℕ = length w.heap in
      let q : Pod = record (deref a v) { status = record (deref a v).status { phase = phase } } in
      let stored : get_or (set v.heap a q) a zero_pod ≡ q =
        get_or-set_self zero_pod v.heap a q h.inside in
      (
        h.known,
        (
          q.status,
          refl,
          ap (λ x. v.told ++ update_pod_status x.name x.status ∷ []) stored
              ∙ ap (λ l. l ++ update_pod_status q.name q.status ∷ []) h.told
              ∙ ap (λ m. w.told ++ update_pod_status m.name q.status ∷ []) h.same,
        ),
      )

  after_sand_box-IsStarted :
      (r : Result (Unit {0})) (v : Worker)
      → Has (length w.heap) p w.told v
      → IsStarted p w (after_sand_box env p (length w.heap) r v)
  unfolding after_sand_box ended set_status update_pod_status_of
  after_sand_box-IsStarted (err e) v h =
      let k = ended_lem PodPhase.failed v h in (k.0, inr (refl, inr k.1))
  after_sand_box-IsStarted (ok u) v h =
      continue_cases (IsStarted p w) (Has (length w.heap) p w.told)
        (λ u x. (ok tt, ended PodPhase.ready x))
        (run_pod_containers env (length w.heap) p.spec.containers v)
        ((run_pod_containers-Has env (length w.heap) p w.told p.spec.containers).at v h)
        (λ e x k. (k.known, inr (refl, inl k.told)))
        (λ u x k. let l = ended_lem PodPhase.ready x k in (l.0, inl (refl, l.1)))

  -- The pod is on the heap, under its name.
  registered : Worker
  unfolding alloc PodManager.add_pod
  registered = record w {
    heap = w.heap ++ p ∷ [];
    pod_meta = PodManager.add_pod p.name (length w.heap) w.pod_meta;
  }

  registered-Has : pod_by_name p.name w.pod_meta ≡ none → Has (length w.heap) p w.told registered
  unfolding registered pod_by_name
  registered-Has n = record {
    inside = omega (arith, length-append w.heap (p ∷ []));
    same = ap (λ q. q.meta) (get_or-append_last zero_pod w.heap p);
    told = refl;
    known = ground (
      arith,
      contains-lookup p.name w.pod_meta.pod_by_name,
      lookup-insert p.name p.name (length w.heap) w.pod_meta.pod_by_name,
      ==_refl p.name,
    );
  }

  -- A pod whose name the worker has is refused, and nothing changes. Any other is known from then
  -- on, whatever Docker answers: a success is told as ready, a failure as failed or not at all.
  pub add_pod-IsStarted :
      ((a : ℕ) × (pod_by_name p.name w.pod_meta ≡ some a)
        × (add_pod env p w ≡ (err (pod_exists p.name), w)))
      ⊎ IsStarted p w (add_pod env p w)
  unfolding add_pod start_pod registered alloc
  add_pod-IsStarted = elim (Option-cases (pod_by_name p.name w.pod_meta)) [
    | inr (a, found) ↦ inl (a, found, rw found refl)
    | inl unknown ↦ inr (
        rw unknown (
          after_sand_box-IsStarted (run_pod_sand_box env (length w.heap) registered).0
            (run_pod_sand_box env (length w.heap) registered).1
            ((run_pod_sand_box-Has env (length w.heap) p w.told).at registered
              (registered-Has unknown))))
  ]
