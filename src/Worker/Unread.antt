-- ===== src/Worker/Unread.antt =====
-- A worker whose image pulls are cut off while they are read.
use kuberboat.Prelude.{
  ℕ, ◌+◌, ◌*◌, String, true, false, string_eq, length, length-append, List, [], ◌∷◌, ◌++◌, ◌≡◌,
  refl, ap, ◌∙◌, inl, inr, arith, none,
}
use kuberboat.Core.{Pod, PodPhase, PodStatus, Container}
use kuberboat.Exec.{is_ok, Result, ok, err, Exec, continue, ◌>>=◌, ◌>>◌, try}
use kuberboat.PodManager.{MetaManager, RuntimeManager, pod_by_name}
use kuberboat.PodManager
use kuberboat.Worker.{
  Worker, Env, image_pull, read_all, update_pod_status, alloc, set_status, docker, tell,
  update_pod_status_of,
}
use kuberboat.Worker.Starting.{add_pod-IsStarted}
use kuberboat.Worker.Running.{
  pause_image, unless_unread, make_sand_box, run_pod_sand_box, make_container, run_pod_container,
  run_pod_containers, after_sand_box, start_pod, add_pod,
}

module _ (env : Env) (start : ℕ) (pulled : (k : ℕ) → env.succeeds (start + 2 * k) ≡ true)
    (cut_off : (k : ℕ) → env.succeeds (start + 2 * k + 1) ≡ false) where
  -- The worker after the commands for one image.
  abbrev after_image : String → Worker → Worker
  after_image image v = record v { docker = v.docker ++ image_pull image ∷ [] ++ read_all ∷ [] }

  skip_image :
      (image : String) (next : Exec Worker (Unit {0})) (v : Worker) (k : ℕ)
      → length v.docker ≡ start + 2 * k
      → (docker env (image_pull image) >> (try (docker env read_all) >>= unless_unread env next)) v
        ≡ (ok tt, after_image image v)
  unfolding docker unless_unread
  skip_image image next v k e = rw (e, pulled k, one_more, cut_off k) refl
    where
      one_more : length (v.docker ++ image_pull image ∷ []) ≡ start + 2 * k + 1
      one_more = length-append v.docker (image_pull image ∷ []) ∙ ap (λ x. x + 1) e

  longer :
      (image : String) (v : Worker) (k : ℕ)
      → length v.docker ≡ start + 2 * k
      → length (after_image image v).docker ≡ start + 2 * (k + 1)
  longer image v k e = omega (
    arith,
    length-append v.docker (image_pull image ∷ []),
    length-append (v.docker ++ image_pull image ∷ []) (read_all ∷ []),
    e,
  )

  -- Every container is passed over.
  skip_containers :
      (a : ℕ) (cs : List Container) (v : Worker) (k : ℕ)
      → length v.docker ≡ start + 2 * k
      → (is_ok (run_pod_containers env a cs v).0 ≡ true)
        × ((run_pod_containers env a cs v).1.runtime ≡ v.runtime)
  unfolding run_pod_containers run_pod_container
  skip_containers a [] v k e = (refl, refl)
  skip_containers a (c ∷ cs) v k e =
      rw (skip_image c.image (make_container env a c) v k e)
        (skip_containers a cs (after_image c.image v) (k + 1) (longer c.image v k e))

  -- The report that the pod is ready.
  tell_ready : (a : ℕ) (r : Result (Unit {0}) × Worker) → Result (Unit {0}) × Worker
  unfolding set_status update_pod_status_of tell
  tell_ready a r =
      continue
        (λ u x. update_pod_status_of a (set_status a (λ s. record s { phase = PodPhase.ready }) x))
        r

  tell_ready_lem :
      (a : ℕ) (m : RuntimeManager) (r : Result (Unit {0}) × Worker)
      → is_ok r.0 ≡ true
      → r.1.runtime ≡ m
      → (is_ok (tell_ready a r).0 ≡ true) × ((tell_ready a r).1.runtime ≡ m)
  unfolding tell_ready
  tell_ready_lem a m (ok u, x) h e = (refl, e)
  tell_ready_lem a m (err y, x) h e = cc

  ready_told :
      (p : Pod) (w : Worker)
      → pod_by_name p.name w.pod_meta ≡ none
      → is_ok (add_pod env p w).0 ≡ true
      → (s : PodStatus) × (s.phase ≡ PodPhase.ready)
        × ((add_pod env p w).1.told ≡ w.told ++ update_pod_status p.name s ∷ [])
  ready_told p w unknown h = elim (add_pod-IsStarted env p w) [
    | inl (a, found, e) ↦ cc
    | inr (k, inl (o, told)) ↦ told
    | inr (k, inr (bad, o)) ↦ cc
  ]

  start_unread :
      (p : Pod) (w : Worker)
      → length w.docker ≡ start
      → pod_by_name p.name w.pod_meta ≡ none
      → (is_ok (add_pod env p w).0 ≡ true) × ((add_pod env p w).1.runtime ≡ w.runtime)
  unfolding add_pod start_pod alloc run_pod_sand_box after_sand_box tell_ready
  start_unread p w e unknown =
      let a : ℕ = length w.heap in
      let v : Worker = record w {
        heap = w.heap ++ p ∷ [];
        pod_meta = PodManager.add_pod p.name a w.pod_meta;
      } in
      let k : length v.docker ≡ start + 2 * 0 = omega (arith, e) in
      let rest : (is_ok (run_pod_containers env a p.spec.containers (after_image pause_image v)).0
            ≡ true)
          × ((run_pod_containers env a p.spec.containers (after_image pause_image v)).1.runtime
              ≡ w.runtime) =
        skip_containers a p.spec.containers (after_image pause_image v) 1
          (longer pause_image v 0 k) in
      rw (unknown, skip_image pause_image (make_sand_box env a) v 0 k)
        (tell_ready_lem a w.runtime
          (run_pod_containers env a p.spec.containers (after_image pause_image v)) rest.0 rest.1)

  -- If Docker accepts every pull of an image and the stream of its answer then breaks off, a
  -- request to start a pod succeeds and tells the API server that the pod is ready, while the
  -- worker has recorded neither a sandbox nor a container for it.
  pub add_pod-unread :
      (p : Pod) (w : Worker)
      → length w.docker ≡ start
      → pod_by_name p.name w.pod_meta ≡ none
      → (is_ok (add_pod env p w).0 ≡ true)
        × ((add_pod env p w).1.runtime ≡ w.runtime)
        × ((s : PodStatus) × (s.phase ≡ PodPhase.ready)
            × ((add_pod env p w).1.told ≡ w.told ++ update_pod_status p.name s ∷ []))
  add_pod-unread p w e unknown =
      let k : (is_ok (add_pod env p w).0 ≡ true) × ((add_pod env p w).1.runtime ≡ w.runtime) =
        start_unread p w e unknown in
      (k.0, k.1, ready_told p w unknown k.0)
