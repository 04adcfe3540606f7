-- ===== src/Worker/Containers.antt =====
-- What the start of a sandbox and of containers leaves of the worker's knowledge of the pod.
use kuberboat.Prelude.{
  ℕ, ◌*◌, ◌<◌, ltb, String, not, string_eq, if◌then◌else◌, length-set, get_or-set_self, length,
  List, [], ◌∷◌, ◌≡◌, ap, ◌∙◌, Option, none, some,
}
use kuberboat.Core.{Pod, PodStatus, Container, zero_pod}
use kuberboat.Exec.{
  bad_limit, invalid_ip, Result, ok, err, Exec, pure, raise, gets, modify, ◌>>=◌, ◌>>◌, try,
}
use kuberboat.Exec.Keeps.{
  Keeps, Leads-pure, Leads-raise, Leads-gets, Leads-if, Leads-modify, Keeps-bind, Keeps-then,
}
use kuberboat.PodManager.{RuntimeManager, pod_by_name, add_pod_sand_box, add_pod_container}
use kuberboat.Worker.{
  Worker, Env, Command, Report, ContainerConfig, image_pull, read_all, deref, set_status, docker,
  create,
}
use kuberboat.Worker.Running.{
  pause_image, pause_config, get_pod_specific_pause_name, make_sand_box, run_pod_sand_box,
  make_container, run_pod_container, run_pod_containers, limit_memory, limit_cpu, unless_unread,
  is_negative, take_ip, start_sand_box, start_container, container_config, get_pod_specific_name,
  find_memory, find_cpu,
}

-- The pod is at `a` under its name, and this was told.
pub record Has (a : ℕ) (p : Pod) (t : List Report) (w : Worker) : Type 0 where
  pub inside : a < length w.heap
  pub same : (deref a w).meta ≡ p.meta
  pub told : w.told ≡ t
  pub known : pod_by_name p.name w.pod_meta ≡ some a

module _ (env : Env) (a : ℕ) (p : Pod) (t : List Report) where
  docker-Has : (c : Command) → Keeps (Has a p t) (docker env c)
  unfolding docker
  docker-Has c = record {
    at = λ w h. record { inside = h.inside; same = h.same; told = h.told; known = h.known };
  }

  create-Has : (n : String) (c : ContainerConfig) → Keeps (Has a p t) (create env n c)
  unfolding create
  create-Has n c =
      Keeps-then (docker env _) (λ w. (ok (env.id (length w.docker)), w)) (docker-Has _)
        (record { at = λ w h. h })

  pub set_status-Has :
      (f : PodStatus → PodStatus) (w : Worker) → Has a p t w → Has a p t (set_status a f w)
  unfolding set_status
  set_status-Has f w h = record {
    inside =
        rw (length-set w.heap a (record (deref a w) { status = f (deref a w).status })) h.inside;
    same =
        ap (λ q. q.meta)
          (get_or-set_self zero_pod w.heap a (record (deref a w) { status = f (deref a w).status })
            h.inside)
        ∙ h.same;
    told = h.told;
    known = h.known;
  }

  limit_memory-Has : (o : Option ℕ) → Keeps (Has a p t) (limit_memory o)
  unfolding limit_memory
  limit_memory-Has none = Leads-pure _ (λ w h. h)
  limit_memory-Has (some n) =
      Leads-if (is_negative n) (raise (bad_limit n)) (pure n) (λ _. Leads-raise _ (λ w h. h))
        (λ _. Leads-pure _ (λ w h. h))

  limit_cpu-Has : (c : ℕ) (o : Option ℕ) → Keeps (Has a p t) (limit_cpu c o)
  unfolding limit_cpu
  limit_cpu-Has c none = Leads-pure _ (λ w h. h)
  limit_cpu-Has c (some n) =
      Leads-if (is_negative n) (raise (bad_limit n))
        (pure (1000000000 * (if ltb c n then c else n))) (λ _. Leads-raise _ (λ w h. h))
        (λ _. Leads-pure _ (λ w h. h))

  unless_unread-Has :
      (next : Exec Worker (Unit {0})) (r : Result (Unit {0}))
      → Keeps (Has a p t) next
      → Keeps (Has a p t) (unless_unread env next r)
  unfolding unless_unread
  unless_unread-Has next (ok u) k = k
  unless_unread-Has next (err e) k = Leads-pure _ (λ w h. h)

  runtime-Has :
      (f : RuntimeManager → RuntimeManager)
      → Keeps (Has a p t) (modify (λ w. record w { runtime = f w.runtime }))
  runtime-Has f = record {
    at = λ w h. record { inside = h.inside; same = h.same; told = h.told; known = h.known };
  }

  take_ip-Has : Keeps (Has a p t) (take_ip env a)
  unfolding take_ip
  take_ip-Has = Keeps-bind (gets (λ w. env.ip (length w.docker))) _ (Leads-gets _ (λ w h. h)) λ ip.
      Leads-if (not (env.is_ip ip)) (raise (invalid_ip ip))
        (modify (set_status a (λ s. record s { pod_ip = ip }))) (λ _. Leads-raise _ (λ w h. h))
        (λ _. Leads-modify _ (set_status-Has (λ s. record s { pod_ip = ip })))

  start_sand_box-Has : (name id : String) → Keeps (Has a p t) (start_sand_box env a name id)
  unfolding start_sand_box
  start_sand_box-Has name id =
      Keeps-then _ _ (runtime-Has (add_pod_sand_box a id))
        (Keeps-then _ _ (docker-Has _) (Keeps-then _ _ (docker-Has _) take_ip-Has))

  make_sand_box-Has : Keeps (Has a p t) (make_sand_box env a)
  unfolding make_sand_box
  make_sand_box-Has = record {
    at = λ w h.
        (Keeps-bind
            (create env (get_pod_specific_pause_name (deref a w))
              (pause_config w.dns_ip (deref a w)))
            (start_sand_box env a (get_pod_specific_pause_name (deref a w))) (create-Has _ _)
            (start_sand_box-Has (get_pod_specific_pause_name (deref a w)))).at
          w h;
  }

  -- The stream of an image is read, and then the rest follows, or not.
  read-Has :
      (image : String) (next : Exec Worker (Unit {0}))
      → Keeps (Has a p t) next
      → Keeps
          (Has a p t)
          (docker env (image_pull image) >> (try (docker env read_all) >>= unless_unread env next))
  read-Has image next k =
      Keeps-then (docker env (image_pull image))
        (try (docker env read_all) >>= unless_unread env next) (docker-Has _)
        (Keeps-bind (try (docker env read_all)) (unless_unread env next)
          (record { at = (docker-Has read_all).at }) (λ r. unless_unread-Has next r k))

  pub run_pod_sand_box-Has : Keeps (Has a p t) (run_pod_sand_box env a)
  unfolding run_pod_sand_box
  run_pod_sand_box-Has = read-Has pause_image (make_sand_box env a) make_sand_box-Has

  start_container-Has : (id : String) → Keeps (Has a p t) (start_container env a id)
  unfolding start_container
  start_container-Has id = Keeps-then _ _ (runtime-Has (add_pod_container a id)) (docker-Has _)

  make_container-Has : (c : Container) → Keeps (Has a p t) (make_container env a c)
  unfolding make_container
  make_container-Has c = record {
    at = λ w h.
        (Keeps-bind (limit_memory (find_memory c.resources)) _
            (limit_memory-Has (find_memory c.resources))
            λ memory.
              Keeps-bind (limit_cpu env.num_cpu (find_cpu c.resources)) _
                (limit_cpu-Has env.num_cpu (find_cpu c.resources))
                λ cpus.
                  Keeps-bind
                    (create env (get_pod_specific_name (deref a w) c.name)
                      (container_config env (deref a w) c memory cpus))
                    (start_container env a) (create-Has _ _) start_container-Has).at
          w h;
  }

  pub run_pod_containers-Has :
      (cs : List Container) → Keeps (Has a p t) (run_pod_containers env a cs)
  unfolding run_pod_containers run_pod_container
  run_pod_containers-Has [] = Leads-pure _ (λ w h. h)
  run_pod_containers-Has (c ∷ cs) =
      Keeps-then _ _ (read-Has c.image (make_container env a c) (make_container-Has c))
        (run_pod_containers-Has cs)
