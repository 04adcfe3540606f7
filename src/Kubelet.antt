-- ===== src/Kubelet.antt =====
-- pkg/kubelet/kubelet.go, `monitorPods`: what the worker makes of the state of a pod's containers.
--
-- Docker is asked for each container in turn; what it answers is an input here.
pub mod Phases
use kuberboat.Prelude.{
  ℕ, zero, suc, ◌+◌, Bool, true, false, not, ◌&&◌, ◌||◌, ◌==◌, nat_eq, if◌then◌else◌, length, List,
  [], ◌∷◌, Option, none, some,
}
use kuberboat.Core.{Pod, PodPhase, phase_eq, PodStatus}

-- The answer for one container: `exited` has the exit code of its status text, and `none` stands for
-- a text without one, on which the slice panics.
pub data Observation : Type 0 where
  query_failed missing dead running : Observation
  exited : Option ℕ → Observation

pub record Scan : Type 0 where
  pub is_finished : Bool
  pub is_failed : Bool
  pub num_running : ℕ

unfoldable pub start : Scan
start = record { is_finished = true; is_failed = false; num_running = 0 }

-- `none` is a panic.
unfoldable pub look : Observation → Scan → Option Scan
look query_failed s = some s
look missing s = none
look dead s = some (record s { is_failed = true })
look running s = some (record s { num_running = s.num_running + 1; is_finished = false })
look (exited none) s = none
look (exited (some code)) s = some (if code == 0 then s else record s { is_failed = true })

unfoldable pub scan : List Observation → Scan → Option Scan
unfolding look
scan [] s = some s
scan (o ∷ os) s = elim (look o s) [ none ↦ none | some t ↦ scan os t ]

unfoldable pub inspect : List Observation → Pod → Option Scan
unfolding scan start
inspect os p =
    if not (length os == length p.spec.containers) && p.status.phase == PodPhase.ready
    then some (record start { is_failed = true })
    else scan os start

-- The pod afterwards, and whether the API server is told.
unfoldable pub conclude : Scan → Pod → Pod × Bool
conclude s p =
    if s.is_finished
    then (
      record p {
        status = record p.status {
          phase = if s.is_failed || s.num_running == 0 then PodPhase.failed else PodPhase.succeeded;
          running_containers = s.num_running;
        };
      },
      true,
    )
    else if p.status.running_containers == s.num_running
    then (p, false)
    else (record p { status = record p.status { running_containers = s.num_running } }, true)

-- One round of the loop. The runtime manager may not know the containers of the pod.
unfoldable pub monitor_pod : Option (List Observation) → Pod → Option (Pod × Bool)
unfolding inspect conclude
monitor_pod known p =
    if p.status.phase == PodPhase.succeeded || p.status.phase == PodPhase.failed
    then some (p, false)
    else elim known [
      | none ↦ some (p, false)
      | some os ↦ elim (inspect os p) [ none ↦ none | some s ↦ some (conclude s p) ]
    ]
