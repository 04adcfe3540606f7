-- ===== src/Events.antt =====
-- pkg/apiserver/event.go and pkg/apiserver/dispatcher.go, and the requests of the workers that make
-- events (cmd/apiserver/app/server.go).
pub mod Reports
use kuberboat.Prelude.{
  ℕ, String, Bool, true, false, not, ◌&&◌, ◌==◌, Eq, nat_beq, ◌≡◌, ◌↔◌, arith, string_eq,
  if◌then◌else◌, GoMap, lookup, insert, delete, List, [], ◌∷◌, ◌++◌, Option, none, some,
}
use kuberboat.Core.{Pod, PodPhase, phase_eq, PodStatus}
use kuberboat.Exec.{Result, ok, err, Exec, pure, gets, modify, attempt, ◌>>=◌, ◌>>◌}
use kuberboat.World.{World, Env, Api, PodLegacy}
use kuberboat.Legacy.{get_pod_legacy_by_name, delete_pod_legacy_by_name}
use kuberboat.PodControl.{update_pod_status}
use kuberboat.JobControl
use kuberboat.ServiceControl
use kuberboat.DeploymentControl.Handlers

pub data EventType : Type 0 where
  pod_deletion pod_ready pod_fail pod_succeed : EventType

event_code : EventType → ℕ
event_code pod_deletion = 0
event_code pod_ready = 1
event_code pod_fail = 2
event_code pod_succeed = 3

unfoldable pub event_beq : EventType → EventType → Bool
unfolding event_code
event_beq a b = nat_beq (event_code a) (event_code b)

pub event_beq_iff : (a b : EventType) → (event_beq a b ≡ true) ↔ (a ≡ b)
unfolding event_beq
event_beq_iff a b = ground arith

instance abbrev pub event_eq : Eq EventType
event_eq = record { same = event_beq; same_iff = event_beq_iff }

-- The pod of a deletion is the worker's last view of it; the legacy may be nil.
pub data Event : Type 0 where
  pod_deletion_event : Pod → Option PodLegacy → Event
  pod_ready_event pod_fail_event pod_succeed_event : String → Event

unfoldable pub type_of : Event → EventType
type_of (pod_deletion_event p legacy) = pod_deletion
type_of (pod_ready_event n) = pod_ready
type_of (pod_fail_event n) = pod_fail
type_of (pod_succeed_event n) = pod_succeed

-- The controllers that subscribe to events.
pub data Subscriber : Type 0 where
  jobs services deployments : Subscriber

unfoldable pub subscribe_to_event :
    Subscriber → EventType → GoMap EventType (List Subscriber) → GoMap EventType (List Subscriber)
unfolding lookup insert
subscribe_to_event s t m = elim (lookup t m) [
  | some ss ↦ insert t (ss ++ s ∷ []) m
  | none ↦ insert t (s ∷ []) m
]

-- The subscriptions in the order in which the server makes its controllers.
unfoldable pub subscribers : GoMap EventType (List Subscriber)
unfolding subscribe_to_event
subscribers = subscribe_to_event deployments pod_fail (
    subscribe_to_event deployments pod_ready (
      subscribe_to_event deployments pod_deletion (
        subscribe_to_event services pod_deletion (
          subscribe_to_event services pod_ready
            (subscribe_to_event jobs pod_succeed (subscribe_to_event jobs pod_fail []))))))

-- The name in a legacy; that of a nil one is empty.
unfoldable pub legacy_name : Option PodLegacy → String
legacy_name none = ""
legacy_name (some l) = l.deployment_name

module _ (env : Env) where
  -- `HandleEvent` of the three controllers, which log an error.
  unfoldable pub handle_event : Subscriber → Event → Api (Unit {0})
  unfolding JobControl.handle_pod_fail ServiceControl.handle_pod_ready
      ServiceControl.handle_pod_deletion Handlers.handle_pod_deletion Handlers.handle_pod_ready
      Handlers.handle_pod_fail legacy_name
  handle_event jobs (pod_fail_event n) = attempt (JobControl.handle_pod_fail env n)
  handle_event services (pod_ready_event n) = attempt (ServiceControl.handle_pod_ready env n)
  handle_event services (pod_deletion_event p l) =
      attempt (ServiceControl.handle_pod_deletion env p)
  handle_event deployments (pod_deletion_event p l) =
      attempt (Handlers.handle_pod_deletion env p (legacy_name l))
  handle_event deployments (pod_ready_event n) = attempt (Handlers.handle_pod_ready env n)
  handle_event deployments (pod_fail_event n) = attempt (Handlers.handle_pod_fail env n)
  handle_event _ _ = pure tt

  unfoldable pub notify : Event → List Subscriber → Api (Unit {0})
  unfolding handle_event
  notify e [] = pure tt
  notify e (s ∷ ss) = do handle_event s e; notify e ss

  unfoldable pub dispatch : Event → Api (Unit {0})
  unfolding lookup type_of subscribers notify
  dispatch e w = elim (lookup (type_of e) subscribers) [
    | none ↦ (ok tt, w)
    | some ss ↦ notify e ss w
  ]

  -- The event of a phase that the pod enters.
  unfoldable pub on_entry : PodPhase → Event → PodStatus → PodStatus → Api (Unit {0})
  unfolding dispatch
  on_entry ph e before after =
      if not (before.phase == ph) && after.phase == ph then dispatch e else pure tt

  -- The request `UpdatePodStatus`.
  unfoldable pub report : String → PodStatus → Api (Unit {0})
  unfolding update_pod_status on_entry
  report n s = do
    before ← update_pod_status env n s
    on_entry PodPhase.ready (pod_ready_event n) before s
    on_entry PodPhase.failed (pod_fail_event n) before s
    on_entry PodPhase.succeeded (pod_succeed_event n) before s

  -- The request `NotifyPodDeletion`.
  unfoldable pub notify_pod_deletion : Pod → Api (Unit {0})
  unfolding get_pod_legacy_by_name dispatch delete_pod_legacy_by_name
  notify_pod_deletion p = do
    legacy ← gets (get_pod_legacy_by_name p.name)
    dispatch (pod_deletion_event p legacy)
    modify (delete_pod_legacy_by_name p.name)
