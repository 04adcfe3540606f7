-- ===== src/Core/Pods.antt =====
-- Pods: their specification, which users write, and their status (pkg/api/core/types.go).
use kuberboat.Prelude.{ℕ, String, Bool, Eq, nat_beq, List, [], ◌≡◌, ◌↔◌, true, arith}
use kuberboat.Core.Meta.{Kind, ResourceName, ObjectMeta}

pub data PodPhase : Type 0 where
  unset pending ready succeeded failed : PodPhase

phase_code : PodPhase → ℕ
phase_code PodPhase.unset = 0
phase_code PodPhase.pending = 1
phase_code PodPhase.ready = 2
phase_code PodPhase.succeeded = 3
phase_code PodPhase.failed = 4

unfoldable pub phase_beq : PodPhase → PodPhase → Bool
unfolding phase_code
phase_beq a b = nat_beq (phase_code a) (phase_code b)

pub phase_beq_iff : (a b : PodPhase) → (phase_beq a b ≡ true) ↔ (a ≡ b)
unfolding phase_beq
phase_beq_iff a b = ground arith

instance abbrev pub phase_eq : Eq PodPhase
phase_eq = record { same = phase_beq; same_iff = phase_beq_iff }

pub record VolumeMount : Type 0 where
  pub name : String
  pub mount_path : String

pub record Container : Type 0 where
  pub name : String
  pub image : String
  pub ports : List ℕ
  pub resources : List (ResourceName × ℕ)
  pub commands : List String
  pub volume_mounts : List VolumeMount

pub record PodSpec : Type 0 where
  pub containers : List Container
  pub volumes : List String
  pub affinity : String

pub record PodStatus : Type 0 where
  pub phase : PodPhase
  pub host_ip : String
  pub pod_ip : String
  pub running_containers : ℕ

-- The embedded `ObjectMeta` is opened, so `p.name` is `p.meta.name` as in Go.
pub record Pod : Type 0 where
  pub kind : Kind
  pub meta : ObjectMeta
  pub open meta use *
  pub spec : PodSpec
  pub status : PodStatus

-- `&core.Pod{Kind: core.PodType}`: every other field has Go's zero value.
abbrev pub zero_meta : ObjectMeta
zero_meta = record { name = ""; uuid = ""; creation_timestamp = 0; labels = [] }

abbrev pub zero_status : PodStatus
zero_status = record { phase = PodPhase.unset; host_ip = ""; pod_ip = ""; running_containers = 0 }

abbrev pub zero_spec : PodSpec
zero_spec = record { containers = []; volumes = []; affinity = "" }

abbrev pub zero_pod : Pod
zero_pod = record { kind = Kind.unset; meta = zero_meta; spec = zero_spec; status = zero_status }

-- `&core.Pod{Kind: core.PodType}`
abbrev pub blank_pod : Pod
blank_pod = record { kind = Kind.pod; meta = zero_meta; spec = zero_spec; status = zero_status }
