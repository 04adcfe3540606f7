-- ===== src/Core/Workloads.antt =====
-- Deployments, services, jobs and autoscalers (pkg/api/core/types.go). `uint16`, `uint32` and
-- `uint64` fields are numbers; the code's arithmetic on them wraps where it is written.
use kuberboat.Prelude.{ℕ, String, List}
use kuberboat.Core.Meta.{Kind, ResourceName, ObjectMeta, Labels}
use kuberboat.Core.Pods.{PodSpec}

pub record ServicePort : Type 0 where
  pub port : ℕ
  pub target_port : ℕ

pub record ServiceSpec : Type 0 where
  pub ports : List ServicePort
  pub selector : Labels
  pub cluster_ip : String

pub record Service : Type 0 where
  pub kind : Kind
  pub meta : ObjectMeta
  pub open meta use *
  pub spec : ServiceSpec

pub record RollingUpdateSpec : Type 0 where
  pub max_surge : ℕ
  pub max_unavailable : ℕ

pub record PodTemplateSpec : Type 0 where
  pub meta : ObjectMeta
  pub open meta use *
  pub spec : PodSpec

pub record DeploymentSpec : Type 0 where
  pub replicas : ℕ
  pub rolling_update : RollingUpdateSpec
  pub template : PodTemplateSpec

pub record DeploymentStatus : Type 0 where
  pub replicas : ℕ
  pub updated_replicas : ℕ
  pub ready_replicas : ℕ

pub record Deployment : Type 0 where
  pub kind : Kind
  pub meta : ObjectMeta
  pub open meta use *
  pub spec : DeploymentSpec
  pub status : DeploymentStatus

pub record Job : Type 0 where
  pub kind : Kind
  pub meta : ObjectMeta
  pub open meta use *
  pub cuda_path : String
  pub script_path : String
  pub cuda_data : List ℕ
  pub script_data : List ℕ

pub record ScaleTarget : Type 0 where
  pub kind : Kind
  pub name : String

pub record Metric : Type 0 where
  pub resource : ResourceName
  pub target_utilization : ℕ

pub record AutoscalerSpec : Type 0 where
  pub scale_target_ref : ScaleTarget
  pub min_replicas : ℕ
  pub max_replicas : ℕ
  pub scale_interval : ℕ
  pub metrics : List Metric

pub record HorizontalPodAutoscaler : Type 0 where
  pub kind : Kind
  pub meta : ObjectMeta
  pub open meta use *
  pub spec : AutoscalerSpec
