-- ===== src/Core/Infra.antt =====
-- Nodes and DNS configurations (pkg/api/core/types.go).
use kuberboat.Prelude.{ℕ, String, Bool, List}
use kuberboat.Core.Meta.{Kind, ObjectMeta}

pub data NodePhase : Type 0 where
  unset pending running terminated : NodePhase

pub data NodeCondition : Type 0 where
  unset ready unavailable : NodeCondition

pub record NodeStatus : Type 0 where
  pub phase : NodePhase
  pub condition : NodeCondition
  pub address : String
  pub port : ℕ

pub record Node : Type 0 where
  pub kind : Kind
  pub meta : ObjectMeta
  pub open meta use *
  pub status : NodeStatus

pub record PathMapping : Type 0 where
  pub path : String
  pub service_name : String
  pub service_port : ℕ

pub record DnsSpec : Type 0 where
  pub host : String
  pub paths : List PathMapping

pub record DnsStatus : Type 0 where
  pub applied : Bool

pub record Dns : Type 0 where
  pub kind : Kind
  pub meta : ObjectMeta
  pub open meta use *
  pub spec : DnsSpec
  pub status : DnsStatus
