-- ===== src/Core.antt =====
-- pkg/api/core: the resources of the cluster.
mod Meta
mod Pods
mod Workloads
mod Infra
pub use Meta.*
pub use Pods.*
pub use Workloads.*
pub use Infra.*
unfoldable pub use Meta.{kind_beq}
unfoldable pub use Pods.{phase_beq}
