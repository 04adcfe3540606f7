-- ===== src/ComponentManager.antt =====
-- pkg/apiserver/component.go: the API server's cache of the cluster.
mod State
mod Pods
mod Deployments
mod Services
pub mod Links
pub mod Integrity
pub mod Growth
pub mod Selection
unfoldable pub use State.{deref, new_component_manager, fresh, alloc, set_status}
unfoldable pub use Pods.*
unfoldable pub use Deployments.*
unfoldable pub use Services.*
pub use State.*
