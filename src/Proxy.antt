-- ===== src/Proxy.antt =====
-- The service proxy of a worker: pkg/kubelet/kube_proxy.go and pkg/kubelet/proxy.
pub mod Names
pub mod Meta
pub mod Iptables
pub mod Client
pub mod Setup
pub mod Services
pub mod Membership
pub mod Routing
pub mod Creation
pub mod Deletion
