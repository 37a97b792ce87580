-- ===== src/Network.antt =====
-- internal/kubevim/network: the managers of virtual networks and subnets.
pub mod Types
pub mod Manager
pub mod Kubeovn
pub mod Sriov
pub mod Composite
