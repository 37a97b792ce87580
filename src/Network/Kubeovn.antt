-- ===== src/Network/Kubeovn.antt =====
-- internal/kubevim/network/kubeovn: the manager of overlay and underlay networks.
pub mod Names
pub mod Convert
pub mod Subnets
pub mod Networks
pub mod Create
pub mod Mgmt
pub mod Backend
