-- ===== src/Compute.antt =====
-- internal/kubevim/compute: virtual machines, as KubeVirt objects.
pub mod Types
pub mod Ipam
pub mod Volumes
pub mod Machines
pub mod Launcher
pub mod Manager
pub mod Allocate
