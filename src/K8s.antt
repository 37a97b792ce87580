-- ===== src/K8s.antt =====
-- The Kubernetes API as the managers see it. It is a library: `Client` is the interface of
-- sigs.k8s.io/controller-runtime/pkg/client that the code calls, over an unknown state, and
-- `K8s.Lawful` what the proofs ask of it. The tests of internal/misc/k8s.go stand here too.
pub mod Kubevirt
pub mod Objects
pub mod Client
pub mod Lawful
pub mod Same
pub mod Selective
pub mod Memory
