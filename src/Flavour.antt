-- ===== src/Flavour.antt =====
-- internal/kubevim/flavour: the flavours of machines, kept as KubeVirt instance types and
-- preferences.
pub mod Types
pub mod Convert
pub mod Manager
