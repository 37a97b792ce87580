-- ===== src/Image.antt =====
-- internal/kubevim/image: the images of machines.
pub mod Types
pub mod Cdi
