-- ===== src/Runtime.antt =====
-- The package runtime: what the backends share.
pub mod CGroupPath
pub mod Conmon
pub mod Convert
pub mod Resources
pub mod Spec
pub mod Cri
pub mod Docker
pub mod Crio
