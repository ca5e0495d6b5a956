-- ===== src/Runtime/Docker.antt =====
-- pkg/runtime/docker.
pub mod Mounts
pub mod Overlay
