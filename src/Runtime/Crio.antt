-- ===== src/Runtime/Crio.antt =====
-- pkg/runtime/crio: what introspection.go makes of the big data of an image.
pub mod Linking
