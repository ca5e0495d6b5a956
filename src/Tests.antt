-- ===== src/Tests.antt =====
-- Tests on concrete inputs.
mod Words
mod Stat
mod Proc
mod Mounts
mod CGroup
mod Sampler
mod Runtime
mod Commands
mod Convert
mod Processes
mod CriMounts
mod Crio
mod Docker
mod Merged
mod Refresh
mod Views
