-- ===== src/Sysinfo.antt =====
-- The package sysinfo: what the program reads from /proc and from the cgroup file system.
pub mod Types
pub mod Stat
pub mod Status
pub mod CGroupFile
pub mod Fds
pub mod Listening
pub mod NetDev
pub mod Proc
pub mod Mounts
pub mod CGroup
pub mod Sampler
pub mod Host
pub mod Tree
pub mod Collector
