-- ===== src/Util.antt =====
-- src/util.c
pub mod Cgroup
pub mod DeviceNumber
pub mod Iec
pub mod ShmAddr
pub mod Wait
