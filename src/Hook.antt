-- ===== src/Hook.antt =====
-- The data of include/hook.h and the memory that src/ioctl_hook.c works on.
pub mod Logger
pub mod Memory
pub mod Paths
pub mod Types
