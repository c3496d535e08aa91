-- ===== src/Ioctl.antt =====
-- src/ioctl_hook.c
pub mod Account
pub mod Align
pub mod Alloc
pub mod Control
pub mod Free
pub mod Params
pub mod Ledger
pub mod Post
pub mod Pre
