-- ===== src/Platform.antt =====
-- What include/hook.h and src/ioctl_hook.c rest on and do not define: the list macros of
-- include/list.h (a copy of the Linux kernel's), the constants of the NVIDIA kernel headers and of
-- libc. They are parameters of the development.
pub mod Abi
pub mod ListApi
use nv_resource_controller.Hook.Types.{DeviceMem, RmMem}

pub record Platform : Type 1 where
  pub abi : Abi.Abi
  pub heap : ListApi.ListApi DeviceMem
  pub rm : ListApi.ListApi RmMem
