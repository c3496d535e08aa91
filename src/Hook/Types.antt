-- ===== src/Hook/Types.antt =====
-- The structures of include/hook.h that the memory hook uses, less their links.
use nv_resource_controller.Prelude.{ℕ, Bool}
use nv_resource_controller.Prelude.Int.{ℤ}

-- `device_mem_t`: one allocation that is charged to the process.
pub record DeviceMem : Type 0 where
  pub object : ℕ
  pub size : ℕ

-- `rm_mem_t`: an object that belongs to a device.
pub record RmMem : Type 0 where
  pub object : ℕ
  pub device_id : ℕ

-- `fb_info_t`: the account of one device, in shared memory.
pub record FbInfo : Type 0 where
  pub pid : ℕ
  pub total_mem : ℕ
  pub free_mem : ℕ

-- `NVIDIA_DEVICE_MAJOR`
abbrev pub nvidia_device_major : ℕ
nvidia_device_major = 195

-- `NVIDIA_CTL_MINOR`
abbrev pub nvidia_ctl_minor : ℕ
nvidia_ctl_minor = 255

-- `token_attr_t` and the `token_param_t` in it, in shared memory. `launch_idx` and `launch_times`
-- are 32-bit patterns; of `wait_time` only `tv_nsec` is ever set or read; `ready` is the
-- semaphore's value.
pub record TokenAttr : Type 0 where
  pub changed : Bool
  pub inited : Bool
  pub tv_nsec : ℕ
  pub add_per_cycle : ℤ
  pub core_limit : ℤ
  pub mod_times : ℕ
  pub avg_launchs_0 : ℕ
  pub avg_launchs_1 : ℕ
  pub launch_idx : ℕ
  pub launch_times : ℕ
  pub ready : ℕ
