-- ===== src/Init/State.antt =====
-- What `_init_device_prop` of src/ioctl_hook.c works on.
use nv_resource_controller.Prelude.{ℕ, Bool, false, Option, List}
use nv_resource_controller.Prelude.Int.{ℤ, pos}
use nv_resource_controller.Prelude.Text.{Text}
use nv_resource_controller.Platform.{Platform}
use nv_resource_controller.Hook.Types.{TokenAttr}
use nv_resource_controller.Hook.Memory.{Shm, Memory}
use nv_resource_controller.Util.ShmAddr.{ShmCalls}
use nv_resource_controller.Env.{EnvCalls}
use nv_resource_controller.Cuda.Launch.{Wait}

-- `lstat` of `/proc/<pid>/exe`: 0, -1 with `ENOENT`, or -1 with another error.
pub data Lstat : Type 0 where
  exists : Lstat
  no_entry : Lstat
  other_error : Lstat

-- The system at the call. `attr_key` is the object that a path names, `monitor`
-- what the monitor makes of the attributes while the process waits for `ready`.
pub record InitCalls : Type 0 where
  pub env : EnvCalls
  pub fb_calls : ShmCalls
  pub getpid : ℕ
  pub lstat : ℕ → Lstat
  pub cgroup_lines : Option (List (List ℕ))
  pub attr_key : Text → ℕ
  pub attr_calls : ShmCalls
  pub ready_fails : Bool
  pub waits : List Wait
  pub monitor : TokenAttr → TokenAttr
  pub tokens_fails : Bool

-- The memory of the process, and what the limit on launches uses: the attributes in shared memory,
-- and of `gpu_device` the pointer `attr` (the number of its object), the semaphore `tokens`, the
-- thread.
pub record InitState (os : Platform) : Type 0 where
  pub mem : Memory os
  pub attrs : Shm TokenAttr
  pub attr : Option ℕ
  pub tokens : Option ℤ
  pub thread : Bool

-- Attributes that are all zeros
abbrev pub zeroed_attr : TokenAttr
zeroed_attr = record {
  changed = false;
  inited = false;
  tv_nsec = 0;
  add_per_cycle = pos 0;
  core_limit = pos 0;
  mod_times = 0;
  avg_launchs_0 = 0;
  avg_launchs_1 = 0;
  launch_idx = 0;
  launch_times = 0;
  ready = 0;
}
