-- ===== src/Init.antt =====
-- `_init_device_prop` of src/ioctl_hook.c.
pub mod Account
pub mod Ready
pub mod Second
pub mod Setup
pub mod State
pub mod Tokens
pub mod Watched
use nv_resource_controller.Prelude.{
  ℕ, ◌-◌, Bool, true, false, not, ◌&&◌, Option, none, some, List, [], ◌∷◌, ◌==◌, if◌then◌else◌,
}
use nv_resource_controller.Prelude.Int.{ℤ, pos, negsuc, is_neg, is_nonzero}
use nv_resource_controller.Prelude.Run.{
  Run, Cmd, ok, fault, blocked, exited, pure, in_state, ◌>>=◌, ◌>>◌,
}
use nv_resource_controller.Prelude.Text.{Text}
use nv_resource_controller.Platform.{Platform}
use nv_resource_controller.Hook.Types.{FbInfo, TokenAttr}
use nv_resource_controller.Hook.Memory.{Object, missing, empty, holds, Shm, update, Memory}
use nv_resource_controller.Util.ShmAddr.{ShmCalls, Addr, null, map_failed, mapped, create_shm_addr}
use nv_resource_controller.Util.Iec.{Double}
use nv_resource_controller.Util.Cgroup.{get_cgroup_id}
use nv_resource_controller.Env.{EnvCalls, Limits, get_mem_limit, get_core_limit}
use nv_resource_controller.Ioctl.Control.{zeroed_fb}
use nv_resource_controller.Cuda.Launch.{Wait, interrupted, failed}
use nv_resource_controller.Init.State.{
  Lstat, exists, no_entry, other_error, InitCalls, InitState, zeroed_attr,
}
use nv_resource_controller.Init.Account.{read_mem_limit, init_memory}
use nv_resource_controller.Init.Tokens.{
  read_core_limit, set_core_limited, get_core_limited, init_tokens,
}

module _ {os : Platform} where
  unfoldable pub init_device_prop : Double → InitCalls → Cmd (InitState os) (Unit {0})
  unfolding read_mem_limit read_core_limit set_core_limited get_core_limited
  init_device_prop d sys = do
    (ret, total_mem) ← read_mem_limit d sys
    (if is_nonzero ret then pure tt else (do
      init_memory sys total_mem
      core ← read_core_limit sys
      (if not (is_nonzero core) then set_core_limited else pure tt)
      core_limited ← get_core_limited
      (if not core_limited then pure tt else init_tokens sys)))
