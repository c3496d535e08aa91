-- ===== src/Dlfcn/Ioctl.antt =====
-- The exported `ioctl` of src/dlfcn.c, which stands in front of libc's.
pub mod Charge
pub mod Limit
pub mod Refusal
pub mod Ledgers
pub mod Moves
pub mod Served
pub mod Steady
use nv_resource_controller.Prelude.{
  ℕ, ◌%◌, ◌^◌, false, not, ◌&&◌, ◌||◌, Option, none, some, ◌==◌, if◌then◌else◌,
}
use nv_resource_controller.Prelude.Int.{ℤ, is_nonzero}
use nv_resource_controller.Prelude.Run.{Cmd, ok, exited, pure, ◌>>=◌}
use nv_resource_controller.Platform.{Platform}
use nv_resource_controller.Hook.Types.{nvidia_device_major}
use nv_resource_controller.Hook.Memory.{Memory}
use nv_resource_controller.Util.DeviceNumber.{StatCalls, get_device_number}
use nv_resource_controller.Ioctl.Params.{Arg}
use nv_resource_controller.Ioctl.Control.{FbCalls}
use nv_resource_controller.Ioctl.Pre.{pre_ioctl}
use nv_resource_controller.Ioctl.Post.{post_ioctl}

-- libc's `ioctl`: `fd`, `cmd` and the block, with what it returns and leaves in the block.
abbrev pub Driver : Type 0
Driver = ℕ → ℕ → Arg → ℤ × Arg

-- The system at one call: `fstat`, what `__get_fb_info` asks, and the result of `malloc`.
pub record Calls : Type 0 where
  pub stat : StatCalls
  pub fb : FbCalls
  pub fresh : Option ℕ

module _ {os : Platform} where
  -- From the label `redirect`: the driver, and `post_ioctl` when it has succeeded.
  unfoldable pub redirect :
      Calls → Driver → (fd major minor cmd : ℕ) → Arg → Cmd (Memory os) (ℤ × Arg)
  redirect sys driver fd major minor cmd arg m =
      let (ret, arg') = driver fd cmd arg in
      if m.dev.mem_limited && not (is_nonzero ret)
      then post_ioctl sys.fb sys.fresh major minor (cmd % 2 ^ 32) arg' m
      else ok (ret, arg') m

  -- On the device's own numbers: the check, which may finish the call.
  unfoldable pub guarded :
      Calls → Driver → (fd major minor cmd : ℕ) → Arg → Cmd (Memory os) (ℤ × Arg)
  guarded sys driver fd major minor cmd arg = do
    (ret, arg', success) ← pre_ioctl (cmd % 2 ^ 32) arg false
    if is_nonzero ret || success
        then pure (ret, arg')
        else redirect sys driver fd major minor cmd arg'

  unfoldable pub limited :
      Calls → Driver → (fd cmd : ℕ) → Arg → ℤ × ℕ × ℕ → Cmd (Memory os) (ℤ × Arg)
  limited sys driver fd cmd arg (ret, major, minor) =
      if is_nonzero ret || not (major == nvidia_device_major)
      then redirect sys driver fd major minor cmd arg
      else guarded sys driver fd major minor cmd arg

  unfoldable pub with_driver : Calls → Driver → (fd cmd : ℕ) → Arg → Cmd (Memory os) (ℤ × Arg)
  with_driver sys driver fd cmd arg m =
      if m.dev.mem_limited
      then limited sys driver fd cmd arg (get_device_number sys.stat fd 0 0) m
      else redirect sys driver fd 0 0 cmd arg m

  -- `BUG_ON(!__dlfcn_data.ioctl)`
  unfoldable pub bug_on_null :
      Option Driver → (Driver → Cmd (Memory os) (ℤ × Arg)) → Cmd (Memory os) (ℤ × Arg)
  bug_on_null none k = λ m. exited
  bug_on_null (some driver) k = k driver

  -- `pointer` is `__dlfcn_data.ioctl`; `init` is `pthread_once(&__dlfcn_data.once, init)` with the
  -- pointer that it leaves.
  unfoldable pub ioctl :
      Calls
      → Option Driver
      → Cmd (Memory os) (Option Driver)
      → (fd cmd : ℕ) → Arg
      → Cmd (Memory os) (ℤ × Arg)
  unfolding bug_on_null
  ioctl sys none init fd cmd arg = do
    pointer ← init
    bug_on_null pointer (λ driver. with_driver sys driver fd cmd arg)
  ioctl sys (some driver) init fd cmd arg = with_driver sys driver fd cmd arg
