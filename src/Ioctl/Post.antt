-- ===== src/Ioctl/Post.antt =====
-- `post_ioctl`: the handler that the command selects, after the driver's `ioctl` has succeeded.
pub mod Steady
use nv_resource_controller.Prelude.{ℕ, not, Option, ◌==◌, if◌then◌else◌}
use nv_resource_controller.Prelude.Int.{ℤ, pos}
use nv_resource_controller.Prelude.Run.{Cmd, pure, ◌>>=◌}
use nv_resource_controller.Platform.{Platform}
use nv_resource_controller.Hook.Types.{nvidia_device_major}
use nv_resource_controller.Hook.Memory.{Memory}
use nv_resource_controller.Ioctl.Params.{Arg}
use nv_resource_controller.Ioctl.Alloc.{post_rm_alloc, post_rm_vid_heap_control}
use nv_resource_controller.Ioctl.Control.{FbCalls, post_rm_control}
use nv_resource_controller.Ioctl.Free.{post_rm_free}

module _ {os : Platform} where
  unfoldable pub heap_control : Option ℕ → ℕ → Arg → Cmd (Memory os) (ℤ × Arg)
  heap_control fresh minor arg = do
    (ret, api) ← post_rm_vid_heap_control fresh minor arg.os32
    pure (ret, record arg { os32 = api })

  unfoldable pub control : FbCalls → ℕ → Arg → Cmd (Memory os) (ℤ × Arg)
  control sys minor arg = do
    (ret, api) ← post_rm_control sys minor arg.os54
    pure (ret, record arg { os54 = api })

  unfoldable pub release : ℕ → Arg → Cmd (Memory os) (ℤ × Arg)
  release minor arg = do ret ← post_rm_free minor arg.os00; pure (ret, arg)

  unfoldable pub alloc : Option ℕ → Arg → Cmd (Memory os) (ℤ × Arg)
  alloc fresh arg = do ret ← post_rm_alloc fresh arg.os21; pure (ret, arg)

  unfoldable pub post_ioctl :
      FbCalls → Option ℕ → (major minor cmd : ℕ) → Arg → Cmd (Memory os) (ℤ × Arg)
  post_ioctl sys fresh major minor cmd arg =
      if not (major == nvidia_device_major)
      then pure (pos 0, arg)
      else if os.abi.ioc_nr cmd == os.abi.esc_rm_vid_heap_control
      then heap_control fresh minor arg
      else if os.abi.ioc_nr cmd == os.abi.esc_rm_control
      then control sys minor arg
      else if os.abi.ioc_nr cmd == os.abi.esc_rm_free
      then release minor arg
      else if os.abi.ioc_nr cmd == os.abi.esc_rm_alloc
      then alloc fresh arg
      else pure (pos 0, arg)
