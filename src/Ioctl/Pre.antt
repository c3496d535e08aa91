-- ===== src/Ioctl/Pre.antt =====
-- What runs before the driver: `pre_vid_heap_alloc`, `pre_rm_alloc` and `pre_ioctl`. Each returns
-- its `ret`, the argument block and `*success`.
pub mod Check
pub mod Least
pub mod Wrap
use nv_resource_controller.Prelude.{
  ℕ, Bool, false, not, Option, none, some, ◌==◌, ltb, if◌then◌else◌,
}
use nv_resource_controller.Prelude.Int.{ℤ, pos}
use nv_resource_controller.Prelude.Run.{Cmd, fault, pure, ◌>>=◌, ◌>>◌}
use nv_resource_controller.Platform.{Platform}
use nv_resource_controller.Hook.Types.{FbInfo}
use nv_resource_controller.Hook.Memory.{Memory, lock, unlock, load_fb}
use nv_resource_controller.Ioctl.Params.{HeapParams, AllocParams, AllocParms, MemoryParams, Arg}
use nv_resource_controller.Ioctl.Align.{align_up}

-- The block with the refusal and the account written into it.
abbrev pub refused : ℕ → HeapParams → FbInfo → HeapParams
refused status api fb = record api { status = status; total = fb.total_mem; free = fb.free_mem }

module _ {os : Platform} where
  -- Both cases of the `switch`: `align_size` is 0 under `NVOS32_FUNCTION_INFO`, and only the first
  -- sets `*success`.
  -- `NVOS32_FUNCTION_ALLOC_SIZE`
  pre_alloc_size : HeapParams → Cmd (Memory os) (ℤ × HeapParams × Bool)
  unfolding lock unlock load_fb
  pre_alloc_size api = do
    lock
    fb ← load_fb
    let low = ltb fb.free_mem (align_up api.alloc_size.size api.alloc_size.alignment)
    let api' = if low then refused os.abi.nv_err_no_memory api fb else api
    unlock
    pure (pos 0, api', low)

  -- `NVOS32_FUNCTION_INFO`, where `align_size` is still 0 and `*success` is left alone
  pre_info : HeapParams → Cmd (Memory os) (ℤ × HeapParams × Bool)
  unfolding lock unlock load_fb
  pre_info api = do
    lock
    fb ← load_fb
    let api' = if ltb fb.free_mem 0 then refused os.abi.nv_err_no_memory api fb else api
    unlock
    pure (pos 0, api', false)

  unfoldable pub pre_vid_heap_alloc : HeapParams → Cmd (Memory os) (ℤ × HeapParams × Bool)
  unfolding pre_alloc_size pre_info
  pre_vid_heap_alloc api =
      if api.function == os.abi.function_alloc_size
      then (if not (api.alloc_size.alignment == 0)
          then pre_alloc_size api
          else pure (pos 0, api, false))
      else if api.function == os.abi.function_info
      then pre_info api
      else pure (pos 0, api, false)

  -- `NV01_MEMORY_LOCAL_USER`, once `pAllocParms` is known not to be null
  pre_local_user : AllocParams → MemoryParams → Cmd (Memory os) (ℤ × AllocParams × Bool)
  unfolding lock unlock load_fb
  pre_local_user api params = do
    lock
    fb ← load_fb
    let low = ltb fb.free_mem (align_up params.size params.alignment)
    let api' = if low then record api { status = os.abi.nv_err_no_memory } else api
    unlock
    pure (pos 0, api', low)

  pre_memory_alloc : AllocParams → Option AllocParms → Cmd (Memory os) (ℤ × AllocParams × Bool)
  unfolding pre_local_user
  pre_memory_alloc api none = λ m. fault
  pre_memory_alloc api (some parms) =
      if not (parms.as_memory.alignment == 0)
      then pre_local_user api parms.as_memory
      else pure (pos 0, api, false)

  unfoldable pub pre_rm_alloc : AllocParams → Cmd (Memory os) (ℤ × AllocParams × Bool)
  unfolding pre_memory_alloc
  pre_rm_alloc api =
      if api.h_class == os.abi.class_memory_local_user
      then pre_memory_alloc api api.p_alloc_parms
      else pure (pos 0, api, false)

  unfoldable pub pre_heap : Arg → Cmd (Memory os) (ℤ × Arg × Bool)
  pre_heap arg = do
    (ret, api, success) ← pre_vid_heap_alloc arg.os32
    pure (ret, record arg { os32 = api }, success)

  unfoldable pub pre_alloc : Arg → Cmd (Memory os) (ℤ × Arg × Bool)
  pre_alloc arg = do
    (ret, api, success) ← pre_rm_alloc arg.os21
    pure (ret, record arg { os21 = api }, success)

  unfoldable pub pre_ioctl : ℕ → Arg → Bool → Cmd (Memory os) (ℤ × Arg × Bool)
  pre_ioctl cmd arg success =
      if os.abi.ioc_nr cmd == os.abi.esc_rm_vid_heap_control
      then pre_heap arg
      else if os.abi.ioc_nr cmd == os.abi.esc_rm_alloc
      then pre_alloc arg
      else pure (pos 0, arg, success)
