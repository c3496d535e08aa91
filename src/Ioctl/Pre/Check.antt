-- ===== src/Ioctl/Pre/Check.antt =====
-- What the check before the driver decides, on every branch.
use nv_resource_controller.Prelude.{some, ℕ, ◌≡◌, Bool, not, ◌&&◌, ◌==◌, ltb, if◌then◌else◌, arith}
use nv_resource_controller.Prelude.Int.{pos}
use nv_resource_controller.Prelude.Run.{ok}
use nv_resource_controller.Platform.{Platform}
use nv_resource_controller.Hook.Types.{FbInfo}
use nv_resource_controller.Hook.Memory.{Memory}
use nv_resource_controller.Ioctl.Params.{HeapParams, AllocParams, AllocParms}
use nv_resource_controller.Ioctl.Align.{align_up}
use nv_resource_controller.Ioctl.Account.{IsReady}
use nv_resource_controller.Ioctl.Pre.{refused, pre_vid_heap_alloc, pre_rm_alloc}

-- Is the request for more than what is free?
abbrev pub exceeds : (size alignment : ℕ) → FbInfo → Bool
exceeds size alignment fb = not (alignment == 0) && ltb fb.free_mem (align_up size alignment)

module _ {os : Platform} {k : ℕ} {fb : FbInfo} {m : Memory os} where
  -- On a ready account `pre_vid_heap_alloc` refuses exactly the sized requests that exceed what is
  -- free, and changes no memory; `NVOS32_FUNCTION_INFO` is never refused.
  pub pre_vid_heap_alloc_lem :
      (api : HeapParams)
      → IsReady k fb m
      → let low : Bool =
          (api.function == os.abi.function_alloc_size)
          && exceeds api.alloc_size.size api.alloc_size.alignment fb in
        pre_vid_heap_alloc api m
        ≡ ok (pos 0, (if low then refused os.abi.nv_err_no_memory api fb else api), low) m
  unfolding pre_vid_heap_alloc
  pre_vid_heap_alloc_lem api r = ground arith

  -- `pre_rm_alloc` refuses exactly the requests for local memory that exceed what is free, and changes
  -- no memory.
  pub pre_rm_alloc_lem :
      (api : AllocParams) (parms : AllocParms)
      → IsReady k fb m
      → api.p_alloc_parms ≡ some parms
      → let low : Bool =
          (api.h_class == os.abi.class_memory_local_user)
          && exceeds parms.as_memory.size parms.as_memory.alignment fb in
        pre_rm_alloc api m
        ≡ ok (pos 0, (if low then record api { status = os.abi.nv_err_no_memory } else api), low) m
  unfolding pre_rm_alloc
  pre_rm_alloc_lem api parms r e = rw e (ground arith)
