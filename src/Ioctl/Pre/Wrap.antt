-- ===== src/Ioctl/Pre/Wrap.antt =====
-- A request within one alignment of `2 ^ 64`.
use nv_resource_controller.Prelude.{ℕ, ◌+◌, ◌^◌, ◌<◌, ◌≡◌, false, arith}
use nv_resource_controller.Prelude.Int.{pos}
use nv_resource_controller.Prelude.Run.{ok}
use nv_resource_controller.Platform.{Platform}
use nv_resource_controller.Hook.Types.{FbInfo}
use nv_resource_controller.Hook.Memory.{Memory}
use nv_resource_controller.Ioctl.Params.{HeapParams}
use nv_resource_controller.Ioctl.Account.{IsReady}
use nv_resource_controller.Ioctl.Align.{align_up}
use nv_resource_controller.Ioctl.Align.Rounding.{align_up_wrapped}
use nv_resource_controller.Ioctl.Pre.{pre_vid_heap_alloc}
use nv_resource_controller.Ioctl.Pre.Check.{pre_vid_heap_alloc_lem}

-- On a ready account, where rounding a word up to a power of two wraps round, the check lets the
-- request through, whatever is free.
pub pre_vid_heap_alloc_wrapped :
    {os : Platform} {k : ℕ} {fb : FbInfo} {m : Memory os} (api : HeapParams) (j : ℕ)
    → IsReady k fb m
    → j < 64
    → api.alloc_size.alignment ≡ 2 ^ j
    → api.alloc_size.size < 2 ^ 64
    → 2 ^ 64 < api.alloc_size.size + 2 ^ j
    → pre_vid_heap_alloc api m ≡ ok (pos 0, api, false) m
pre_vid_heap_alloc_wrapped {m} api j r h a w over =
    let zero_size : (align_up api.alloc_size.size api.alloc_size.alignment ≡ 0) =
      rw a (align_up_wrapped api.alloc_size.size j h w over) in
    ground (arith, pre_vid_heap_alloc_lem {m = m} api r)
