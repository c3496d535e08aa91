-- ===== src/Dlfcn/Ioctl/Charge.antt =====
-- An allocation that the exported `ioctl` lets through, from the check to the charge.
use nv_resource_controller.Prelude.{
  ℕ, ◌+◌, ◌%◌, ◌^◌, ◌≤◌, ◌<◌, ◌≡◌, ◌≢◌, false, true, Option, some, arith,
}
use nv_resource_controller.Prelude.Int.{pos}
use nv_resource_controller.Prelude.Run.{Cmd, ok}
use nv_resource_controller.Platform.{Platform}
use nv_resource_controller.Hook.Types.{FbInfo, nvidia_device_major, nvidia_ctl_minor}
use nv_resource_controller.Hook.Memory.{Memory}
use nv_resource_controller.Ioctl.Params.{Arg, HeapParams}
use nv_resource_controller.Ioctl.Account.{IsReady}
use nv_resource_controller.Ioctl.Align.{align_up}
use nv_resource_controller.Ioctl.Alloc.{post_rm_vid_heap_control}
use nv_resource_controller.Ioctl.Alloc.Charge.{
  charged_fb, charged_memory, heap_entry, post_vid_heap_alloc_lem,
}
use nv_resource_controller.Ioctl.Pre.{pre_ioctl, pre_heap}
use nv_resource_controller.Ioctl.Pre.Check.{exceeds, pre_vid_heap_alloc_lem}
use nv_resource_controller.Ioctl.Post.{post_ioctl, heap_control}
use nv_resource_controller.Dlfcn.Ioctl.{
  Calls, Driver, redirect, guarded, limited, with_driver, ioctl,
}
use nv_resource_controller.Dlfcn.Ioctl.Refusal.{numbers, is_nvidia}

-- The driver's answer to an allocation: the block `after` tells of a success, and of no more memory
-- than the request rounded up.
pub record Grants (ok_status alloc : ℕ) (before after : HeapParams) : Type 0 where
  pub function : before.function ≡ alloc
  pub same_function : after.function ≡ alloc
  pub aligned : before.alloc_size.alignment ≢ 0
  pub still_aligned : after.alloc_size.alignment ≢ 0
  pub status : after.status ≡ ok_status
  pub size : after.alloc_size.size ≤ align_up before.alloc_size.size before.alloc_size.alignment

-- The block that the caller gets back.
abbrev pub answered : FbInfo → Arg → Arg
answered fb after = record after {
  os32 = record after.os32 {
    total = fb.total_mem;
    free = (charged_fb fb after.os32.alloc_size.size).free_mem;
  };
}

module _ {os : Platform} (sys : Calls) (driver : Driver) (fd cmd : ℕ) (arg after : Arg) {k : ℕ}
    {fb : FbInfo} (m : Memory os) (p : ℕ) where
  redirect_charges :
      IsReady k fb m
      → m.dev.mem_limited ≡ true
      → sys.fresh ≡ some p
      → os.abi.ioc_nr (cmd % 2 ^ 32) ≡ os.abi.esc_rm_vid_heap_control
      → driver fd cmd arg ≡ (pos 0, after)
      → Grants os.abi.nv_ok os.abi.function_alloc_size arg.os32 after.os32
      → redirect sys driver fd nvidia_device_major nvidia_ctl_minor cmd arg m
        ≡ ok (pos 0, answered fb after) (charged_memory k fb p (heap_entry after.os32) m)
  unfolding redirect post_ioctl heap_control post_rm_vid_heap_control
  redirect_charges r l f c d g =
      rw (d, f)
        (ground (arith, post_vid_heap_alloc_lem {m = m} p after.os32 r g.status g.still_aligned))

  guarded_charges :
      IsReady k fb m
      → m.dev.mem_limited ≡ true
      → sys.fresh ≡ some p
      → os.abi.ioc_nr (cmd % 2 ^ 32) ≡ os.abi.esc_rm_vid_heap_control
      → driver fd cmd arg ≡ (pos 0, after)
      → Grants os.abi.nv_ok os.abi.function_alloc_size arg.os32 after.os32
      → exceeds arg.os32.alloc_size.size arg.os32.alloc_size.alignment fb ≡ false
      → guarded sys driver fd nvidia_device_major nvidia_ctl_minor cmd arg m
        ≡ ok (pos 0, answered fb after) (charged_memory k fb p (heap_entry after.os32) m)
  unfolding guarded pre_ioctl pre_heap
  guarded_charges r l f c d g x =
      ground (arith, pre_vid_heap_alloc_lem {m = m} arg.os32 r, redirect_charges r l f c d g)

  -- In a limited process with a ready account, on the driver's control descriptor and with a node
  -- from `malloc`, a request that fits goes through to the driver. If the driver answers as in
  -- `Grants`, with alignments that are not 0 and a size of no more than the request rounded up, what
  -- it grants is charged: its entry joins the list, and `free_mem` falls by exactly its size, without
  -- wrapping round.
  pub ioctl_charges_heap :
      (init : Cmd (Memory os) (Option Driver))
      → IsReady k fb m
      → fb.free_mem < 2 ^ 64
      → m.dev.mem_limited ≡ true
      → is_nvidia sys fd ≡ true
      → (numbers sys fd).2 ≡ nvidia_ctl_minor
      → sys.fresh ≡ some p
      → os.abi.ioc_nr (cmd % 2 ^ 32) ≡ os.abi.esc_rm_vid_heap_control
      → driver fd cmd arg ≡ (pos 0, after)
      → Grants os.abi.nv_ok os.abi.function_alloc_size arg.os32 after.os32
      → exceeds arg.os32.alloc_size.size arg.os32.alloc_size.alignment fb ≡ false
      → (ioctl sys (some driver) init fd cmd arg m
          ≡ ok (pos 0, answered fb after) (charged_memory k fb p (heap_entry after.os32) m))
        × ((charged_fb fb after.os32.alloc_size.size).free_mem + after.os32.alloc_size.size
            ≡ fb.free_mem)
  unfolding ioctl with_driver limited
  ioctl_charges_heap init r w l d minor f c e g x =
      (ground (arith, guarded_charges r l f c e g x), ground (arith, g.size, g.aligned))
