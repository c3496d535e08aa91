-- ===== src/Ioctl/Alloc/OutOfMemory.antt =====
-- `malloc` fails while a charge is made: the handlers leave `gpu_device.mu` locked.
use nv_resource_controller.Prelude.{◌≡◌, ◌≢◌, refl, none, some, false, true, arith}
use nv_resource_controller.Prelude.Run.{blocked, and_then}
use nv_resource_controller.Platform.{Platform}
use nv_resource_controller.Hook.Memory.{Memory}
use nv_resource_controller.Ioctl.Params.{HeapParams, AllocParams, AllocParms}
use nv_resource_controller.Ioctl.Account.{set_mu}
use nv_resource_controller.Ioctl.Pre.{pre_vid_heap_alloc}
use nv_resource_controller.Ioctl.Alloc.{post_vid_heap_alloc, post_memory_rm_alloc}

module _ {os : Platform} (m : Memory os) (free : m.dev.mu ≡ false) where
  -- The next request that is checked waits for ever.
  pre_vid_heap_alloc_blocked :
      (t : Memory os) (api : HeapParams)
      → t.dev.mu ≡ true
      → api.function ≡ os.abi.function_alloc_size
      → api.alloc_size.alignment ≢ 0
      → pre_vid_heap_alloc api t ≡ blocked
  unfolding pre_vid_heap_alloc
  pre_vid_heap_alloc_blocked t api l e a = ground arith

  -- When `malloc` fails while a granted request is charged, the next sized request that is checked
  -- waits for ever: `post_vid_heap_alloc` has left the mutex locked.
  pub post_vid_heap_alloc_deadlock :
      (api next : HeapParams)
      → api.status ≡ os.abi.nv_ok
      → api.alloc_size.alignment ≢ 0
      → next.function ≡ os.abi.function_alloc_size
      → next.alloc_size.alignment ≢ 0
      → and_then (post_vid_heap_alloc none api m) (λ _. pre_vid_heap_alloc next) ≡ blocked
  unfolding post_vid_heap_alloc
  post_vid_heap_alloc_deadlock api next st al e a =
      ground (arith, pre_vid_heap_alloc_blocked (set_mu true m) next refl e a)

  -- When `malloc` fails while a granted request through `NV_ESC_RM_ALLOC` is charged, the next sized
  -- request that is checked waits for ever: `post_memory_rm_alloc` has left the mutex locked.
  pub post_memory_rm_alloc_deadlock :
      (api : AllocParams) (parms : AllocParms) (next : HeapParams)
      → api.status ≡ os.abi.nv_ok
      → api.p_alloc_parms ≡ some parms
      → parms.as_memory.alignment ≢ 0
      → next.function ≡ os.abi.function_alloc_size
      → next.alloc_size.alignment ≢ 0
      → and_then (post_memory_rm_alloc none api m) (λ _. pre_vid_heap_alloc next) ≡ blocked
  unfolding post_memory_rm_alloc
  post_memory_rm_alloc_deadlock api parms next st n al e a =
      rw n (ground (arith, pre_vid_heap_alloc_blocked (set_mu true m) next refl e a))
