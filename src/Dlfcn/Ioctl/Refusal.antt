-- ===== src/Dlfcn/Ioctl/Refusal.antt =====
-- What the exported `ioctl` adds to libc's: nothing where it does not limit, and a refusal without
-- the driver where a request exceeds what is free.
use nv_resource_controller.Prelude.{
  ℕ, zero, suc, ◌%◌, ◌^◌, ◌≡◌, refl, not, ◌&&◌, Bool, true, false, Option, some, arith, ◌==◌,
}
use nv_resource_controller.Prelude.Int.{ℤ, pos, negsuc, is_nonzero}
use nv_resource_controller.Prelude.Run.{Cmd, ok}
use nv_resource_controller.Platform.{Platform}
use nv_resource_controller.Hook.Types.{FbInfo, nvidia_device_major}
use nv_resource_controller.Hook.Memory.{Memory}
use nv_resource_controller.Util.DeviceNumber.{StatCalls, get_device_number}
use nv_resource_controller.Ioctl.Params.{Arg, AllocParms}
use nv_resource_controller.Ioctl.Account.{IsReady}
use nv_resource_controller.Ioctl.Pre.{pre_ioctl, pre_heap, pre_alloc}
use nv_resource_controller.Ioctl.Pre.Check.{exceeds, pre_vid_heap_alloc_lem, pre_rm_alloc_lem}
use nv_resource_controller.Ioctl.Post.{post_ioctl}
use nv_resource_controller.Dlfcn.Ioctl.{
  Calls, Driver, redirect, guarded, limited, with_driver, ioctl,
}

-- `ret`, `major` and `minor` of a descriptor
abbrev pub numbers : Calls → ℕ → ℤ × ℕ × ℕ
numbers sys fd = get_device_number sys.stat fd 0 0

-- The descriptor is one of the NVIDIA driver's.
abbrev pub is_nvidia : Calls → ℕ → Bool
is_nvidia sys fd =
    not (is_nonzero (numbers sys fd).0) && ((numbers sys fd).1 == nvidia_device_major)

eq_zero : (n : ℤ) → is_nonzero n ≡ false → n ≡ pos 0
eq_zero (pos zero) e = refl
eq_zero (pos (suc n)) e = cc
eq_zero (negsuc n) e = cc

-- A descriptor that is no character device, or that `fstat` refuses, leaves the major number 0.
get_device_number_failed :
    (sys : StatCalls) (fd : ℕ)
    → is_nonzero (get_device_number sys fd 0 0).0 ≡ true
    → (get_device_number sys fd 0 0).1 ≡ 0
unfolding get_device_number
get_device_number_failed sys fd e = ground arith

module _ {os : Platform} (sys : Calls) (driver : Driver) (fd cmd : ℕ) (arg : Arg)
    (m : Memory os) where
  redirect_other :
      (major minor : ℕ)
      → (m.dev.mem_limited && (major == nvidia_device_major)) ≡ false
      → redirect sys driver fd major minor cmd arg m ≡ ok (driver fd cmd arg) m
  unfolding redirect post_ioctl
  redirect_other major minor e = ground (arith, eq_zero (driver fd cmd arg).0)

  limited_other :
      (n : ℤ × ℕ × ℕ)
      → (not (is_nonzero n.0) && (n.1 == nvidia_device_major)) ≡ false
      → (is_nonzero n.0 ≡ true → n.1 ≡ 0)
      → limited sys driver fd cmd arg n m ≡ ok (driver fd cmd arg) m
  unfolding limited
  limited_other n e low = ground (arith, redirect_other n.1 n.2)

  -- Once libc's `ioctl` has been found, in a process without a memory limit and on any descriptor
  -- that is not the NVIDIA driver's, the exported `ioctl` is libc's: the same result, the same
  -- block, and no memory of the library changes.
  pub ioctl_transparent :
      (init : Cmd (Memory os) (Option Driver))
      → (m.dev.mem_limited && is_nvidia sys fd) ≡ false
      → ioctl sys (some driver) init fd cmd arg m ≡ ok (driver fd cmd arg) m
  unfolding ioctl with_driver
  ioctl_transparent init e = ground (
    arith,
    redirect_other 0 0,
    limited_other (numbers sys fd),
    get_device_number_failed sys.stat fd,
  )

module _ {os : Platform} (sys : Calls) (driver : Driver) (fd cmd : ℕ) (arg : Arg) {k : ℕ}
    {fb : FbInfo} (m : Memory os) where
  guarded_heap :
      (major minor : ℕ)
      → IsReady k fb m
      → os.abi.ioc_nr (cmd % 2 ^ 32) ≡ os.abi.esc_rm_vid_heap_control
      → arg.os32.function ≡ os.abi.function_alloc_size
      → exceeds arg.os32.alloc_size.size arg.os32.alloc_size.alignment fb ≡ true
      → guarded sys driver fd major minor cmd arg m
        ≡ ok
            (
              pos 0,
              record arg {
                os32 = record arg.os32 {
                  status = os.abi.nv_err_no_memory;
                  total = fb.total_mem;
                  free = fb.free_mem;
                };
              },
            )
            m
  unfolding guarded pre_ioctl pre_heap
  guarded_heap major minor r c e x = ground (arith, pre_vid_heap_alloc_lem {m = m} arg.os32 r)

  -- In a limited process with a ready account, on a descriptor of the NVIDIA driver, a request for
  -- memory on the heap that comes to more than what is free never reaches the driver: `ioctl`
  -- returns 0, with `NV_ERR_NO_MEMORY` and the account in the block, and no memory changes.
  pub ioctl_refuses_heap :
      (init : Cmd (Memory os) (Option Driver))
      → m.dev.mem_limited ≡ true
      → is_nvidia sys fd ≡ true
      → IsReady k fb m
      → os.abi.ioc_nr (cmd % 2 ^ 32) ≡ os.abi.esc_rm_vid_heap_control
      → arg.os32.function ≡ os.abi.function_alloc_size
      → exceeds arg.os32.alloc_size.size arg.os32.alloc_size.alignment fb ≡ true
      → ioctl sys (some driver) init fd cmd arg m
        ≡ ok
            (
              pos 0,
              record arg {
                os32 = record arg.os32 {
                  status = os.abi.nv_err_no_memory;
                  total = fb.total_mem;
                  free = fb.free_mem;
                };
              },
            )
            m
  unfolding ioctl with_driver limited
  ioctl_refuses_heap init l d r c e x =
      ground (arith, guarded_heap (numbers sys fd).1 (numbers sys fd).2 r c e x)

  guarded_alloc :
      (major minor : ℕ) (parms : AllocParms)
      → IsReady k fb m
      → os.abi.ioc_nr (cmd % 2 ^ 32) ≡ os.abi.esc_rm_alloc
      → arg.os21.h_class ≡ os.abi.class_memory_local_user
      → arg.os21.p_alloc_parms ≡ some parms
      → exceeds parms.as_memory.size parms.as_memory.alignment fb ≡ true
      → guarded sys driver fd major minor cmd arg m
        ≡ ok (pos 0, record arg { os21 = record arg.os21 { status = os.abi.nv_err_no_memory } }) m
  unfolding guarded pre_ioctl pre_alloc
  guarded_alloc major minor parms r c e n x =
      ground (arith, pre_rm_alloc_lem {m = m} arg.os21 parms r n)

  -- In a limited process with a ready account, on a descriptor of the NVIDIA driver, a request through
  -- `NV_ESC_RM_ALLOC` for local memory that comes to more than what is free never reaches the driver:
  -- `ioctl` returns 0, with the status `NV_ERR_NO_MEMORY` in the block, and no memory changes.
  pub ioctl_refuses_alloc :
      (init : Cmd (Memory os) (Option Driver)) (parms : AllocParms)
      → m.dev.mem_limited ≡ true
      → is_nvidia sys fd ≡ true
      → IsReady k fb m
      → os.abi.ioc_nr (cmd % 2 ^ 32) ≡ os.abi.esc_rm_alloc
      → arg.os21.h_class ≡ os.abi.class_memory_local_user
      → arg.os21.p_alloc_parms ≡ some parms
      → exceeds parms.as_memory.size parms.as_memory.alignment fb ≡ true
      → ioctl sys (some driver) init fd cmd arg m
        ≡ ok (pos 0, record arg { os21 = record arg.os21 { status = os.abi.nv_err_no_memory } }) m
  unfolding ioctl with_driver limited
  ioctl_refuses_alloc init parms l d r c e n x =
      ground (arith, guarded_alloc (numbers sys fd).1 (numbers sys fd).2 parms r c e n x)
