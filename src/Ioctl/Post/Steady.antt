-- ===== src/Ioctl/Post/Steady.antt =====
-- `post_ioctl` on every command.
use nv_resource_controller.Prelude.{ℕ, ◌^◌, ◌<◌, ◌≡◌, ◌==◌, refl, some, arith, Bool-cases, inl, inr}
use nv_resource_controller.Prelude.Run.{Run, Returns, Returns-and_then, Returns-mono}
use nv_resource_controller.Platform.{Platform}
use nv_resource_controller.Hook.Types.{nvidia_device_major}
use nv_resource_controller.Hook.Memory.{Memory}
use nv_resource_controller.Util.ShmAddr.Up.{IsUp}
use nv_resource_controller.Ioctl.Params.{Arg}
use nv_resource_controller.Ioctl.Account.{IsSteady}
use nv_resource_controller.Ioctl.Ledger.{Moves, same, LedgerStep-mono}
use nv_resource_controller.Ioctl.Alloc.{post_rm_alloc, post_rm_vid_heap_control}
use nv_resource_controller.Ioctl.Alloc.Steady.{
  IsFresh, HasParms, GrantsHeap, GrantsAlloc, parms-word, post_rm_alloc-Moves,
  post_rm_vid_heap_control-Moves,
}
use nv_resource_controller.Ioctl.Control.{FbCalls, post_rm_control}
use nv_resource_controller.Ioctl.Control.Steady.{Fits, post_rm_control-Moves}
use nv_resource_controller.Ioctl.Free.{post_rm_free}
use nv_resource_controller.Ioctl.Free.Steady.{post_rm_free-Moves}
use nv_resource_controller.Ioctl.Post.{heap_control, control, release, alloc, post_ioctl}

-- The block is well formed: `pAllocParms` points at something, the counts fit, sizes are words.
pub record IsFormed (arg : Arg) : Type 0 where
  pub parms : HasParms arg.os21
  pub fits : Fits arg.os54.params
  pub fits_v2 : Fits arg.os54.params_v2
  pub word : arg.os32.alloc_size.size < 2 ^ 64

-- What the driver has granted, on a command that allocates, is at most `b` bytes.
pub record IsGranted (os : Platform) (b cmd : ℕ) (arg : Arg) : Type 0 where
  pub heap :
      os.abi.ioc_nr cmd ≡ os.abi.esc_rm_vid_heap_control
      → arg.os32.function ≡ os.abi.function_alloc_size
      → GrantsHeap os.abi.nv_ok b arg.os32
  pub alloc :
      os.abi.ioc_nr cmd ≡ os.abi.esc_rm_alloc
      → arg.os21.h_class ≡ os.abi.class_memory_local_user
      → GrantsAlloc os.abi.nv_ok b arg.os21

-- The sizes of a well-formed block are words.
pub IsGranted-IsFormed :
    (os : Platform) (cmd : ℕ) (arg : Arg) → IsFormed arg → IsGranted os (2 ^ 64) cmd arg
IsGranted-IsFormed os cmd arg w = record {
  heap = λ _ _ _ _. omega (arith, w.word);
  alloc = λ _ _. parms-word os.abi.nv_ok arg.os21 w.parms;
}

module _ {os : Platform} {k q : ℕ} where
  module _ (b : ℕ) (sys : FbCalls) (p minor : ℕ) (arg : Arg) (m : Memory os)
      (s : IsSteady k q m) where
    widened :
        {A : Type 0} (r : Run (Memory os) A)
        → Returns (λ _ m'. Moves k q 0 m m') r
        → Returns (λ _ m'. Moves k q b m m') r
    widened r h =
        Returns-mono (λ _ m'. Moves k q 0 m m') (λ _ m'. Moves k q b m m') r h
          λ _ _ t. (t.0, LedgerStep-mono (omega arith) t.1)

    heap_control-Moves :
        IsFresh (some p) m
        → IsFormed arg
        → (arg.os32.function ≡ os.abi.function_alloc_size → GrantsHeap os.abi.nv_ok b arg.os32)
        → Returns (λ _ m'. Moves k q b m m') (heap_control (some p) minor arg m)
    unfolding heap_control
    heap_control-Moves f w g =
        Returns-and_then (λ _ m'. Moves k q b m m') (λ _ m'. Moves k q b m m')
          (post_rm_vid_heap_control (some p) minor arg.os32 m) _
          (post_rm_vid_heap_control-Moves b p minor arg.os32 m s f w.word g) λ _ _ t. t

    control-Moves :
        IsUp sys.shm_calls
        → IsFormed arg
        → Returns (λ _ m'. Moves k q b m m') (control sys minor arg m)
    unfolding control
    control-Moves up w =
        Returns-and_then (λ _ m'. Moves k q b m m') (λ _ m'. Moves k q b m m')
          (post_rm_control sys minor arg.os54 m) _
          (widened (post_rm_control sys minor arg.os54 m)
            (post_rm_control-Moves sys m up s minor arg.os54 w.fits w.fits_v2))
          λ _ _ t. t

    release-Moves : Returns (λ _ m'. Moves k q b m m') (release minor arg m)
    unfolding release
    release-Moves =
        Returns-and_then (λ _ m'. Moves k q b m m') (λ _ m'. Moves k q b m m')
          (post_rm_free minor arg.os00 m) _
          (widened (post_rm_free minor arg.os00 m) (post_rm_free-Moves m minor arg.os00 s))
          λ _ _ t. t

    alloc-Moves :
        IsFresh (some p) m
        → IsFormed arg
        → (arg.os21.h_class ≡ os.abi.class_memory_local_user → GrantsAlloc os.abi.nv_ok b arg.os21)
        → Returns (λ _ m'. Moves k q b m m') (alloc (some p) arg m)
    unfolding alloc
    alloc-Moves f w g =
        Returns-and_then (λ _ m'. Moves k q b m m') (λ _ m'. Moves k q b m m')
          (post_rm_alloc (some p) arg.os21 m) _ (post_rm_alloc-Moves b p arg.os21 m s f w.parms g)
          λ _ _ t. t

    stay : Moves k q b m m
    stay = (s, same refl)

    -- Whatever the command, `post_ioctl` returns with the mutex free and the account in order.
    pub post_ioctl-Moves :
        (major cmd : ℕ)
        → IsUp sys.shm_calls
        → IsFresh (some p) m
        → IsFormed arg
        → (major ≡ nvidia_device_major → IsGranted os b cmd arg)
        → Returns (λ _ m'. Moves k q b m m') (post_ioctl sys (some p) major minor cmd arg m)
    unfolding post_ioctl
    post_ioctl-Moves major cmd up f w g = elim (Bool-cases (major == nvidia_device_major)) [
      | inl e ↦
          let h = g (ground arith) in
          let heap : (os.abi.ioc_nr cmd ≡ os.abi.esc_rm_vid_heap_control
              → Returns (λ _ m'. Moves k q b m m') (heap_control (some p) minor arg m)) =
            λ c. heap_control-Moves f w (h.heap c) in
          let allocs : (os.abi.ioc_nr cmd ≡ os.abi.esc_rm_alloc
              → Returns (λ _ m'. Moves k q b m m') (alloc (some p) arg m)) =
            λ c. alloc-Moves f w (h.alloc c) in
          rw e (ground (arith, heap, control-Moves up w, release-Moves, allocs, stay))
      | inr e ↦ rw e stay
    ]
