-- ===== src/Cuda/Launch.antt =====
-- `rate_limit` and the four launch functions of src/cuda_hook.c.
pub mod Quota
use nv_resource_controller.Prelude.{
  ℕ, ◌+◌, ◌-◌, ◌%◌, ◌^◌, Option, none, some, List, [], ◌∷◌, ◌==◌, if◌then◌else◌,
}
use nv_resource_controller.Prelude.Int.{ℤ, pos, negsuc, neg, is_nonzero}
use nv_resource_controller.Prelude.Run.{Cmd, ok, fault, blocked, pure, ◌>>=◌, ◌>>◌}
use nv_resource_controller.Cuda.{
  EntryEnum, cu_launch_kernel, cu_launch_kernel_ex, cu_launch_kernel_ptsz, cu_launch_kernel_ex_ptsz,
  HookState, cuda_entry, KernelArgs, KernelExArgs, CudaDriver,
}

-- A `sem_wait` that does not take a token: it returns -1 with `EINTR`, or with another error.
pub data Wait : Type 0 where
  interrupted : Wait
  failed : Wait

-- Only signals interrupt the wait.
abbrev pub AllInterrupted : List Wait → Type 0
AllInterrupted [] = Unit {0}
AllInterrupted (interrupted ∷ waits) = AllInterrupted waits
AllInterrupted (failed ∷ waits) = ⊥

-- `while ((ret = sem_wait(&dev->tokens)) == -1 && errno == EINTR)`: after what the list says, the
-- semaphore itself, which waits at 0.
unfoldable pub sem_wait : List Wait → Cmd HookState ℤ
sem_wait [] s = if s.tokens == 0 then blocked else ok (pos 0) (record s { tokens = s.tokens - 1 })
sem_wait (interrupted ∷ waits) s = sem_wait waits s
sem_wait (failed ∷ waits) s = ok (neg 1) s

count_at : Option ℕ → Cmd HookState (Unit {0})
count_at none s = fault
count_at (some n) s = ok tt (record s { launch_times = some ((n + 1) % 2 ^ 32) })

-- `atomic_fetch_add(&param->launch_times, 1)`
count_launch : Cmd HookState (Unit {0})
unfolding count_at
count_launch s = count_at s.launch_times s

-- `if (ret == -1) { ... ret = 999; }`
abbrev launch_error : ℤ → ℤ
launch_error (pos n) = pos n
launch_error (negsuc n) = if n == 0 then pos 999 else negsuc n

limited_launch : List Wait → Cmd HookState ℤ
unfolding sem_wait count_launch
limited_launch waits = do ret ← sem_wait waits; count_launch; pure (launch_error ret)

unfoldable pub rate_limit : List Wait → Cmd HookState ℤ
unfolding limited_launch
rate_limit waits s = if s.core_limited then limited_launch waits s else ok (pos 0) s

-- The function of the table, called with arguments that are passed on.
call_entry : EntryEnum → (ℕ → ℤ) → Cmd HookState ℤ
unfolding cuda_entry
call_entry sym function = do entry ← cuda_entry sym; pure (function entry)

unfoldable pub hook_cu_launch_kernel : CudaDriver → List Wait → KernelArgs → Cmd HookState ℤ
unfolding rate_limit call_entry
hook_cu_launch_kernel driver waits args = do
  ret ← rate_limit waits
  if is_nonzero ret
      then pure ret
      else call_entry cu_launch_kernel (λ entry. driver.launch_kernel entry args)

unfoldable pub hook_cu_launch_kernel_ptsz : CudaDriver → List Wait → KernelArgs → Cmd HookState ℤ
unfolding rate_limit call_entry
hook_cu_launch_kernel_ptsz driver waits args = do
  ret ← rate_limit waits
  if is_nonzero ret
      then pure ret
      else call_entry cu_launch_kernel_ptsz (λ entry. driver.launch_kernel_ptsz entry args)

unfoldable pub hook_cu_launch_kernel_ex : CudaDriver → List Wait → KernelExArgs → Cmd HookState ℤ
unfolding rate_limit call_entry
hook_cu_launch_kernel_ex driver waits args = do
  ret ← rate_limit waits
  if is_nonzero ret
      then pure ret
      else call_entry cu_launch_kernel_ex (λ entry. driver.launch_kernel_ex entry args)

unfoldable pub hook_cu_launch_kernel_ex_ptsz :
    CudaDriver → List Wait → KernelExArgs → Cmd HookState ℤ
unfolding rate_limit call_entry
hook_cu_launch_kernel_ex_ptsz driver waits args = do
  ret ← rate_limit waits
  if is_nonzero ret
      then pure ret
      else call_entry cu_launch_kernel_ex_ptsz (λ entry. driver.launch_kernel_ex_ptsz entry args)
