-- ===== src/Cuda/Launch/Quota.antt =====
-- The tokens against a sequence of launches.
use nv_resource_controller.Prelude.{
  ℕ, zero, suc, ◌+◌, ◌-◌, ◌%◌, ◌^◌, ◌<◌, ◌≡◌, refl, true, some, List, [], ◌∷◌, map, length, leb,
  ◌==◌, if◌then◌else◌, arith,
}
use nv_resource_controller.Prelude.Int.{ℤ}
use nv_resource_controller.Prelude.Run.{Cmd, ok, blocked, pure, ◌>>=◌}
use nv_resource_controller.Cuda.{
  EntryEnum, cu_launch_kernel, cu_launch_kernel_ex, cu_launch_kernel_ptsz, cu_launch_kernel_ex_ptsz,
  hook_table, HookState, KernelArgs, KernelExArgs, CudaDriver, cuda_entry,
}
use nv_resource_controller.Cuda.Launch.{
  Wait, interrupted, sem_wait, rate_limit, hook_cu_launch_kernel, hook_cu_launch_kernel_ptsz,
  hook_cu_launch_kernel_ex, hook_cu_launch_kernel_ex_ptsz,
}

-- A launch by an application.
pub data Launch : Type 0 where
  kernel : KernelArgs → Launch
  kernel_ptsz : KernelArgs → Launch
  kernel_ex : KernelExArgs → Launch
  kernel_ex_ptsz : KernelExArgs → Launch

-- `sem_wait` is interrupted that often.
abbrev pub interruptions : ℕ → List Wait
interruptions zero = []
interruptions (suc n) = interrupted ∷ interruptions n

unfoldable pub hook_launch : CudaDriver → Launch × ℕ → Cmd HookState ℤ
hook_launch driver (kernel args, n) = hook_cu_launch_kernel driver (interruptions n) args
hook_launch driver (kernel_ptsz args, n) = hook_cu_launch_kernel_ptsz driver (interruptions n) args
hook_launch driver (kernel_ex args, n) = hook_cu_launch_kernel_ex driver (interruptions n) args
hook_launch driver (kernel_ex_ptsz args, n) =
    hook_cu_launch_kernel_ex_ptsz driver (interruptions n) args

-- The launches one after the other, each with its interruptions, and their results.
unfoldable pub launch_all : CudaDriver → List (Launch × ℕ) → Cmd HookState (List ℤ)
launch_all driver [] = pure []
launch_all driver (x ∷ xs) = do
  ret ← hook_launch driver x
  rets ← launch_all driver xs
  pure (ret ∷ rets)

-- The driver's own answer to a launch, its functions being at `real`.
abbrev pub answer : CudaDriver → (EntryEnum → ℕ) → Launch × ℕ → ℤ
answer driver real (kernel args, n) = driver.launch_kernel (real cu_launch_kernel) args
answer driver real (kernel_ptsz args, n) =
    driver.launch_kernel_ptsz (real cu_launch_kernel_ptsz) args
answer driver real (kernel_ex args, n) = driver.launch_kernel_ex (real cu_launch_kernel_ex) args
answer driver real (kernel_ex_ptsz args, n) =
    driver.launch_kernel_ex_ptsz (real cu_launch_kernel_ex_ptsz) args

sem_wait-interruptions : (n : ℕ) (s : HookState) → sem_wait (interruptions n) s ≡ sem_wait [] s
unfolding sem_wait
sem_wait-interruptions zero s = refl
sem_wait-interruptions (suc n) s = sem_wait-interruptions n s

-- A limited process, all of whose functions have been found.
abbrev pub limited_state : (hook real : EntryEnum → ℕ) (tokens launches : ℕ) → HookState
limited_state hook real tokens launches = record {
  table = hook_table hook (λ sym. some (real sym));
  core_limited = true;
  tokens = tokens;
  launch_times = some launches;
}

hook_launch_lem :
    (driver : CudaDriver) (hook real : EntryEnum → ℕ) (tokens launches : ℕ) (x : Launch × ℕ)
    → hook_launch driver x (limited_state hook real tokens launches) ≡ (
        if tokens == 0
        then blocked
        else ok
            (answer driver real x)
            (limited_state hook real (tokens - 1) ((launches + 1) % 2 ^ 32)))
unfolding hook_launch hook_cu_launch_kernel hook_cu_launch_kernel_ptsz hook_cu_launch_kernel_ex
    hook_cu_launch_kernel_ex_ptsz rate_limit cuda_entry sem_wait
hook_launch_lem driver hook real tokens launches (kernel args, n) =
    rw (sem_wait-interruptions n (limited_state hook real tokens launches)) (ground arith)
hook_launch_lem driver hook real tokens launches (kernel_ptsz args, n) =
    rw (sem_wait-interruptions n (limited_state hook real tokens launches)) (ground arith)
hook_launch_lem driver hook real tokens launches (kernel_ex args, n) =
    rw (sem_wait-interruptions n (limited_state hook real tokens launches)) (ground arith)
hook_launch_lem driver hook real tokens launches (kernel_ex_ptsz args, n) =
    rw (sem_wait-interruptions n (limited_state hook real tokens launches)) (ground arith)

-- In a limited process whose functions have all been found, every launch takes one token and is
-- counted; the driver's answer is returned. With fewer tokens than launches the sequence waits,
-- however often `sem_wait` is interrupted.
pub launch_all_lem :
    (driver : CudaDriver) (hook real : EntryEnum → ℕ) (xs : List (Launch × ℕ)) (tokens launches : ℕ)
    → launches < 2 ^ 32
    → launch_all driver xs (limited_state hook real tokens launches) ≡ (
        if leb (length xs) tokens
        then ok
            (map (answer driver real) xs)
            (limited_state hook real (tokens - length xs) ((launches + length xs) % 2 ^ 32))
        else blocked)
unfolding launch_all
launch_all_lem driver hook real [] tokens launches h = ground arith
launch_all_lem driver hook real (x ∷ xs) tokens launches h =
    rw (hook_launch_lem driver hook real tokens launches x) (
      ground (
        arith,
        launch_all_lem driver hook real xs (tokens - 1) ((launches + 1) % 2 ^ 32) (omega arith),
      ))
