-- ===== src/Processes.antt =====
-- Several processes on one device: each has its own `gpu_device` of src/ioctl_hook.c, and all map the
-- account in shared memory.
pub mod Join
pub mod Limit
pub mod LostUpdate
pub mod Shared
use nv_resource_controller.Prelude.{ℕ, ◌+◌, List, [], ◌∷◌, ◌++◌, ◌≡◌}
use nv_resource_controller.Platform.{Platform}
use nv_resource_controller.Hook.Types.{FbInfo}
use nv_resource_controller.Hook.Memory.{Device, Memory, Shm}
use nv_resource_controller.Dlfcn.Ioctl.Steady.{Call}

-- The processes, by what each has in `gpu_device`, and the objects that they share.
pub record Processes (os : Platform) : Type 0 where
  pub devs : List (Device os)
  pub shm : Shm FbInfo

module _ {os : Platform} where
  -- What a process with `gpu_device` `d` sees.
  abbrev pub seen_by : Device os → Shm FbInfo → Memory os
  seen_by d shm = record { dev = d; shm = shm }

  -- What the processes have recorded as theirs, together.
  abbrev pub total_alloc : List (Device os) → ℕ
  total_alloc [] = 0
  total_alloc (d ∷ ds) = d.alloc_mem + total_alloc ds

  -- A call of `ioctl` in one of the processes, from its beginning to its end.
  pub data Step (s : Processes os) : Processes os → Type 0 where
    step :
        (before after : List (Device os)) (d : Device os) (m : Memory os)
        → s.devs ≡ before ++ d ∷ after
        → Call (seen_by d s.shm) m
        → Step s (record { devs = before ++ m.dev ∷ after; shm = m.shm })

  -- Any number of calls in any of them, one after the other.
  pub data Reach (s : Processes os) : Processes os → Type 0 where
    here : Reach s s
    later : {t u : Processes os} → Reach s t → Step t u → Reach s u
