-- ===== src/Tests/Processes.antt =====
-- Two processes on the machine of `Machine`, and a third that starts.
use nv_resource_controller.Prelude.{◌+◌, ◌-◌, ◌*◌, ◌%◌, ◌^◌, ◌≡◌, refl, false, [], ◌∷◌, arith}
use nv_resource_controller.Prelude.Int.{pos}
use nv_resource_controller.Prelude.Run.{Returns}
use nv_resource_controller.Hook.Types.{FbInfo, DeviceMem}
use nv_resource_controller.Hook.Memory.{holds, Memory}
use nv_resource_controller.Ioctl.Account.{IsReady}
use nv_resource_controller.Ioctl.Pre.Check.{exceeds}
use nv_resource_controller.Ioctl.Align.{align_up}
use nv_resource_controller.Ioctl.Alloc.Charge.{charged_memory, charged_fb}
use nv_resource_controller.Dlfcn.Ioctl.Charge.{ioctl_charges_heap, answered}
use nv_resource_controller.Dlfcn.Ioctl.Steady.{Call, call}
use nv_resource_controller.Init.{init_device_prop}
use nv_resource_controller.Init.State.{InitState}
use nv_resource_controller.Processes.{Processes, Reach, here, later, step}
use nv_resource_controller.Processes.Shared.{IsOrderly, IsShared, IsShared-Reach}
use nv_resource_controller.Processes.Join.{joined, quota_joined, init_device_prop-joins}
use nv_resource_controller.Processes.LostUpdate.{
  Pair, accounted, load_charge_store, load_charge_store_loses,
}
use nv_resource_controller.Tests.Machine.{platform, account, memory, calls, driver, init, block}
use nv_resource_controller.Tests.Account.{
  heap_control_cmd, memory-sized, served, formed, grants, major_195, minor_255, entry, charged,
  charge-Call,
}
use nv_resource_controller.Tests.Limits.{double}
use nv_resource_controller.Tests.Setup.{sys, state, limit_read, no_core}

abbrev pub both : Processes platform
both = record { devs = memory.dev ∷ memory.dev ∷ []; shm = memory.shm }

-- The first process has been charged for 5000 bytes.
abbrev one_charged : Processes platform
one_charged = record { devs = charged.dev ∷ memory.dev ∷ []; shm = charged.shm }

-- What the second process sees then, and its own charge.
abbrev second : Memory platform
second = record { dev = memory.dev; shm = charged.shm }

abbrev second_charged : Memory platform
second_charged = charged_memory 0 (charged_fb account 5000) 1 entry second

abbrev both_charged : Processes platform
both_charged = record { devs = charged.dev ∷ second_charged.dev ∷ []; shm = second_charged.shm }

second-IsReady : IsReady 0 (charged_fb account 5000) second
second-IsReady = record { unlocked = refl; mapped = refl; held = refl }

still_fits : exceeds 5000 256 (charged_fb account 5000) ≡ false
unfolding align_up
still_fits = refl

second-Call : Call second second_charged
second-Call =
    call calls driver 1 init 4 heap_control_cmd (block 5000 256)
      (answered (charged_fb account 5000) (block 5000 256)) (pos 0) served (refl, refl) formed
      (ioctl_charges_heap calls driver 4 heap_control_cmd (block 5000 256) (block 5000 256) second 1
        init second-IsReady (omega arith) refl major_195 minor_255 refl (omega arith) refl grants
        still_fits).0

reach : Reach both both_charged
reach =
    later {t = one_charged}
      (later {t = both} here (step [] (memory.dev ∷ []) memory.dev charged refl charge-Call))
      (step (charged.dev ∷ []) [] memory.dev second_charged refl second-Call)

pub orderly : IsOrderly 0 memory.dev
orderly = record {
  unlocked = refl;
  mapped = refl;
  charged = refl;
  words = tt;
  heap_distinct = tt;
  rm_distinct = tt;
}

shared : IsShared 0 0x10_0000 both
shared = record {
  orderly = (orderly, (orderly, tt));
  fb = account;
  held = refl;
  free_word = omega arith;
  sized = memory-sized;
  quota = refl;
}

IsShared-Reach_example : IsShared 0 0x10_0000 both_charged
IsShared-Reach_example = IsShared-Reach 0 0x10_0000 both both_charged reach shared

-- A process that starts once the owner of the account, process 7, is gone
abbrev starting : InitState platform
starting = record state { mem = record state.mem { shm = both_charged.shm } }

init_device_prop-joins_example :
    Returns
      (λ _ t.
        IsShared 0
          (quota_joined sys
            (512 * 2 ^ 20)
            (omega arith)
            (IsShared-Reach 0 0x10_0000 both both_charged reach shared))
          (joined sys (512 * 2 ^ 20) (omega arith) t both_charged))
      (init_device_prop double sys starting)
init_device_prop-joins_example =
    init_device_prop-joins sys (512 * 2 ^ 20) (omega arith) double 0 0x10_0000 both_charged starting
      (IsShared-Reach 0 0x10_0000 both both_charged reach shared) refl limit_read no_core
      (record { excl = refl; open' = refl; truncate = refl; map = refl })
      (record {
        unlocked = refl;
        nothing = refl;
        core = refl;
        sized = (IsShared-Reach 0 0x10_0000 both both_charged reach shared).sized;
      })

abbrev pair : Pair platform
pair = record { a = memory.dev; b = memory.dev; shm = memory.shm }

abbrev bigger : DeviceMem
bigger = record { object = 6; size = 9000 }

load_charge_store_loses_example :
    Returns
      (λ _ t.
        let left : FbInfo = record account { free_mem = (0x10_0000 + 2 ^ 64 - 5000) % 2 ^ 64 } in
        (t.shm 0 ≡ holds left)
        × (t.b.alloc_mem ≡ (0 + 9000) % 2 ^ 64)
        × (accounted left t ≡ (accounted account pair + 9000) % 2 ^ 64))
      (load_charge_store 1 1 entry bigger pair)
load_charge_store_loses_example =
    load_charge_store_loses 0 account pair 1 1 entry bigger refl refl refl (omega arith)
