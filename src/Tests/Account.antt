-- ===== src/Tests/Account.antt =====
-- Calls of `ioctl` that allocate and release, on the machine of `Machine`.
use nv_resource_controller.Prelude.{ℕ, [], true, ◌≡◌, ◌≢◌, refl, false, true, some, arith, ◌≤◌, ◌+◌}
use nv_resource_controller.Prelude.Run.{Returns, ok}
use nv_resource_controller.Prelude.Int.{pos}
use nv_resource_controller.Hook.Types.{nvidia_ctl_minor, DeviceMem}
use nv_resource_controller.Hook.Memory.{Memory, empty}
use nv_resource_controller.Util.ShmAddr.Up.{IsUp}
use nv_resource_controller.Ioctl.Account.{IsSteady, IsReady}
use nv_resource_controller.Ioctl.Alloc.Charge.{charged_memory, charged_fb}
use nv_resource_controller.Ioctl.Pre.Check.{exceeds}
use nv_resource_controller.Util.DeviceNumber.{get_device_number}
use nv_resource_controller.Ioctl.Align.{align_up}
use nv_resource_controller.Ioctl.Post.Steady.{IsFormed}
use nv_resource_controller.Dlfcn.Ioctl.{Calls, ioctl, with_driver, guarded, limited, redirect}
use nv_resource_controller.Ioctl.Pre.{pre_ioctl}
use nv_resource_controller.Ioctl.Post.{post_ioctl, release}
use nv_resource_controller.Ioctl.Free.Entries.{first_match}
use nv_resource_controller.Ioctl.Free.Choice.{chosen, IsHeapFree, post_rm_free-chosen}
use nv_resource_controller.Ioctl.Free.Release.{freed_memory}
use nv_resource_controller.Dlfcn.Ioctl.Ledgers.{Ledger, Represents, Follows, History-Follows}
use nv_resource_controller.Dlfcn.Ioctl.Served.{IsServed, Given}
use nv_resource_controller.Dlfcn.Ioctl.Steady.{ioctl-IsSteady, Call, call, History, here, next}
use nv_resource_controller.Dlfcn.Ioctl.Charge.{Grants, ioctl_charges_heap, answered}
use nv_resource_controller.Dlfcn.Ioctl.Refusal.{numbers, is_nvidia}
use nv_resource_controller.Tests.Machine.{
  platform, account, memory, shm_calls, calls, driver, init, block, heap_request, free_request,
  alloc_parms,
}

-- `_IOWR` numbers of the two commands, as far as the platform reads them.
abbrev pub heap_control_cmd : ℕ
heap_control_cmd = 0xc0b8_464a

abbrev rm_alloc : ℕ
rm_alloc = 0xc020_462b

pub memory-IsReady : IsReady 0 account memory
memory-IsReady = record { unlocked = refl; mapped = refl; held = refl }

pub memory-sized : (j : ℕ) → memory.shm j ≢ empty
memory-sized j = ground arith

pub memory-IsSteady : IsSteady 0 0x10_0000 memory
memory-IsSteady = (
  refl,
  record {
    fb = account;
    mapped = refl;
    held = refl;
    quota = refl;
    charged = refl;
    free_word = omega arith;
    words = tt;
    heap_distinct = tt;
    rm_distinct = tt;
    sized = memory-sized;
  },
)

pub calls-IsUp : IsUp shm_calls
calls-IsUp = record { excl = refl; open' = refl; truncate = refl; map = refl }

pub served : IsServed calls driver 1
served = record { malloc = refl; up = calls-IsUp; keeps = λ fd cmd arg w. w }

pub formed : IsFormed (block 5000 256)
formed = record {
  parms = (alloc_parms 5000, refl, omega arith);
  fits = omega arith;
  fits_v2 = omega arith;
  word = omega arith;
}

given : Given 0 0x10_0000 1 (block 5000 256) memory
given = (memory-IsSteady, (refl, refl), formed)

ioctl-IsSteady_example :
    Returns
      (λ _ m'. IsSteady 0 0x10_0000 m')
      (ioctl calls (some driver) init 4 heap_control_cmd (block 5000 256) memory)
ioctl-IsSteady_example =
    ioctl-IsSteady 0 0x10_0000 calls driver 1 served init 4 heap_control_cmd (block 5000 256) memory
      given

-- 5000 bytes in pages of 256 come to 5120.
rounded : 5000 ≤ align_up 5000 256
unfolding align_up
rounded = omega arith

pub grants : Grants 0 2 (heap_request 5000 256) (heap_request 5000 256)
grants = record {
  function = refl;
  same_function = refl;
  aligned = omega arith;
  still_aligned = omega arith;
  status = refl;
  size = rounded;
}

pub fits_5000 : exceeds 5000 256 account ≡ false
unfolding align_up
fits_5000 = refl

abbrev pub entry : DeviceMem
entry = record { object = 5; size = 5000 }

pub major_195 : is_nvidia calls 4 ≡ true
unfolding get_device_number
major_195 = refl

pub minor_255 : (numbers calls 4).2 ≡ nvidia_ctl_minor
unfolding get_device_number
minor_255 = refl

ioctl_charges_heap_example :
    (ioctl calls (some driver) init 4 heap_control_cmd (block 5000 256) memory
      ≡ ok (pos 0, answered account (block 5000 256)) (charged_memory 0 account 1 entry memory))
    × ((charged_fb account 5000).free_mem + 5000 ≡ 0x10_0000)
ioctl_charges_heap_example =
    ioctl_charges_heap calls driver 4 heap_control_cmd (block 5000 256) (block 5000 256) memory 1
      init memory-IsReady (omega arith) refl major_195 minor_255 refl (omega arith) refl grants
      fits_5000

ioctl_alloc :
    ioctl calls (some driver) init 4 heap_control_cmd (block 5000 256) memory
    ≡ ok (pos 0, answered account (block 5000 256)) (charged_memory 0 account 1 entry memory)
ioctl_alloc =
    (ioctl_charges_heap calls driver 4 heap_control_cmd (block 5000 256) (block 5000 256) memory 1
      init memory-IsReady (omega arith) refl major_195 minor_255 refl (omega arith) refl grants
      fits_5000).0

abbrev pub charged : Memory platform
charged = charged_memory 0 account 1 entry memory

-- The second call: `malloc` gives another address.
abbrev calls' : Calls
calls' = record calls { fresh = some 2 }

abbrev pub freed : Memory platform
freed = freed_memory 0 (charged_fb account 5000) 1 entry charged

pub charged-IsReady : IsReady 0 (charged_fb account 5000) charged
charged-IsReady = record { unlocked = refl; mapped = refl; held = refl }

heap_free : IsHeapFree 0 (free_request 5)
heap_free = record { status = refl; not_root = omega arith; not_child = omega arith }

found : chosen 5 charged ≡ some (1, entry)
unfolding first_match
found = refl

ioctl_free :
    ioctl calls' (some driver) init 4 0xc010_4629 (block 5000 256) charged
    ≡ ok (pos 0, block 5000 256) freed
unfolding ioctl with_driver limited get_device_number guarded redirect pre_ioctl post_ioctl release
ioctl_free =
    rw (post_rm_free-chosen charged (free_request 5) 1 entry charged-IsReady heap_free found) refl

served' : IsServed calls' driver 2
served' = record { malloc = refl; up = calls-IsUp; keeps = λ fd cmd arg w. w }

pub charge-Call : Call memory charged
charge-Call =
    call calls driver 1 init 4 heap_control_cmd (block 5000 256) (answered account (block 5000 256))
      (pos 0) served (refl, refl) formed ioctl_alloc

-- An allocation and its release.
history : History memory freed
history = next {t = charged} (next {t = memory} here charge-Call) (
    call calls' driver 2 init 4 0xc010_4629 (block 5000 256) (block 5000 256) (pos 0) served'
      (refl, refl) formed ioctl_free)

abbrev whole : Ledger
whole = record { quota = 0x10_0000; charges = [] }

represented : Represents 0 whole memory
represented = record {
  steady = memory-IsSteady;
  charges = refl;
  fb = account;
  held = refl;
  free = refl;
}

History-Follows_example : Follows 0 whole history
History-Follows_example = History-Follows 0 whole memory freed represented history
