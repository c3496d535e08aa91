-- ===== src/Tests/Requests.antt =====
-- Calls of `ioctl` that are refused or passed on, on the machine of `Machine`.
use nv_resource_controller.Prelude.{ℕ, true, ◌≡◌, refl, false, true, some, arith}
use nv_resource_controller.Prelude.Run.{ok}
use nv_resource_controller.Prelude.Int.{pos}
use nv_resource_controller.Ioctl.Account.{IsReady}
use nv_resource_controller.Ioctl.Pre.Check.{exceeds}
use nv_resource_controller.Util.DeviceNumber.{get_device_number}
use nv_resource_controller.Ioctl.Align.{align_up}
use nv_resource_controller.Dlfcn.Ioctl.{ioctl}
use nv_resource_controller.Dlfcn.Ioctl.Refusal.{
  ioctl_refuses_heap, ioctl_refuses_alloc, ioctl_transparent, is_nvidia,
}
use nv_resource_controller.Tests.Machine.{
  account, memory, calls, driver, init, block, heap_request, alloc_request, alloc_parms,
}

abbrev heap_control_cmd : ℕ
heap_control_cmd = 0xc0b8_464a

abbrev rm_alloc : ℕ
rm_alloc = 0xc020_462b

ready : IsReady 0 account memory
ready = record { unlocked = refl; mapped = refl; held = refl }

nvidia : is_nvidia calls 4 ≡ true
unfolding get_device_number
nvidia = refl

too_much : exceeds 0x20_0000 256 account ≡ true
unfolding align_up
too_much = refl

ioctl_refuses_heap_example :
    ioctl calls (some driver) init 4 heap_control_cmd (block 0x20_0000 256) memory
    ≡ ok
        (
          pos 0,
          record (block 0x20_0000 256) {
            os32 = record (heap_request 0x20_0000 256) {
              status = 0x51;
              total = account.total_mem;
              free = account.free_mem;
            };
          },
        )
        memory
ioctl_refuses_heap_example =
    ioctl_refuses_heap calls driver 4 heap_control_cmd (block 0x20_0000 256) memory init refl nvidia
      ready (omega arith) refl too_much

ioctl_refuses_alloc_example :
    ioctl calls (some driver) init 4 rm_alloc (block 0x20_0000 256) memory
    ≡ ok
        (
          pos 0,
          record (block 0x20_0000 256) {
            os21 = record (alloc_request 0x40 0x20_0000) { status = 0x51 };
          },
        )
        memory
ioctl_refuses_alloc_example =
    ioctl_refuses_alloc calls driver 4 rm_alloc (block 0x20_0000 256) memory init
      (alloc_parms 0x20_0000) refl nvidia ready (omega arith) refl refl too_much

other : is_nvidia calls 5 ≡ false
unfolding get_device_number
other = refl

ioctl_transparent_example :
    ioctl calls (some driver) init 5 heap_control_cmd (block 5000 256) memory
    ≡ ok (pos 0, block 5000 256) memory
ioctl_transparent_example =
    ioctl_transparent calls driver 5 heap_control_cmd (block 5000 256) memory init other
