-- ===== src/Tests/Honest.antt =====
-- A driver that grants requests on the heap which do not wrap round, and nothing else.
use nv_resource_controller.Prelude.{
  ◌≡◌, ◌≢◌, refl, true, false, not, ◌&&◌, ◌==◌, leb, if◌then◌else◌, some, [], ◌∷◌, arith, Bool,
}
use nv_resource_controller.Prelude.Int.{pos}
use nv_resource_controller.Prelude.Run.{ok}
use nv_resource_controller.Hook.Memory.{Memory}
use nv_resource_controller.Ioctl.Align.{align_up}
use nv_resource_controller.Ioctl.Params.{Arg, HeapParams}
use nv_resource_controller.Ioctl.Alloc.Charge.{charged_memory}
use nv_resource_controller.Dlfcn.Ioctl.{Driver, ioctl}
use nv_resource_controller.Dlfcn.Ioctl.Charge.{ioctl_charges_heap, answered}
use nv_resource_controller.Dlfcn.Ioctl.Served.{IsServed, KeepsForm}
use nv_resource_controller.Dlfcn.Ioctl.Limit.{HeapGrant, IsHonest, honest_call}
use nv_resource_controller.Processes.{Processes}
use nv_resource_controller.Processes.Limit.{
  HonestReach, here, later, honest_step, IsWithin, IsWithin-HonestReach,
}
use nv_resource_controller.Tests.Machine.{platform, account, memory, calls, init, block}
use nv_resource_controller.Tests.Account.{
  heap_control_cmd, memory-IsReady, memory-sized, calls-IsUp, formed, grants, major_195, minor_255,
  entry, fits_5000,
}
use nv_resource_controller.Tests.Processes.{both, orderly}

abbrev is_granted : HeapParams → Bool
is_granted api =
    leb api.alloc_size.size (align_up api.alloc_size.size api.alloc_size.alignment)
    && not (api.alloc_size.alignment == 0)

abbrev answer : HeapParams → HeapParams
answer api = if is_granted api then api else record api { status = 0x51 }

abbrev honest_driver : Driver
honest_driver fd cmd arg =
    (pos 0, record arg { os32 = answer arg.os32; os21 = record arg.os21 { status = 0x51 } })

if_granted-HeapGrant :
    (b : Bool) (api : HeapParams)
    → is_granted api ≡ b
    → let after : HeapParams = if b then api else record api { status = 0x51 } in
      after.function ≡ 2 → after.status ≡ 0 → after.alloc_size.alignment ≢ 0 → HeapGrant 2 api after
if_granted-HeapGrant true api e f s a = record {
  function = f;
  aligned = a;
  size = ground (arith, e);
}
if_granted-HeapGrant false api e f s a = absurd (omega (arith, s))

honest : IsHonest platform honest_driver
honest = record {
  heap = λ fd cmd arg w c f s a. if_granted-HeapGrant (is_granted arg.os32) arg.os32 refl f s a;
  alloc = λ fd cmd arg parms w c h e s a. absurd (omega (arith, s));
}

keeps : KeepsForm honest_driver
keeps fd cmd arg w = record {
  parms = w.parms;
  fits = w.fits;
  fits_v2 = w.fits_v2;
  word = ground (arith, w.word);
}

served : IsServed calls honest_driver 1
served = record { malloc = refl; up = calls-IsUp; keeps = keeps }

abbrev charged : Memory platform
charged = charged_memory 0 account 1 entry memory

grants_it : answer (block 5000 256).os32 ≡ (block 5000 256).os32
unfolding align_up
grants_it = refl

answer_lem :
    honest_driver 4 heap_control_cmd (block 5000 256)
    ≡ (pos 0, record (block 5000 256) { os21 = record (block 5000 256).os21 { status = 0x51 } })
answer_lem = rw grants_it refl

abbrev after : Arg
after = record (block 5000 256) { os21 = record (block 5000 256).os21 { status = 0x51 } }

call_lem :
    ioctl calls (some honest_driver) init 4 heap_control_cmd (block 5000 256) memory
    ≡ ok (pos 0, answered account after) charged
call_lem =
    (ioctl_charges_heap calls honest_driver 4 heap_control_cmd (block 5000 256) after memory 1 init
      memory-IsReady (omega arith) refl major_195 minor_255 refl (omega arith) answer_lem grants
      fits_5000).0

abbrev one_charged : Processes platform
one_charged = record { devs = charged.dev ∷ memory.dev ∷ []; shm = charged.shm }

reach : HonestReach both one_charged
reach = later {t = both} here (
    honest_step [] (memory.dev ∷ []) memory.dev charged refl (
      honest_call calls honest_driver 1 init 4 heap_control_cmd (block 5000 256)
        (answered account after) (pos 0) served honest (refl, refl) formed call_lem))

within : IsWithin 0 0x10_0000 both
within = record {
  orderly = (orderly, (orderly, tt));
  fb = account;
  held = refl;
  sized = memory-sized;
  word = omega arith;
  exact = refl;
}

IsWithin-HonestReach_example : IsWithin 0 0x10_0000 one_charged
IsWithin-HonestReach_example = IsWithin-HonestReach 0 0x10_0000 both one_charged reach within
