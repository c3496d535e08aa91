-- ===== src/Tests/Handlers.antt =====
-- The handlers of src/ioctl_hook.c and what they use, on the machine of `Machine`.
use nv_resource_controller.Prelude.{
  ◌⊎◌, Bool-cases, ◌==◌, inl, inr, ℕ, ◌+◌, ◌-◌, ◌*◌, ◌^◌, ◌≤◌, ◌<◌, ◌≡◌, ◌≢◌, refl, false, true,
  none, some, arith,
}
use nv_resource_controller.Prelude.Int.{pos}
use nv_resource_controller.Prelude.Run.{Returns, and_then, ok, blocked}
use nv_resource_controller.Hook.Memory.{holds}
use nv_resource_controller.Ioctl.Alloc.{post_vid_heap_alloc}
use nv_resource_controller.Ioctl.Alloc.OutOfMemory.{post_vid_heap_alloc_deadlock}
use nv_resource_controller.Ioctl.Alloc.Race.{FitsAlone, check_check_charge_charge, race_wraps}
use nv_resource_controller.Ioctl.Align.{align_up}
use nv_resource_controller.Ioctl.Align.Rounding.{align_up_least}
use nv_resource_controller.Ioctl.Control.{post_rm_control_fb_get_info, fb_kib, fill}
use nv_resource_controller.Ioctl.Control.Answers.{Tells, post_rm_control_fb_get_info_lem}
use nv_resource_controller.Hook.Types.{FbInfo}
use nv_resource_controller.Ioctl.Control.Reported.{heap_free_as_heap_size}
use nv_resource_controller.Ioctl.Free.{post_rm_free}
use nv_resource_controller.Ioctl.Free.Entries.{first_match, last}
use nv_resource_controller.Ioctl.Free.Choice.{
  IsHeapFree, IsBack, chosen, post_rm_free-chosen, post_rm_free-post_vid_heap_alloc,
}
use nv_resource_controller.Ioctl.Free.Release.{freed_memory}
use nv_resource_controller.Ioctl.Pre.{pre_vid_heap_alloc}
use nv_resource_controller.Ioctl.Pre.Least.{HasRoom, told_no, pre_vid_heap_alloc_least}
use nv_resource_controller.Ioctl.Pre.Wrap.{pre_vid_heap_alloc_wrapped}
use nv_resource_controller.Tests.Machine.{
  platform, account, memory, calls, heap_request, free_request, fb_list,
}
use nv_resource_controller.Tests.Account.{
  memory-IsReady, memory-IsSteady, calls-IsUp, charged, charged-IsReady, entry,
}

free_5 : IsHeapFree 0 (free_request 5)
free_5 = record { status = refl; not_root = omega arith; not_child = omega arith }

post_rm_free-post_vid_heap_alloc_example :
    Returns
      (λ _ m'. IsBack 0 memory-IsSteady.1.fb memory m')
      (and_then
        (post_vid_heap_alloc (some 1) (heap_request 5000 256) memory)
        (λ _. post_rm_free 255 (free_request 5)))
post_rm_free-post_vid_heap_alloc_example =
    post_rm_free-post_vid_heap_alloc memory 1 (heap_request 5000 256) (free_request 5)
      memory-IsSteady refl refl (omega arith) (omega arith) free_5 refl

free_9 : IsHeapFree 0 (free_request 9)
free_9 = record { status = refl; not_root = omega arith; not_child = omega arith }

last_one : chosen 9 charged ≡ some (1, entry)
unfolding first_match last
last_one = refl

-- Nothing was recorded for handle 9: the allocation of handle 5 is given back.
post_rm_free-chosen_example :
    post_rm_free 255 (free_request 9) charged
    ≡ ok (pos 0) (freed_memory 0 (record account { free_mem = 0x10_0000 - 5000 }) 1 entry charged)
post_rm_free-chosen_example =
    post_rm_free-chosen charged (free_request 9) 1 entry charged-IsReady free_9 last_one

pre_vid_heap_alloc_least_example :
    (HasRoom 0x20_0000 256 0x10_0000
      × (pre_vid_heap_alloc (heap_request 0x20_0000 256) memory
          ≡ ok (pos 0, heap_request 0x20_0000 256, false) memory))
    ⊎ (¬ HasRoom 0x20_0000 256 0x10_0000
        × (pre_vid_heap_alloc (heap_request 0x20_0000 256) memory
            ≡ ok (pos 0, told_no platform account (heap_request 0x20_0000 256), true) memory))
pre_vid_heap_alloc_least_example =
    pre_vid_heap_alloc_least {m = memory} (heap_request 0x20_0000 256) 8 memory-IsReady refl refl
      (omega arith) (omega arith)

align_up_least_example :
    (5000 ≤ align_up 5000 256)
    × (align_up 5000 256 < 5256)
    × ((d : ℕ) × (align_up 5000 256 ≡ d * 256))
align_up_least_example = align_up_least 5000 8 (omega arith) (omega arith)

pre_vid_heap_alloc_wrapped_example :
    pre_vid_heap_alloc (heap_request 0xffff_ffff_ffff_ff80 256) memory
    ≡ ok (pos 0, heap_request 0xffff_ffff_ffff_ff80 256, false) memory
pre_vid_heap_alloc_wrapped_example =
    pre_vid_heap_alloc_wrapped {m = memory} (heap_request 0xffff_ffff_ffff_ff80 256) 8
      memory-IsReady (omega arith) refl (omega arith) (omega arith)

fits_alone : FitsAlone 0 2 account (heap_request 0xc_0000 256)
unfolding align_up
fits_alone = record {
  function = refl;
  status = refl;
  aligned = omega arith;
  fits = refl;
  size = omega arith;
}

-- Twice 768 KiB of 1 MiB.
race_wraps_example :
    Returns
      (λ _ m'.
        (m'.shm 0
          ≡ holds (record account { free_mem = 2 ^ 64 + 0x10_0000 - (0xc_0000 + 0xc_0000) }))
        × (2 ^ 64 ≤ 2 ^ 64 + 0x10_0000 - (0xc_0000 + 0xc_0000) + 0x10_0000))
      (check_check_charge_charge 1 2 (heap_request 0xc_0000 256) (heap_request 0xc_0000 256) memory)
race_wraps_example =
    race_wraps memory 1 2 (heap_request 0xc_0000 256) (heap_request 0xc_0000 256) memory-IsReady
      (omega arith) fits_alone fits_alone (omega arith)

post_vid_heap_alloc_deadlock_example :
    and_then
      (post_vid_heap_alloc none (heap_request 5000 256) memory)
      (λ _. pre_vid_heap_alloc (heap_request 100 256))
    ≡ blocked
post_vid_heap_alloc_deadlock_example =
    post_vid_heap_alloc_deadlock memory refl (heap_request 5000 256) (heap_request 100 256) refl
      (omega arith) refl (omega arith)

words : (j : ℕ) (fb : FbInfo) → memory.shm j ≡ holds fb → fb.free_mem < 2 ^ 64
words j fb e = elim (Bool-cases (j == 0)) [
  | inl z ↦ ground (arith, z, e)
  | inr n ↦ ground (arith, n, e)
]

post_rm_control_fb_get_info_lem_example :
    Returns
      (Tells calls.fb memory 0 0x10_0000 6 fb_list)
      (post_rm_control_fb_get_info calls.fb 6 fb_list memory)
post_rm_control_fb_get_info_lem_example =
    post_rm_control_fb_get_info_lem calls.fb memory 0 0x10_0000 6 fb_list calls-IsUp memory-IsSteady
      (omega arith) words

full : (pid : ℕ) → calls.fb.readlink pid ≢ pos 0
full pid = ground arith

heap_free_as_heap_size_example :
    (fill platform 1024
      (fb_kib calls.fb.readlink account).1
      (record { index = 10; value = 0 })).value
    ≡ (fill platform 1024
        (fb_kib calls.fb.readlink account).1
        (record { index = 9; value = 0 })).value
heap_free_as_heap_size_example = heap_free_as_heap_size platform calls.fb.readlink account 0 full
