-- ===== src/Ioctl/Free.antt =====
-- `free_device_page`, `free_heap_page` and `post_rm_free`.
pub mod Choice
pub mod Entries
pub mod Release
pub mod Steady
use nv_resource_controller.Prelude.{
  ℕ, ◌+◌, ◌-◌, ◌%◌, ◌^◌, not, Option, none, some, List, [], ◌∷◌, ◌==◌, if◌then◌else◌,
}
use nv_resource_controller.Prelude.Int.{ℤ, pos, neg}
use nv_resource_controller.Prelude.Run.{Cmd, ok, pure, ◌>>=◌, ◌>>◌}
use nv_resource_controller.Platform.{Platform}
use nv_resource_controller.Hook.Types.{DeviceMem, RmMem, nvidia_ctl_minor}
use nv_resource_controller.Hook.Memory.{Memory, lock, unlock, load_fb, store_fb}
use nv_resource_controller.Ioctl.Params.{FreeParams}

-- The loops of `free_device_page` and `free_heap_page`: `entry` is left at the first entry with that
-- object, or, where there is none, at the last one of the list; it is null only on the empty list.
unfoldable pub seek : {A : Type 0} → (A → ℕ) → ℕ → Option (ℕ × A) → List (ℕ × A) → Option (ℕ × A)
seek object page entry [] = entry
seek object page entry (x ∷ xs) =
    if object x.1 == page then some x else seek object page (some x) xs

module _ {os : Platform} where
  -- `if (entry) { list_del(&entry->node); free(entry); }`
  unlink_rm : Option (ℕ × RmMem) → Cmd (Memory os) (Unit {0})
  unlink_rm none m = ok tt m
  unlink_rm (some (p, entry)) m =
      ok tt (record m { dev = record m.dev { rm_mem_list = os.rm.list_del p m.dev.rm_mem_list } })

  unfoldable pub free_device_page : ℕ → Cmd (Memory os) (Unit {0})
  unfolding seek unlink_rm
  free_device_page page m =
      unlink_rm (seek (λ e. e.object) page none (os.rm.entries m.dev.rm_mem_list)) m

  -- `gpu_device.alloc_mem -= entry->size`, `list_del` and `free`
  drop_heap : ℕ → DeviceMem → Cmd (Memory os) (Unit {0})
  drop_heap p entry m = ok tt (record m {
    dev = record m.dev {
      alloc_mem = (m.dev.alloc_mem + 2 ^ 64 - entry.size) % 2 ^ 64;
      heap_mem_list = os.heap.list_del p m.dev.heap_mem_list;
    };
  })

  -- `if (entry) { ... }`: the size goes back to `free_mem`
  unfoldable pub unlink_heap : Option (ℕ × DeviceMem) → Cmd (Memory os) (Unit {0})
  unfolding load_fb store_fb drop_heap
  unlink_heap none = pure tt
  unlink_heap (some (p, entry)) = do
    fb ← load_fb
    store_fb (record fb { free_mem = (fb.free_mem + entry.size) % 2 ^ 64 })
    drop_heap p entry

  unfoldable pub free_heap_page : ℕ → Cmd (Memory os) (Unit {0})
  unfolding seek unlink_heap
  free_heap_page page m =
      unlink_heap (seek (λ e. e.object) page none (os.heap.entries m.dev.heap_mem_list)) m

  -- The choice by the parent of the freed object.
  unfoldable pub free_page : FreeParams → Cmd (Memory os) (Unit {0})
  free_page api =
      if api.h_root == api.h_object_parent
      then free_device_page api.h_object_old
      else free_heap_page api.h_object_old

  -- The body of `post_rm_free` from the lock to the end.
  unfoldable pub locked_free : FreeParams → Cmd (Memory os) ℤ
  unfolding lock unlock
  locked_free api = do lock; free_page api; unlock; pure (pos 0)

  unfoldable pub post_rm_free : ℕ → FreeParams → Cmd (Memory os) ℤ
  post_rm_free minor api =
      if not (minor == nvidia_ctl_minor)
      then pure (neg os.abi.einval)
      else if not (api.status == os.abi.nv_ok)
      then pure (pos 0)
      else if api.h_object_old == api.h_root
      then pure (pos 0)
      else locked_free api
