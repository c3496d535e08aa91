-- ===== src/Ioctl/Alloc.antt =====
-- What runs after the driver has made an object: `post_device_rm_alloc`, `post_ctrl_rm_alloc`,
-- `post_memory_rm_alloc`, `post_rm_alloc`, `post_vid_heap_alloc` and `post_rm_vid_heap_control`.
-- `fresh` is what `malloc` returns if the handler calls it, `none` for a null pointer.
pub mod Charge
pub mod OutOfMemory
pub mod Race
pub mod Steady
use nv_resource_controller.Prelude.{
  ℕ, ◌+◌, ◌-◌, ◌%◌, ◌^◌, not, Option, none, some, List, [], ◌∷◌, ◌==◌, if◌then◌else◌,
}
use nv_resource_controller.Prelude.Int.{ℤ, pos, neg}
use nv_resource_controller.Prelude.Run.{Cmd, ok, fault, pure, ◌>>=◌, ◌>>◌}
use nv_resource_controller.Platform.{Platform}
use nv_resource_controller.Hook.Types.{DeviceMem, RmMem, nvidia_ctl_minor}
use nv_resource_controller.Hook.Memory.{Memory, lock, unlock, load_fb, store_fb}
use nv_resource_controller.Ioctl.Params.{AllocParams, AllocParms, MemoryParams, HeapParams}

-- The device id -1, as a 32-bit pattern.
abbrev pub no_device : ℕ
no_device = 2 ^ 32 - 1

-- The loop over `rm_mem_list` of `post_ctrl_rm_alloc` and of the two `fb_get_info` handlers.
unfoldable pub find_device : ℕ → List (ℕ × RmMem) → ℕ
find_device object [] = no_device
find_device object ((_, entry) ∷ xs) =
    if entry.object == object then entry.device_id else find_device object xs

module _ {os : Platform} where
  -- `list_add(&entry->node, &gpu_device.rm_mem_list)`
  unfoldable pub add_rm : ℕ → RmMem → Cmd (Memory os) (Unit {0})
  add_rm p entry m =
      ok tt
        (record m { dev = record m.dev { rm_mem_list = os.rm.list_add p entry m.dev.rm_mem_list } })

  -- `list_add(&entry->node, &gpu_device.heap_mem_list)`
  unfoldable pub add_heap : ℕ → DeviceMem → Cmd (Memory os) (Unit {0})
  add_heap p entry m = ok tt (record m {
    dev = record m.dev { heap_mem_list = os.heap.list_add p entry m.dev.heap_mem_list };
  })

  -- `gpu_device.alloc_mem += size`
  unfoldable pub add_alloc_mem : ℕ → Cmd (Memory os) (Unit {0})
  add_alloc_mem size m =
      ok tt (record m { dev = record m.dev { alloc_mem = (m.dev.alloc_mem + size) % 2 ^ 64 } })

  -- `malloc` of a `rm_mem_t` and what depends on it
  unfoldable pub new_rm : Option ℕ → ℕ → ℕ → Cmd (Memory os) ℤ
  unfolding add_rm unlock
  new_rm none object device_id = unlock >> pure (neg os.abi.enomem)
  new_rm (some p) object device_id =
      add_rm p (record { object = object; device_id = device_id }) >> unlock >> pure (pos 0)

  unfoldable pub device_alloc : Option ℕ → AllocParams → Option AllocParms → Cmd (Memory os) ℤ
  unfolding lock new_rm
  device_alloc fresh api none = λ m. fault
  device_alloc fresh api (some parms) = lock >> new_rm fresh api.h_object_new parms.as_int

  unfoldable pub post_device_rm_alloc : Option ℕ → AllocParams → Cmd (Memory os) ℤ
  unfolding device_alloc
  post_device_rm_alloc fresh api = device_alloc fresh api api.p_alloc_parms

  -- `device_id` by the parent, under the lock
  unfoldable pub parent_device : ℕ → Cmd (Memory os) ℕ
  parent_device parent m = ok (find_device parent (os.rm.entries m.dev.rm_mem_list)) m

  -- From the test for -1 on, the mutex held.
  unfoldable pub ctrl_entry : Option ℕ → ℕ → ℕ → Cmd (Memory os) ℤ
  unfolding unlock new_rm
  ctrl_entry fresh object device_id =
      if device_id == no_device then (unlock >> pure (pos 0)) else new_rm fresh object device_id

  unfoldable pub post_ctrl_rm_alloc : Option ℕ → AllocParams → Cmd (Memory os) ℤ
  unfolding lock parent_device ctrl_entry find_device
  post_ctrl_rm_alloc fresh api = do
    lock
    device_id ← parent_device api.h_object_parent
    ctrl_entry fresh api.h_object_new device_id

  -- The new entry and the two counters, with `p` the address that `malloc` gave.
  unfoldable pub charge : ℕ → DeviceMem → Cmd (Memory os) (Unit {0})
  unfolding add_heap load_fb store_fb add_alloc_mem
  charge p entry = do
    add_heap p entry
    fb ← load_fb
    store_fb (record fb { free_mem = (fb.free_mem + 2 ^ 64 - entry.size) % 2 ^ 64 })
    add_alloc_mem entry.size

  -- From `malloc` to `finish`, which stands behind the unlocking.
  unfoldable pub memory_charge : Option ℕ → MemoryParams → Cmd (Memory os) ℤ
  unfolding unlock
  memory_charge none params = pure (neg os.abi.enomem)
  memory_charge (some p) params = do
    charge p (record { object = params.owner; size = params.size })
    unlock
    pure (pos 0)

  unfoldable pub memory_alloc : Option ℕ → Option AllocParms → Cmd (Memory os) ℤ
  unfolding lock memory_charge
  memory_alloc fresh none = λ m. fault
  memory_alloc fresh (some parms) =
      if parms.as_memory.alignment == 0
      then pure (pos 0)
      else lock >> memory_charge fresh parms.as_memory

  unfoldable pub post_memory_rm_alloc : Option ℕ → AllocParams → Cmd (Memory os) ℤ
  unfolding memory_alloc
  post_memory_rm_alloc fresh api =
      if not (api.status == os.abi.nv_ok)
      then pure (pos 0)
      else memory_alloc fresh api.p_alloc_parms

  unfoldable pub post_rm_alloc : Option ℕ → AllocParams → Cmd (Memory os) ℤ
  post_rm_alloc fresh api =
      if api.h_class == os.abi.class_device
      then post_device_rm_alloc fresh api
      else if api.h_class == os.abi.class_subdevice
      then post_ctrl_rm_alloc fresh api
      else if api.h_class == os.abi.class_memory_local_user
      then post_memory_rm_alloc fresh api
      else pure (pos 0)

  unfoldable pub heap_charge : Option ℕ → HeapParams → Cmd (Memory os) (ℤ × HeapParams)
  unfolding load_fb unlock
  heap_charge none api = pure (neg os.abi.enomem, api)
  heap_charge (some p) api = do
    charge p (record { object = api.alloc_size.h_memory; size = api.alloc_size.size })
    fb ← load_fb
    unlock
    pure (pos 0, record api { total = fb.total_mem; free = fb.free_mem })

  unfoldable pub post_vid_heap_alloc : Option ℕ → HeapParams → Cmd (Memory os) (ℤ × HeapParams)
  unfolding lock heap_charge
  post_vid_heap_alloc fresh api =
      if not (api.status == os.abi.nv_ok)
      then pure (pos 0, api)
      else if api.alloc_size.alignment == 0
      then pure (pos 0, api)
      else lock >> heap_charge fresh api

  unfoldable pub post_rm_vid_heap_control :
      Option ℕ → ℕ → HeapParams → Cmd (Memory os) (ℤ × HeapParams)
  post_rm_vid_heap_control fresh minor api =
      if not (minor == nvidia_ctl_minor)
      then pure (neg os.abi.einval, api)
      else if api.function == os.abi.function_alloc_size
      then post_vid_heap_alloc fresh api
      else pure (pos 0, api)
