-- ===== src/Hook/Memory.antt =====
-- The memory of one process: `gpu_device` of src/ioctl_hook.c, and the shared objects
-- `/cuda_hook_fb.<minor>`, one for each device number.
use nv_resource_controller.Prelude.{ℕ, Bool, Option, none, some, ◌==◌, if◌then◌else◌, true, false}
use nv_resource_controller.Prelude.Run.{Cmd, ok, fault, blocked}
use nv_resource_controller.Platform.{Platform}
use nv_resource_controller.Hook.Types.{FbInfo}

-- A POSIX shared-memory object: not there, there but of size 0, or holding a structure.
pub data Object (D : Type 0) : Type 0 where
  missing : Object D
  empty : Object D
  holds : D → Object D

abbrev pub Shm : Type 0 → Type 0
Shm D = ℕ → Object D

abbrev pub update : {D : Type 0} → Shm D → ℕ → Object D → Shm D
update shm k o j = if j == k then o else shm j

module _ (os : Platform) where
  -- `device_prop_t`, its fields for memory. `fb_info` is the number of the object that is mapped,
  -- `none` for a null pointer.
  pub record Device : Type 0 where
    pub mu : Bool
    pub major : ℕ
    pub minor : ℕ
    pub fb_info : Option ℕ
    pub alloc_mem : ℕ
    pub mem_limited : Bool
    pub core_limited : Bool
    pub heap_mem_list : os.heap.Chain
    pub rm_mem_list : os.rm.Chain

  pub record Memory : Type 0 where
    pub dev : Device
    pub shm : Shm FbInfo

module _ {os : Platform} where
  -- `pthread_mutex_lock(&gpu_device.mu)`: a thread that holds the mutex, or meets one that is never
  -- given back, waits for ever.
  unfoldable pub lock : Cmd (Memory os) (Unit {0})
  lock m = if m.dev.mu then blocked else ok tt (record m { dev = record m.dev { mu = true } })

  -- `pthread_mutex_unlock(&gpu_device.mu)`
  unfoldable pub unlock : Cmd (Memory os) (Unit {0})
  unlock m = ok tt (record m { dev = record m.dev { mu = false } })

  read_object : Object FbInfo → Cmd (Memory os) FbInfo
  read_object missing m = fault
  read_object empty m = fault
  read_object (holds fb) m = ok fb m

  -- `*gpu_device.fb_info`
  unfoldable pub load_fb : Cmd (Memory os) FbInfo
  unfolding read_object
  load_fb m = elim m.dev.fb_info [ none ↦ fault | some k ↦ read_object (m.shm k) m ]

  -- `*gpu_device.fb_info = fb`, once it has been read
  unfoldable pub store_fb : FbInfo → Cmd (Memory os) (Unit {0})
  store_fb fb m = elim m.dev.fb_info [
    | none ↦ fault
    | some k ↦ ok tt (record m { shm = update m.shm k (holds fb) })
  ]
