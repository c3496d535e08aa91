-- ===== src/Util/ShmAddr.antt =====
-- `create_shm_addr` of src/util.c, for objects that hold a `D`.
pub mod Up
use nv_resource_controller.Prelude.{ℕ, Bool, Option, none, some, if◌then◌else◌, true, false}
use nv_resource_controller.Hook.Memory.{Object, missing, empty, holds, Shm, update}

-- How the system answers the calls of one `create_shm_addr`: `shm_open` with `O_EXCL` fails with
-- another errno than `EEXIST`, the second `shm_open` fails, `ftruncate` fails, `mmap` fails.
pub record ShmCalls : Type 0 where
  pub fd : ℕ
  pub excl_fails : Bool
  pub open_fails : Bool
  pub truncate_fails : Bool
  pub map_fails : Bool

-- The pointer that comes back: `NULL`, `MAP_FAILED`, or the mapping of the object with that number.
pub data Addr : Type 0 where
  null : Addr
  map_failed : Addr
  mapped : ℕ → Addr

-- `share_data_t` after the call; `none` is a field that the call has not written.
pub record ShareData : Type 0 where
  pub fd : Option ℕ
  pub addr : Option ℕ

pub record ShmAddr (D : Type 0) : Type 0 where
  pub addr : Addr
  pub share_data : ShareData
  pub shm : Shm D

module _ {D : Type 0} where
  abbrev unmapped : Addr → Option ℕ → Shm D → ShmAddr D
  unmapped a fd shm = record { addr = a; share_data = record { fd = fd; addr = none }; shm = shm }

  -- From `mmap` on, with the `memset` of the creator.
  map_object : D → ShmCalls → (first : Bool) → ℕ → Shm D → ShmAddr D
  map_object zeroed sys first k shm =
      if sys.map_fails then unmapped map_failed (some sys.fd) shm else record {
        addr = mapped k;
        share_data = record { fd = some sys.fd; addr = some k };
        shm = if first then update shm k (holds zeroed) else shm;
      }

  -- The object is new: it has size 0 until `ftruncate` fills it with zeros.
  create_object : D → ShmCalls → ℕ → Shm D → ShmAddr D
  unfolding map_object
  create_object zeroed sys k shm =
      if sys.truncate_fails
      then unmapped null (some sys.fd) (update shm k empty)
      else map_object zeroed sys true k (update shm k (holds zeroed))

  -- `EEXIST`: the second `shm_open`.
  open_object : D → ShmCalls → ℕ → Shm D → ShmAddr D
  unfolding map_object
  open_object zeroed sys k shm =
      if sys.open_fails then unmapped null none shm else map_object zeroed sys false k shm

  unfoldable pub find_object : D → ShmCalls → ℕ → Object D → Shm D → ShmAddr D
  unfolding create_object open_object
  find_object zeroed sys k missing shm = create_object zeroed sys k shm
  find_object zeroed sys k empty shm = open_object zeroed sys k shm
  find_object zeroed sys k (holds d) shm = open_object zeroed sys k shm

  unfoldable pub create_shm_addr : D → ShmCalls → ℕ → Shm D → ShmAddr D
  create_shm_addr zeroed sys k shm =
      if sys.excl_fails then unmapped null none shm else find_object zeroed sys k (shm k) shm
