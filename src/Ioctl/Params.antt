-- ===== src/Ioctl/Params.antt =====
-- The argument blocks of the driver's `ioctl`, as src/ioctl_hook.c reads and writes them: the fields
-- that it names. Handles and statuses are 32-bit, sizes 64-bit patterns.
use nv_resource_controller.Prelude.{ℕ, Option, List}

-- `data.AllocSize` of `NVOS32_PARAMETERS`
pub record AllocSize : Type 0 where
  pub h_memory : ℕ
  pub size : ℕ
  pub alignment : ℕ

-- `NVOS32_PARAMETERS`
pub record HeapParams : Type 0 where
  pub function : ℕ
  pub status : ℕ
  pub total : ℕ
  pub free : ℕ
  pub alloc_size : AllocSize

-- `NV_MEMORY_ALLOCATION_PARAMS`
pub record MemoryParams : Type 0 where
  pub owner : ℕ
  pub size : ℕ
  pub alignment : ℕ

-- What `pAllocParms` points at, read as an `int` and as a `NV_MEMORY_ALLOCATION_PARAMS`.
pub record AllocParms : Type 0 where
  pub as_int : ℕ
  pub as_memory : MemoryParams

-- `NVOS21_PARAMETERS`; `none` is a null `pAllocParms`.
pub record AllocParams : Type 0 where
  pub h_object_parent : ℕ
  pub h_object_new : ℕ
  pub h_class : ℕ
  pub status : ℕ
  pub p_alloc_parms : Option AllocParms

-- `NVOS00_PARAMETERS`
pub record FreeParams : Type 0 where
  pub h_root : ℕ
  pub h_object_parent : ℕ
  pub h_object_old : ℕ
  pub status : ℕ

-- `NV2080_CTRL_FB_INFO`
pub record FbEntry : Type 0 where
  pub index : ℕ
  pub value : ℕ

-- `NV2080_CTRL_FB_GET_INFO_PARAMS` and `NV2080_CTRL_FB_GET_INFO_V2_PARAMS`: the count that the caller
-- gives, and the entries that there is memory for.
pub record FbList : Type 0 where
  pub fb_info_list_size : ℕ
  pub fb_info_list : List FbEntry

-- `NVOS54_PARAMETERS`, with `params` read as either structure.
pub record ControlParams : Type 0 where
  pub h_object : ℕ
  pub cmd : ℕ
  pub status : ℕ
  pub params : FbList
  pub params_v2 : FbList

-- The block behind the `void *arg` of `ioctl`, read as each structure. A call uses the one that its
-- command selects.
pub record Arg : Type 0 where
  pub os32 : HeapParams
  pub os21 : AllocParams
  pub os54 : ControlParams
  pub os00 : FreeParams
