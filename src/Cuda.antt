-- ===== src/Cuda.antt =====
-- src/cuda_hook.c: the table of hooked functions, `cuGetProcAddress` and the launches.
pub mod Launch
pub mod Symbols
use Prim.Native.String.{String}
use text.Mathlib.Text.{◌==◌ as str_eq}
use nv_resource_controller.Prelude.{
  ℕ, zero, suc, ◌+◌, ◌-◌, ◌%◌, ◌^◌, Bool, Option, none, some, List, [], ◌∷◌, get_elem?, ◌==◌,
  if◌then◌else◌,
}
use nv_resource_controller.Prelude.Int.{ℤ, pos, neg, is_neg, is_nonzero}
use nv_resource_controller.Prelude.Run.{Cmd, ok, fault, blocked, exited, pure, ◌>>=◌, ◌>>◌}

-- `entry_enum_t`, less its end mark
pub data EntryEnum : Type 0 where
  cu_get_proc_address : EntryEnum
  cu_get_proc_address_v2 : EntryEnum
  cu_launch_kernel : EntryEnum
  cu_launch_kernel_ex : EntryEnum
  cu_launch_kernel_ptsz : EntryEnum
  cu_launch_kernel_ex_ptsz : EntryEnum

-- `CUDA_ENTRY_ENUM`
abbrev pub entry_enum : EntryEnum → ℕ
entry_enum cu_get_proc_address = 0
entry_enum cu_get_proc_address_v2 = 1
entry_enum cu_launch_kernel = 2
entry_enum cu_launch_kernel_ex = 3
entry_enum cu_launch_kernel_ptsz = 4
entry_enum cu_launch_kernel_ex_ptsz = 5

-- The symbol of a hooked function.
abbrev pub symbol_of : EntryEnum → String
symbol_of cu_get_proc_address = "cuGetProcAddress"
symbol_of cu_get_proc_address_v2 = "cuGetProcAddress_v2"
symbol_of cu_launch_kernel = "cuLaunchKernel"
symbol_of cu_launch_kernel_ex = "cuLaunchKernelEx"
symbol_of cu_launch_kernel_ptsz = "cuLaunchKernel_ptsz"
symbol_of cu_launch_kernel_ex_ptsz = "cuLaunchKernelEx_ptsz"

-- `entry_t`; a function pointer is its address, `none` the null pointer.
pub record Entry : Type 0 where
  pub real_pfn : Option ℕ
  pub hook_pfn : Option ℕ
  pub name : String

-- The table with `HOOK_FUNC` at `hook sym`, and the functions that have been found so far.
abbrev pub hook_table : (hook : EntryEnum → ℕ) (real : EntryEnum → Option ℕ) → List Entry
hook_table hook real =
    let item : EntryEnum → Entry =
      λ sym. record { real_pfn = real sym; hook_pfn = some (hook sym); name = symbol_of sym } in
    item cu_get_proc_address
    ∷ item cu_get_proc_address_v2
    ∷ item cu_launch_kernel
    ∷ item cu_launch_kernel_ex
    ∷ item cu_launch_kernel_ptsz
    ∷ item cu_launch_kernel_ex_ptsz
    ∷ []

-- `cuda_hook_funcs_data` as it is initialised
abbrev pub cuda_hook_funcs_data : (hook : EntryEnum → ℕ) → List Entry
cuda_hook_funcs_data hook = hook_table hook (λ _. none)

-- What the hooks use: the table, and of `gpu_device` the flag, the semaphore `tokens` and
-- `attr->params.launch_times`, which is not there while `attr` is null.
pub record HookState : Type 0 where
  pub table : List Entry
  pub core_limited : Bool
  pub tokens : ℕ
  pub launch_times : Option ℕ

abbrev some_suc : Option ℕ → Option ℕ
some_suc none = none
some_suc (some i) = some (suc i)

-- `find_entry` of src/util.c: the place of the entry in the list
unfoldable pub find_entry : List Entry → ℕ → String → Option ℕ
find_entry list zero symbol = none
find_entry [] (suc size) symbol = none
find_entry (e ∷ list) (suc size) symbol =
    let rest = find_entry list size symbol in if str_eq e.name symbol then some 0 else some_suc rest

-- `e->real_pfn = pfn` for the entry at a place
unfoldable pub set_real : ℕ → Option ℕ → List Entry → List Entry
set_real i pfn [] = []
set_real zero pfn (e ∷ list) = record e { real_pfn = pfn } ∷ list
set_real (suc i) pfn (e ∷ list) = e ∷ set_real i pfn list

-- The first pointer that is not null.
abbrev pub first_of : Option ℕ → Option ℕ → Option ℕ
first_of none pfn = pfn
first_of (some p) pfn = some p

bug_on_null_pfn : Option ℕ → Cmd HookState ℕ
bug_on_null_pfn none s = exited
bug_on_null_pfn (some p) s = ok p s

real_pfn_of : Option Entry → Cmd HookState ℕ
unfolding bug_on_null_pfn
real_pfn_of none s = fault
real_pfn_of (some e) s = bug_on_null_pfn e.real_pfn s

-- `CUDA_ENTRY_CALL`, up to the call: the function of the table, and the end of the process where it
-- is null.
unfoldable pub cuda_entry : EntryEnum → Cmd HookState ℕ
unfolding real_pfn_of
cuda_entry sym s = real_pfn_of (get_elem? s.table (entry_enum sym)) s

-- The arguments of `cuGetProcAddress`, with what is behind `pfn`.
pub record Query : Type 0 where
  pub symbol : String
  pub pfn : Option ℕ
  pub cuda_version : ℕ
  pub flags : ℕ

-- `CUlaunchConfig`
pub record LaunchConfig : Type 0 where
  pub grid_dim_x : ℕ
  pub grid_dim_y : ℕ
  pub grid_dim_z : ℕ
  pub block_dim_x : ℕ
  pub block_dim_y : ℕ
  pub block_dim_z : ℕ

-- The arguments of `cuLaunchKernel`.
pub record KernelArgs : Type 0 where
  pub f : ℕ
  pub dims : LaunchConfig
  pub shared_mem_bytes : ℕ
  pub h_stream : ℕ
  pub kernel_params : ℕ
  pub extra : ℕ

-- The arguments of `cuLaunchKernelEx`.
pub record KernelExArgs : Type 0 where
  pub config : LaunchConfig
  pub f : ℕ
  pub kernel_params : ℕ
  pub extra : ℕ

-- The functions of the CUDA driver at their addresses.
pub record CudaDriver : Type 0 where
  pub get_proc_address : ℕ → Query → ℤ × Option ℕ
  pub get_proc_address_v2 : ℕ → Query → ℕ → ℤ × Option ℕ × ℕ
  pub launch_kernel : ℕ → KernelArgs → ℤ
  pub launch_kernel_ptsz : ℕ → KernelArgs → ℤ
  pub launch_kernel_ex : ℕ → KernelExArgs → ℤ
  pub launch_kernel_ex_ptsz : ℕ → KernelExArgs → ℤ

replace_at : ℕ → Option ℕ → Option Entry → Cmd HookState (Option ℕ)
unfolding set_real
replace_at i pfn none s = fault
replace_at i pfn (some e) s =
    ok (first_of e.hook_pfn pfn) (record s { table = set_real i (first_of e.real_pfn pfn) s.table })

-- `if (e) { ... }` after the driver's answer: the result is `*pfn`.
replace : Option ℕ → Option ℕ → Cmd HookState (Option ℕ)
unfolding replace_at
replace none pfn s = ok pfn s
replace (some i) pfn s = replace_at i pfn (get_elem? s.table i) s

-- `hook_size` entries are searched.
abbrev pub hook_size : ℕ
hook_size = 6

replace_symbol : String → Option ℕ → Cmd HookState (Option ℕ)
unfolding find_entry replace
replace_symbol symbol pfn s = replace (find_entry s.table hook_size symbol) pfn s

unfoldable pub hook_cu_get_proc_address : CudaDriver → Query → Cmd HookState (ℤ × Option ℕ)
unfolding cuda_entry replace_symbol
hook_cu_get_proc_address driver query = do
  entry ← cuda_entry cu_get_proc_address
  let (ret, pfn) = driver.get_proc_address entry query
  pfn' ← (if is_nonzero ret then pure pfn else replace_symbol query.symbol pfn)
  pure (ret, pfn')

unfoldable pub hook_cu_get_proc_address_v2 :
    CudaDriver → Query → ℕ → Cmd HookState (ℤ × Option ℕ × ℕ)
unfolding cuda_entry replace_symbol
hook_cu_get_proc_address_v2 driver query status = do
  entry ← cuda_entry cu_get_proc_address_v2
  let (ret, pfn, status') = driver.get_proc_address_v2 entry query status
  pfn' ← (if is_nonzero ret then pure pfn else replace_symbol query.symbol pfn)
  pure (ret, pfn', status')
