-- ===== src/Cuda/Symbols.antt =====
-- Which symbols are replaced, and the driver's functions that the table remembers.
use Prim.Native.String.{String}
use text.Mathlib.Text.{◌==◌ as str_eq}
use text.Mathlib.TextEquality.{eq_iff}
use nv_resource_controller.Prelude.{
  ℕ, ◌≡◌, ◌≢◌, refl, false, Option, none, some, get_elem?, ◌==◌, if◌then◌else◌, Bool-cases, inl,
  inr,
}
use nv_resource_controller.Prelude.Int.{pos}
use nv_resource_controller.Prelude.Run.{ok}
use nv_resource_controller.Cuda.{
  EntryEnum, cu_get_proc_address, cu_get_proc_address_v2, cu_launch_kernel, cu_launch_kernel_ex,
  cu_launch_kernel_ptsz, cu_launch_kernel_ex_ptsz, entry_enum, symbol_of, hook_table, HookState,
  find_entry, Entry, replace_symbol, first_of, set_real, cuda_entry, Query, CudaDriver,
  hook_cu_get_proc_address, hook_size,
}

-- The functions found so far, and `pfn` for `sym` where none was.
abbrev pub remember : EntryEnum → Option ℕ → (EntryEnum → Option ℕ) → EntryEnum → Option ℕ
remember sym pfn real other =
    if entry_enum other == entry_enum sym then first_of (real other) pfn else real other

pub find_entry-hook_table :
    (sym : EntryEnum) (hook : EntryEnum → ℕ) (real : EntryEnum → Option ℕ)
    → find_entry (hook_table hook real) hook_size (symbol_of sym) ≡ some (entry_enum sym)
unfolding find_entry
find_entry-hook_table cu_get_proc_address hook real = refl
find_entry-hook_table cu_get_proc_address_v2 hook real = refl
find_entry-hook_table cu_launch_kernel hook real = refl
find_entry-hook_table cu_launch_kernel_ex hook real = refl
find_entry-hook_table cu_launch_kernel_ptsz hook real = refl
find_entry-hook_table cu_launch_kernel_ex_ptsz hook real = refl

set_real-hook_table :
    (sym : EntryEnum) (pfn : Option ℕ) (hook : EntryEnum → ℕ) (real : EntryEnum → Option ℕ)
    → set_real (entry_enum sym) (first_of (real sym) pfn) (hook_table hook real)
      ≡ hook_table hook (remember sym pfn real)
unfolding set_real
set_real-hook_table cu_get_proc_address pfn hook real = refl
set_real-hook_table cu_get_proc_address_v2 pfn hook real = refl
set_real-hook_table cu_launch_kernel pfn hook real = refl
set_real-hook_table cu_launch_kernel_ex pfn hook real = refl
set_real-hook_table cu_launch_kernel_ptsz pfn hook real = refl
set_real-hook_table cu_launch_kernel_ex_ptsz pfn hook real = refl

-- The entry of a function.
abbrev pub item : (EntryEnum → ℕ) → (EntryEnum → Option ℕ) → EntryEnum → Entry
item hook real sym = record {
  real_pfn = real sym;
  hook_pfn = some (hook sym);
  name = symbol_of sym;
}

pub get_elem?-hook_table :
    (sym : EntryEnum) (hook : EntryEnum → ℕ) (real : EntryEnum → Option ℕ)
    → get_elem? (hook_table hook real) (entry_enum sym) ≡ some (item hook real sym)
get_elem?-hook_table cu_get_proc_address hook real = refl
get_elem?-hook_table cu_get_proc_address_v2 hook real = refl
get_elem?-hook_table cu_launch_kernel hook real = refl
get_elem?-hook_table cu_launch_kernel_ex hook real = refl
get_elem?-hook_table cu_launch_kernel_ptsz hook real = refl
get_elem?-hook_table cu_launch_kernel_ex_ptsz hook real = refl

-- `cuda_entry` on such a table.
cuda_entry-hook_table :
    (sym : EntryEnum) (hook : EntryEnum → ℕ) (real : EntryEnum → Option ℕ) (s : HookState) (p : ℕ)
    → s.table ≡ hook_table hook real
    → real sym ≡ some p
    → cuda_entry sym s ≡ ok p s
unfolding cuda_entry
cuda_entry-hook_table sym hook real s p t e = rw (t, get_elem?-hook_table sym hook real, e) refl

replace_symbol-hooked :
    (sym : EntryEnum) (pfn : Option ℕ) (hook : EntryEnum → ℕ) (real : EntryEnum → Option ℕ)
    (s : HookState)
    → s.table ≡ hook_table hook real
    → replace_symbol (symbol_of sym) pfn s
      ≡ ok (some (hook sym)) (record s { table = hook_table hook (remember sym pfn real) })
unfolding replace_symbol
replace_symbol-hooked sym pfn hook real s t =
    rw
      (
        t,
        find_entry-hook_table sym hook real,
        get_elem?-hook_table sym hook real,
        set_real-hook_table sym pfn hook real,
      )
      refl

-- A symbol that no entry of the table has.
abbrev pub IsUnhooked : String → Type 0
IsUnhooked symbol = (sym : EntryEnum) → symbol_of sym ≢ symbol

differs :
    (symbol : String)
    → IsUnhooked symbol
    → (sym : EntryEnum) → str_eq (symbol_of sym) symbol ≡ false
differs symbol u sym = elim (Bool-cases (str_eq (symbol_of sym) symbol)) [
  | inl e ↦ absurd (u sym ((eq_iff (symbol_of sym) symbol).0 e))
  | inr e ↦ e
]

pub find_entry-unhooked :
    (symbol : String) (hook : EntryEnum → ℕ) (real : EntryEnum → Option ℕ)
    → IsUnhooked symbol
    → find_entry (hook_table hook real) hook_size symbol ≡ none
unfolding find_entry
find_entry-unhooked symbol hook real u =
    rw
      (
        differs symbol u cu_get_proc_address,
        differs symbol u cu_get_proc_address_v2,
        differs symbol u cu_launch_kernel,
        differs symbol u cu_launch_kernel_ex,
        differs symbol u cu_launch_kernel_ptsz,
        differs symbol u cu_launch_kernel_ex_ptsz,
      )
      refl

module _ (driver : CudaDriver) (hook : EntryEnum → ℕ) (real : EntryEnum → Option ℕ) (s : HookState)
    (query : Query) (p : ℕ) (pfn : Option ℕ) where
  -- The driver's `cuGetProcAddress` has been found, and finds `pfn`.
  pub record Finds : Type 0 where
    pub table : s.table ≡ hook_table hook real
    pub entry : real cu_get_proc_address ≡ some p
    pub answer : driver.get_proc_address p query ≡ (pos 0, pfn)

  -- Once the driver's `cuGetProcAddress` has been found, where it finds a hooked symbol the caller
  -- gets the library's function, and the table remembers the driver's.
  pub hook_cu_get_proc_address_hooked :
      (sym : EntryEnum)
      → Finds
      → query.symbol ≡ symbol_of sym
      → hook_cu_get_proc_address driver query s
        ≡ ok (pos 0, some (hook sym)) (record s { table = hook_table hook (remember sym pfn real) })
  unfolding hook_cu_get_proc_address replace_symbol
  hook_cu_get_proc_address_hooked sym f e =
      rw
        (
          cuda_entry-hook_table cu_get_proc_address hook real s p f.table f.entry,
          f.answer,
          e,
          replace_symbol-hooked sym pfn hook real s f.table,
        )
        refl

  -- For a symbol that no entry has, `cuGetProcAddress` gives the driver's answer, and the table stays
  -- as it is.
  pub hook_cu_get_proc_address_unhooked :
      Finds → IsUnhooked query.symbol → hook_cu_get_proc_address driver query s ≡ ok (pos 0, pfn) s
  unfolding hook_cu_get_proc_address replace_symbol
  hook_cu_get_proc_address_unhooked f u =
      rw
        (
          cuda_entry-hook_table cu_get_proc_address hook real s p f.table f.entry,
          f.answer,
          f.table,
          find_entry-unhooked query.symbol hook real u,
        )
        refl
