-- ===== src/Dlfcn/Dlsym/Hooked.antt =====
-- What the exported `dlsym` returns for a handle, and what the table remembers.
use Prim.Native.String.{String}
use nv_resource_controller.Prelude.{ℕ, ◌≡◌, refl, true, Option, some, ◌==◌, if◌then◌else◌}
use nv_resource_controller.Prelude.Run.{Cmd, ok}
use nv_resource_controller.Cuda.{
  EntryEnum, cu_get_proc_address, cu_get_proc_address_v2, cu_launch_kernel, cu_launch_kernel_ex,
  cu_launch_kernel_ptsz, cu_launch_kernel_ex_ptsz, entry_enum, symbol_of, hook_table, set_real,
}
use nv_resource_controller.Cuda.Symbols.{
  IsUnhooked, find_entry-hook_table, get_elem?-hook_table, find_entry-unhooked,
}
use nv_resource_controller.Dlfcn.Dlsym.{Found, Linker, DlState, handle, dlsym, look_up_handle}

-- The functions found so far, with `p` for `sym`.
abbrev pub found_at : EntryEnum → ℕ → (EntryEnum → Option ℕ) → EntryEnum → Option ℕ
found_at sym p real other = if entry_enum other == entry_enum sym then some p else real other

set_real-found_at :
    (sym : EntryEnum) (p : ℕ) (hook : EntryEnum → ℕ) (real : EntryEnum → Option ℕ)
    → set_real (entry_enum sym) (some p) (hook_table hook real)
      ≡ hook_table hook (found_at sym p real)
unfolding set_real
set_real-found_at cu_get_proc_address p hook real = refl
set_real-found_at cu_get_proc_address_v2 p hook real = refl
set_real-found_at cu_launch_kernel p hook real = refl
set_real-found_at cu_launch_kernel_ex p hook real = refl
set_real-found_at cu_launch_kernel_ptsz p hook real = refl
set_real-found_at cu_launch_kernel_ex_ptsz p hook real = refl

module _ (found : Found) (init : Cmd DlState Found) (linker : Linker) (caller h : ℕ)
    (hook : EntryEnum → ℕ) (real : EntryEnum → Option ℕ) (s : DlState) (ready : found.dlsym ≡ true)
    (table : s.hooks.table ≡ hook_table hook real) where
  -- Once libc's `dlsym` has been found, for a hooked symbol that the handle defines, `dlsym`
  -- returns the library's function and the table holds the one that was found, whatever it held.
  pub dlsym_hooked :
      (sym : EntryEnum) (p : ℕ)
      → linker.dlsym h (symbol_of sym) ≡ some p
      → dlsym found init linker caller (handle h) (symbol_of sym) s
        ≡ ok
            (some (hook sym))
            (record s { hooks = record s.hooks { table = hook_table hook (found_at sym p real) } })
  unfolding dlsym look_up_handle
  dlsym_hooked sym p e =
      rw
        (
          ready,
          table,
          find_entry-hook_table sym hook real,
          e,
          get_elem?-hook_table sym hook real,
          set_real-found_at sym p hook real,
        )
        refl

  -- For a symbol that no entry has, `dlsym` of a handle gives the answer of libc's, and the table
  -- stays as it is.
  pub dlsym_unhooked :
      (symbol : String)
      → IsUnhooked symbol
      → dlsym found init linker caller (handle h) symbol s ≡ ok (linker.dlsym h symbol) s
  unfolding dlsym look_up_handle
  dlsym_unhooked symbol u = rw (ready, table, find_entry-unhooked symbol hook real u) refl
