-- ===== src/Dlfcn/Dlsym.antt =====
-- `get_next_symbol` and the exported `dlsym` of src/dlfcn.c.
pub mod Hooked
pub mod Next
use Prim.Native.String.{String}
use nv_resource_controller.Prelude.{
  ℕ, zero, suc, ◌+◌, ◌-◌, Bool, true, false, not, ◌&&◌, ◌||◌, Option, none, some, List, [], ◌∷◌,
  get_elem?, ltb, if◌then◌else◌,
}
use nv_resource_controller.Prelude.Run.{Cmd, ok, fault, exited, pure, ◌>>=◌, ◌>>◌}
use nv_resource_controller.Cuda.{Entry, HookState, find_entry, set_real, first_of, hook_size}

-- The functions of libc that `__dlfcn_data` points at, found or not yet.
pub record Found : Type 0 where
  pub dlopen : Bool
  pub dlsym : Bool
  pub dlclose : Bool
  pub dladdr : Bool

-- `struct link_map`
pub record LinkMap : Type 0 where
  pub l_name : String
  pub l_addr : ℕ

-- The dynamic linker: `dladdr` of the library itself, `dlopen` with `RTLD_NOLOAD | RTLD_LAZY`,
-- `dlsym`, and the maps from the one of a handle on.
pub record Linker : Type 0 where
  pub library_name : String
  pub dli_fname : Option String
  pub dlopen : String → Option ℕ
  pub dlsym : ℕ → String → Option ℕ
  pub chain : ℕ → List LinkMap

-- The hooks, and how many handles of `dlopen` have not been closed.
pub record DlState : Type 0 where
  pub hooks : HookState
  pub handles : ℕ

add_handle : Cmd DlState (Unit {0})
add_handle s = ok tt (record s { handles = s.handles + 1 })

-- `dlclose`
close_handle : Cmd DlState (Unit {0})
close_handle s = ok tt (record s { handles = s.handles - 1 })

-- `if (likely(handle)) goto done;`, and the rest of the loop
done_or : Option ℕ → Cmd DlState (Option ℕ) → Cmd DlState (Option ℕ)
done_or none rest = rest
done_or (some p) rest = pure (some p)

-- The look-up in one map; a map that cannot be opened ends the process, by `LOGGER(FATAL, ...)`.
look_up : Linker → String → Option ℕ → Cmd DlState (Option ℕ) → Cmd DlState (Option ℕ)
unfolding add_handle close_handle done_or
look_up linker symbol none rest = λ s. exited
look_up linker symbol (some temp_map) rest =
    add_handle >> close_handle >> done_or (linker.dlsym temp_map symbol) rest

-- The loop over the maps. `handle` is null whenever the loop goes on.
unfoldable pub search_maps :
    Linker → (caller : ℕ) → String → (index : ℕ) → List LinkMap → Cmd DlState (Option ℕ)
unfolding look_up
search_maps linker caller symbol index [] = pure none
search_maps linker caller symbol index (map ∷ maps) =
    let rest = search_maps linker caller symbol index maps in
    let skip = search_maps linker caller symbol (index + 1) maps in
    if ltb caller map.l_addr
    then rest
    else if ltb index 1
    then skip
    else look_up linker symbol (linker.dlopen map.l_name) rest

abbrev self_path : Linker → String
self_path linker = elim linker.dli_fname [ none ↦ linker.library_name | some name ↦ name ]

from_self : Linker → (caller : ℕ) → String → Option ℕ → Cmd DlState (Option ℕ)
unfolding add_handle close_handle
from_self linker caller symbol none = λ s. exited
from_self linker caller symbol (some self) = do
  add_handle
  handle ← search_maps linker caller symbol 0 (linker.chain self)
  close_handle
  pure handle

unfoldable pub get_next_symbol : Found → Linker → (caller : ℕ) → String → Cmd DlState (Option ℕ)
unfolding from_self
get_next_symbol found linker caller symbol =
    if found.dlopen && found.dlsym && found.dlclose && found.dladdr
    then from_self linker caller symbol (linker.dlopen (self_path linker))
    else (λ s. exited)

-- `RTLD_NEXT`, or a handle of `dlopen`
pub data Handle : Type 0 where
  rtld_next : Handle
  handle : ℕ → Handle

hook_entry : ℕ → ℕ → Option Entry → Cmd DlState (Option ℕ)
unfolding set_real
hook_entry i entrypoint none s = fault
hook_entry i entrypoint (some e) s =
    ok (first_of e.hook_pfn (some entrypoint))
      (record s { hooks = record s.hooks { table = set_real i (some entrypoint) s.hooks.table } })

-- `if (likely(e && entrypoint))` and its body
replace_entry : Option ℕ → Option ℕ → Cmd DlState (Option ℕ)
unfolding hook_entry
replace_entry none entrypoint s = ok entrypoint s
replace_entry (some i) none s = ok none s
replace_entry (some i) (some entrypoint) s = hook_entry i entrypoint (get_elem? s.hooks.table i) s

look_up_handle : Found → Linker → (caller : ℕ) → Handle → String → Cmd DlState (Option ℕ)
unfolding get_next_symbol replace_entry find_entry
look_up_handle found linker caller rtld_next symbol s = get_next_symbol found linker caller symbol s
look_up_handle found linker caller (handle h) symbol s =
    replace_entry (find_entry s.hooks.table hook_size symbol) (linker.dlsym h symbol) s

-- `caller` is the return address; `init` is `pthread_once(&__dlfcn_data.once, init)`, with the
-- pointers that it leaves.
unfoldable pub dlsym :
    Found → Cmd DlState Found → Linker → (caller : ℕ) → Handle → String → Cmd DlState (Option ℕ)
unfolding look_up_handle
dlsym found init linker caller h symbol = do
  found' ← (if found.dlsym then pure found else init)
  if found'.dlsym then look_up_handle found' linker caller h symbol else (λ s. exited)
