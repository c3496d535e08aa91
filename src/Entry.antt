-- ===== src/Entry.antt =====
-- src/entry.c: how the library finds libc's functions when it is loaded.
pub mod Definitions
pub mod Images
pub mod Unhashed
use Prim.Native.String.{String}
use text.Mathlib.Text.{◌==◌ as str_eq}
use nv_resource_controller.Prelude.{
  ℕ, zero, suc, ◌+◌, ◌%◌, ◌^◌, Bool, true, false, ◌||◌, Option, none, some, List, [], ◌∷◌, ◌==◌,
  if◌then◌else◌,
}
use nv_resource_controller.Prelude.Int.{ℤ, pos, is_nonzero}
use nv_resource_controller.Prelude.Run.{Cmd, ok, fault, pure, in_state, ◌>>=◌, ◌>>◌}
use nv_resource_controller.Platform.{Platform}
use nv_resource_controller.Cuda.{first_of}
use nv_resource_controller.Util.Iec.{Double}
use nv_resource_controller.Init.{init_device_prop}
use nv_resource_controller.Init.State.{InitCalls, InitState}

-- `dlfcn_t`, less its `once`; a function pointer is its address, `none` the null pointer.
pub record DlFcn : Type 0 where
  pub dlopen : Option ℕ
  pub dlsym : Option ℕ
  pub dladdr : Option ℕ
  pub dlclose : Option ℕ
  pub ioctl : Option ℕ

-- `ElfW(Sym)`, the fields that are read
pub record Sym : Type 0 where
  pub st_name : ℕ
  pub st_value : ℕ

-- `ElfW(Dyn)` up to `DT_NULL`: `DT_HASH` with the second word of the table, `DT_STRTAB` with the
-- string at each offset, `DT_SYMTAB` with the symbols, or another tag.
pub data Dyn : Type 0 where
  dt_hash : ℕ → Dyn
  dt_strtab : (ℕ → String) → Dyn
  dt_symtab : List Sym → Dyn
  dt_other : Dyn

-- A program header: of type `PT_DYNAMIC` with its section, or another.
pub data Phdr : Type 0 where
  pt_dynamic : List Dyn → Phdr
  pt_other : Phdr

-- `struct dl_phdr_info`, with `basename` of its `dlpi_name`
pub record PhdrInfo : Type 0 where
  pub libname : String
  pub dlpi_addr : ℕ
  pub dlpi_phdr : List Phdr

-- The local variables that outlive an entry: `sym_cnt` and `strtab`.
pub record SymLocals : Type 0 where
  pub sym_cnt : ℕ
  pub strtab : Option (ℕ → String)

-- A word as a pointer.
abbrev pub pointer : ℕ → Option ℕ
pointer a = if a == 0 then none else some a

-- The chain of `strcmp`, each with its `if (!field) field = sym_addr`.
unfoldable pub store_symbol : (sym_name : String) → (sym_addr : ℕ) → DlFcn → DlFcn
store_symbol sym_name sym_addr d =
    if str_eq sym_name "dlsym"
    then record d { dlsym = first_of d.dlsym (pointer sym_addr) }
    else if str_eq sym_name "dlopen"
    then record d { dlopen = first_of d.dlopen (pointer sym_addr) }
    else if str_eq sym_name "dlclose"
    then record d { dlclose = first_of d.dlclose (pointer sym_addr) }
    else if str_eq sym_name "dladdr"
    then record d { dladdr = first_of d.dladdr (pointer sym_addr) }
    else if str_eq sym_name "ioctl"
    then record d { ioctl = first_of d.ioctl (pointer sym_addr) }
    else d

-- One symbol. With no string table the name is read near address 0.
visit_symbol : (base : ℕ) → Option (ℕ → String) → Sym → Cmd DlFcn (Unit {0})
unfolding store_symbol
visit_symbol base strtab sym d =
    if (base + sym.st_value) % 2 ^ 64 == base then ok tt d else elim strtab [
      | none ↦ fault
      | some name_at ↦ ok tt (store_symbol (name_at sym.st_name) ((base + sym.st_value) % 2 ^ 64) d)
    ]

-- The loop over the symbol table, which reads behind the table where `sym_cnt` is greater.
unfoldable pub visit_symbols :
    (base : ℕ) → Option (ℕ → String) → (sym_cnt : ℕ) → List Sym → Cmd DlFcn (Unit {0})
unfolding visit_symbol
visit_symbols base strtab zero syms = pure tt
visit_symbols base strtab (suc n) [] = λ d. fault
visit_symbols base strtab (suc n) (sym ∷ syms) =
    visit_symbol base strtab sym >> visit_symbols base strtab n syms

-- One entry of the dynamic section.
unfoldable pub visit_dyn : (base : ℕ) → Dyn → SymLocals → Cmd DlFcn SymLocals
unfolding visit_symbols
visit_dyn base (dt_hash n) l = pure (record l { sym_cnt = n })
visit_dyn base (dt_strtab name_at) l = pure (record l { strtab = some name_at })
visit_dyn base (dt_symtab syms) l = visit_symbols base l.strtab l.sym_cnt syms >> pure l
visit_dyn base dt_other l = pure l

-- The loop over the dynamic section.
unfoldable pub visit_dyns : (base : ℕ) → List Dyn → SymLocals → Cmd DlFcn SymLocals
unfolding visit_dyn
visit_dyns base [] l = pure l
visit_dyns base (dyn ∷ dyns) l = visit_dyn base dyn l >>= visit_dyns base dyns

-- The loop over the program headers.
unfoldable pub visit_headers : (base : ℕ) → List Phdr → SymLocals → Cmd DlFcn SymLocals
unfolding visit_dyns
visit_headers base [] l = pure l
visit_headers base (pt_other ∷ headers) l = visit_headers base headers l
visit_headers base (pt_dynamic dyns ∷ headers) l =
    visit_dyns base dyns l >>= visit_headers base headers

-- Is the object passed over?
abbrev pub skipped : PhdrInfo → Bool
skipped info = str_eq info.libname "" || str_eq info.libname "linux-vdso.so.1"

unfoldable pub retrieve_symbols : PhdrInfo → Cmd DlFcn ℤ
unfolding visit_headers
retrieve_symbols info =
    if skipped info
    then pure (pos 0)
    else (visit_headers info.dlpi_addr info.dlpi_phdr (record { sym_cnt = 0; strtab = none })
        >> pure (pos 0))

-- `dl_iterate_phdr(retrieve_symbols, data)`: an object after the other until one gives another result
-- than 0.
unfoldable pub iterate_phdr : List PhdrInfo → Cmd DlFcn ℤ
unfolding retrieve_symbols
iterate_phdr [] = pure (pos 0)
iterate_phdr (info ∷ infos) =
    retrieve_symbols info >>= λ ret. if is_nonzero ret then pure ret else iterate_phdr infos

-- What the constructor works on: `__dlfcn_data`, and the memory of the process.
pub record Process (os : Platform) : Type 0 where
  pub dl : DlFcn
  pub state : InitState os

unfoldable pub init :
    {os : Platform} → Double → InitCalls → List PhdrInfo → Cmd (Process os) (Unit {0})
unfolding iterate_phdr init_device_prop
init d sys infos =
    (λ s. in_state (iterate_phdr infos s.dl) (λ dl. record s { dl = dl }))
    >> (λ s. in_state (init_device_prop d sys s.state) (λ t. record s { state = t }))
