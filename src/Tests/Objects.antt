-- ===== src/Tests/Objects.antt =====
-- The program, which defines nothing, and two objects that both define `ioctl`.
use Prim.Native.String.{String}
use nv_resource_controller.Prelude.{ℕ, ◌≡◌, refl, none, List, [], ◌∷◌, ◌==◌, if◌then◌else◌, arith}
use nv_resource_controller.Prelude.Int.{pos}
use nv_resource_controller.Prelude.Run.{Returns}
use nv_resource_controller.Entry.{
  DlFcn, Sym, PhdrInfo, pt_dynamic, dt_symtab, dt_strtab, iterate_phdr,
}
use nv_resource_controller.Entry.Definitions.{Adds}
use nv_resource_controller.Entry.Images.{Image, headers_of, first_object_def, iterate_phdr_lem}
use nv_resource_controller.Entry.Unhashed.{iterate_phdr-unhashed}

abbrev names : ℕ → String
names at = if at == 1 then "ioctl" else if at == 2 then "dlsym" else "other"

-- An object at base 0 has no symbols, one at 0x1000 two, any other one.
abbrev syms : ℕ → List Sym
syms base =
    if base == 0
    then []
    else if base == 0x1000
    then record { st_name = 3; st_value = 0x10 } ∷ record { st_name = 1; st_value = 0x20 } ∷ []
    else record { st_name = 1; st_value = 0x30 } ∷ record { st_name = 2; st_value = 0 } ∷ []

abbrev image : PhdrInfo → Image
image info = record {
  name_at = names;
  sym_cnt = if info.dlpi_addr == 0 then 0 else 2;
  syms = syms info.dlpi_addr;
  dyns_before = 1;
  dyns_after_hash = 1;
  dyns_after_names = 0;
  dyns_after = 2;
  headers_before = 2;
  headers_after = 1;
}

abbrev object : ℕ → PhdrInfo
object base =
    let info : PhdrInfo = record { libname = "lib"; dlpi_addr = base; dlpi_phdr = [] } in
    record info { dlpi_phdr = headers_of (image info) }

abbrev objects : List PhdrInfo
objects = object 0 ∷ object 0x1000 ∷ object 0x2000 ∷ []

abbrev nulls : DlFcn
nulls = record { dlopen = none; dlsym = none; dladdr = none; dlclose = none; ioctl = none }

iterate_phdr_lem_example :
    Returns
      (λ ret d. (ret ≡ pos 0) × Adds (first_object_def image objects) nulls d)
      (iterate_phdr objects nulls)
iterate_phdr_lem_example = iterate_phdr_lem image objects nulls (
  record { headers = refl; counted = omega arith },
  (
    record { headers = refl; counted = omega arith },
    (record { headers = refl; counted = omega arith }, tt),
  ),
)

-- Objects that only have a `DT_GNU_HASH`, which is another tag.
abbrev gnu : PhdrInfo
gnu = record {
  libname = "libc.so.6";
  dlpi_addr = 0x3000;
  dlpi_phdr = pt_dynamic (dt_strtab names ∷ dt_symtab (syms 0x1000) ∷ []) ∷ [];
}

iterate_phdr-unhashed_example :
    Returns (λ ret d. (ret ≡ pos 0) × (d ≡ nulls)) (iterate_phdr (gnu ∷ gnu ∷ []) nulls)
iterate_phdr-unhashed_example =
    iterate_phdr-unhashed (gnu ∷ gnu ∷ []) nulls (((tt, (tt, tt)), tt), (((tt, (tt, tt)), tt), tt))
