-- ===== src/Entry/Images.antt =====
-- `retrieve_symbols` and the walk over the loaded objects, on objects as the linker lays them out.
use Prim.Native.String.{String}
use nv_resource_controller.Prelude.{
  ℕ, zero, suc, ◌≤◌, ◌≡◌, refl, sym, subst, Option, none, some, List, [], ◌∷◌, length, All,
  if◌then◌else◌, Bool-cases, inl, inr,
}
use nv_resource_controller.Prelude.Int.{pos}
use nv_resource_controller.Prelude.Run.{pure, ◌>>◌, Returns, Returns-and_then, Returns-mono}
use nv_resource_controller.Cuda.{first_of}
use nv_resource_controller.Entry.{
  DlFcn, Sym, Dyn, dt_hash, dt_strtab, dt_symtab, dt_other, Phdr, pt_dynamic, pt_other, PhdrInfo,
  SymLocals, visit_symbols, visit_dyn, visit_dyns, visit_headers, skipped, retrieve_symbols,
  iterate_phdr,
}
use nv_resource_controller.Entry.Definitions.{
  Func, first_def, Adds, Adds-none, Adds-Adds, visit_symbols_lem,
}

-- An object: the names, the symbols, how many of them the hash table counts, and how many other
-- entries and headers stand around them.
pub record Image : Type 0 where
  pub name_at : ℕ → String
  pub sym_cnt : ℕ
  pub syms : List Sym
  pub dyns_before : ℕ
  pub dyns_after_hash : ℕ
  pub dyns_after_names : ℕ
  pub dyns_after : ℕ
  pub headers_before : ℕ
  pub headers_after : ℕ

abbrev pub other_dyns : ℕ → List Dyn → List Dyn
other_dyns zero dyns = dyns
other_dyns (suc n) dyns = dt_other ∷ other_dyns n dyns

abbrev pub other_headers : ℕ → List Phdr → List Phdr
other_headers zero headers = headers
other_headers (suc n) headers = pt_other ∷ other_headers n headers

-- The dynamic section: the hash table, then the names, then the symbols.
abbrev pub section : Image → List Dyn
section o = other_dyns o.dyns_before (
    dt_hash o.sym_cnt
    ∷ other_dyns o.dyns_after_hash (
        dt_strtab o.name_at
        ∷ other_dyns o.dyns_after_names (dt_symtab o.syms ∷ other_dyns o.dyns_after [])))

abbrev pub headers_of : Image → List Phdr
headers_of o =
    other_headers o.headers_before (pt_dynamic (section o) ∷ other_headers o.headers_after [])

other_dyns_lem :
    (base n : ℕ) (dyns : List Dyn) (l : SymLocals) (d : DlFcn)
    → visit_dyns base (other_dyns n dyns) l d ≡ visit_dyns base dyns l d
unfolding visit_dyns visit_dyn
other_dyns_lem base zero dyns l d = refl
other_dyns_lem base (suc n) dyns l d = other_dyns_lem base n dyns l d

other_headers_lem :
    (base n : ℕ) (headers : List Phdr) (l : SymLocals) (d : DlFcn)
    → visit_headers base (other_headers n headers) l d ≡ visit_headers base headers l d
unfolding visit_headers
other_headers_lem base zero headers l d = refl
other_headers_lem base (suc n) headers l d = other_headers_lem base n headers l d

abbrev pub initial : SymLocals
initial = record { sym_cnt = 0; strtab = none }

-- What the object gives each function.
abbrev pub image_def : ℕ → Image → Func → Option ℕ
image_def base o fn = first_def fn base o.name_at o.sym_cnt o.syms

symtab_lem :
    (base : ℕ) (o : Image) (d : DlFcn)
    → o.sym_cnt ≤ length o.syms
    → Returns
        (λ _ d'. Adds (image_def base o) d d')
        (visit_dyns base
          (dt_symtab o.syms ∷ other_dyns o.dyns_after [])
          (record { sym_cnt = o.sym_cnt; strtab = some o.name_at })
          d)
unfolding visit_dyns visit_dyn
symtab_lem base o d h =
    Returns-and_then (λ _ d'. Adds (image_def base o) d d') (λ _ d'. Adds (image_def base o) d d')
      ((visit_symbols base (some o.name_at) o.sym_cnt o.syms
          >> pure (record { sym_cnt = o.sym_cnt; strtab = some o.name_at }))
        d)
      _
      (Returns-and_then (λ _ d'. Adds (image_def base o) d d')
        (λ _ d'. Adds (image_def base o) d d')
        (visit_symbols base (some o.name_at) o.sym_cnt o.syms d) _
        (visit_symbols_lem base o.name_at o.sym_cnt o.syms d h) λ _ e adds. adds)
      λ l e adds. rw (other_dyns_lem base o.dyns_after) adds

section_lem :
    (base : ℕ) (o : Image) (d : DlFcn)
    → o.sym_cnt ≤ length o.syms
    → Returns (λ _ d'. Adds (image_def base o) d d') (visit_dyns base (section o) initial d)
unfolding visit_dyns visit_dyn
section_lem base o d h = rw (other_dyns_lem base o.dyns_before) (
    rw (other_dyns_lem base o.dyns_after_hash)
      (rw (other_dyns_lem base o.dyns_after_names) (symtab_lem base o d h)))

headers_lem :
    (base : ℕ) (o : Image) (d : DlFcn)
    → o.sym_cnt ≤ length o.syms
    → Returns (λ _ d'. Adds (image_def base o) d d') (visit_headers base (headers_of o) initial d)
unfolding visit_headers
headers_lem base o d h = rw (other_headers_lem base o.headers_before) (
    Returns-and_then (λ _ d'. Adds (image_def base o) d d') (λ _ d'. Adds (image_def base o) d d')
      (visit_dyns base (section o) initial d) _ (section_lem base o d h)
      λ l e adds. rw (other_headers_lem base o.headers_after) adds)

-- The object is passed over, or it is laid out as the image says, its hash table counting no more
-- symbols than there are.
pub record IsLaidOut (o : Image) (info : PhdrInfo) : Type 0 where
  pub headers : info.dlpi_phdr ≡ headers_of o
  pub counted : o.sym_cnt ≤ length o.syms

-- What an object gives each function.
abbrev pub object_def : (PhdrInfo → Image) → PhdrInfo → Func → Option ℕ
object_def image info fn = if skipped info then none else image_def info.dlpi_addr (image info) fn

-- The first object that defines the function gives its address.
abbrev pub first_object_def : (PhdrInfo → Image) → List PhdrInfo → Func → Option ℕ
first_object_def image [] fn = none
first_object_def image (info ∷ infos) fn =
    first_of (object_def image info fn) (first_object_def image infos fn)

retrieve_symbols_lem :
    (image : PhdrInfo → Image) (info : PhdrInfo) (d : DlFcn)
    → IsLaidOut (image info) info
    → Returns
        (λ ret d'. (ret ≡ pos 0) × Adds (object_def image info) d d')
        (retrieve_symbols info d)
unfolding retrieve_symbols
retrieve_symbols_lem image info d h = elim (Bool-cases (skipped info)) [
  | inl e ↦ rw e (refl, Adds-none d)
  | inr e ↦ rw e (
      Returns-and_then (λ _ d'. Adds (image_def info.dlpi_addr (image info)) d d')
        (λ ret d'. (ret ≡ pos 0) × Adds (λ fn. image_def info.dlpi_addr (image info) fn) d d')
        (visit_headers info.dlpi_addr info.dlpi_phdr initial d) _
        (subst
          (λ headers.
            Returns (λ _ d'. Adds (image_def info.dlpi_addr (image info)) d d')
              (visit_headers info.dlpi_addr headers initial d))
          (sym h.headers) (headers_lem info.dlpi_addr (image info) d h.counted))
        λ _ _ adds. (refl, adds))
]

-- On objects whose one dynamic section has the hash table in front of the names and these in front
-- of the symbols, and no fewer symbols than the hash table counts, the walk returns 0 and every
-- function has the address it had, or else that of its first definition in the order of the
-- objects.
pub iterate_phdr_lem :
    (image : PhdrInfo → Image) (infos : List PhdrInfo) (d : DlFcn)
    → All (λ info. IsLaidOut (image info) info) infos
    → Returns
        (λ ret d'. (ret ≡ pos 0) × Adds (first_object_def image infos) d d')
        (iterate_phdr infos d)
unfolding iterate_phdr
iterate_phdr_lem image [] d h = (refl, Adds-none d)
iterate_phdr_lem image (info ∷ infos) d h =
    Returns-and_then (λ ret d'. (ret ≡ pos 0) × Adds (object_def image info) d d')
      (λ ret d'. (ret ≡ pos 0) × Adds (first_object_def image (info ∷ infos)) d d')
      (retrieve_symbols info d) _ (retrieve_symbols_lem image info d h.0)
      λ ret e (zero', adds). rw zero' (
        Returns-mono (λ ret' d'. (ret' ≡ pos 0) × Adds (first_object_def image infos) e d')
          (λ ret' d'. (ret' ≡ pos 0) × Adds (first_object_def image (info ∷ infos)) d d')
          (iterate_phdr infos e) (iterate_phdr_lem image infos e h.1)
          λ ret' e' (z, more).
            (z, Adds-Adds (object_def image info) (first_object_def image infos) d e e' adds more))
