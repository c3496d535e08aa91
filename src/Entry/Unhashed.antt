-- ===== src/Entry/Unhashed.antt =====
-- `retrieve_symbols` on objects that have no `DT_HASH`, such as those with `DT_GNU_HASH` alone.
use nv_resource_controller.Prelude.{ℕ, ◌≡◌, refl, none, List, [], ◌∷◌, All, Bool-cases, inl, inr}
use nv_resource_controller.Prelude.Int.{pos}
use nv_resource_controller.Prelude.Run.{Returns, Returns-and_then}
use nv_resource_controller.Entry.{
  DlFcn, Dyn, dt_hash, dt_strtab, dt_symtab, dt_other, Phdr, pt_dynamic, pt_other, PhdrInfo,
  SymLocals, visit_symbols, visit_dyn, visit_dyns, visit_headers, skipped, retrieve_symbols,
  iterate_phdr,
}

abbrev pub IsNoHash : Dyn → Type 0
IsNoHash (dt_hash n) = ⊥
IsNoHash dyn = Unit {0}

abbrev pub HasNoHash : Phdr → Type 0
HasNoHash (pt_dynamic dyns) = All IsNoHash dyns
HasNoHash pt_other = Unit {0}

-- Nothing is counted and nothing recorded.
abbrev Untouched : DlFcn → SymLocals → DlFcn → Type 0
Untouched d l e = (l.sym_cnt ≡ 0) × (e ≡ d)

visit_dyn-Untouched :
    (base : ℕ) (dyn : Dyn) (l : SymLocals) (d : DlFcn)
    → l.sym_cnt ≡ 0
    → IsNoHash dyn
    → Returns (Untouched d) (visit_dyn base dyn l d)
unfolding visit_dyn visit_symbols
visit_dyn-Untouched base (dt_hash n) l d z h = absurd h
visit_dyn-Untouched base (dt_strtab name_at) l d z h = (z, refl)
visit_dyn-Untouched base (dt_symtab syms) l d z h = rw z (refl, refl)
visit_dyn-Untouched base dt_other l d z h = (z, refl)

visit_dyns-Untouched :
    (base : ℕ) (dyns : List Dyn) (l : SymLocals) (d : DlFcn)
    → l.sym_cnt ≡ 0
    → All IsNoHash dyns
    → Returns (Untouched d) (visit_dyns base dyns l d)
unfolding visit_dyns
visit_dyns-Untouched base [] l d z h = (z, refl)
visit_dyns-Untouched base (dyn ∷ dyns) l d z h =
    Returns-and_then (Untouched d) (Untouched d) (visit_dyn base dyn l d) _
      (visit_dyn-Untouched base dyn l d z h.0)
      λ l' e (z', same). rw same (visit_dyns-Untouched base dyns l' d z' h.1)

visit_headers-Untouched :
    (base : ℕ) (headers : List Phdr) (l : SymLocals) (d : DlFcn)
    → l.sym_cnt ≡ 0
    → All HasNoHash headers
    → Returns (Untouched d) (visit_headers base headers l d)
unfolding visit_headers
visit_headers-Untouched base [] l d z h = (z, refl)
visit_headers-Untouched base (pt_other ∷ headers) l d z h =
    visit_headers-Untouched base headers l d z h.1
visit_headers-Untouched base (pt_dynamic dyns ∷ headers) l d z h =
    Returns-and_then (Untouched d) (Untouched d) (visit_dyns base dyns l d) _
      (visit_dyns-Untouched base dyns l d z h.0)
      λ l' e (z', same). rw same (visit_headers-Untouched base headers l' d z' h.1)

retrieve_symbols-unhashed :
    (info : PhdrInfo) (d : DlFcn)
    → All HasNoHash info.dlpi_phdr
    → Returns (λ ret e. (ret ≡ pos 0) × (e ≡ d)) (retrieve_symbols info d)
unfolding retrieve_symbols
retrieve_symbols-unhashed info d h = elim (Bool-cases (skipped info)) [
  | inl e ↦ rw e (refl, refl)
  | inr e ↦ rw e (
      Returns-and_then (Untouched d) (λ ret e. (ret ≡ pos 0) × (e ≡ d))
        (visit_headers info.dlpi_addr info.dlpi_phdr (record { sym_cnt = 0; strtab = none }) d) _
        (visit_headers-Untouched info.dlpi_addr info.dlpi_phdr
          (record { sym_cnt = 0; strtab = none }) d refl h)
        λ _ _ same. (refl, same.1))
]

-- Where no object has a `DT_HASH`, the walk returns 0 and records nothing.
pub iterate_phdr-unhashed :
    (infos : List PhdrInfo) (d : DlFcn)
    → All (λ info. All HasNoHash info.dlpi_phdr) infos
    → Returns (λ ret e. (ret ≡ pos 0) × (e ≡ d)) (iterate_phdr infos d)
unfolding iterate_phdr
iterate_phdr-unhashed [] d h = (refl, refl)
iterate_phdr-unhashed (info ∷ infos) d h =
    Returns-and_then (λ ret e. (ret ≡ pos 0) × (e ≡ d)) (λ ret e. (ret ≡ pos 0) × (e ≡ d))
      (retrieve_symbols info d) _ (retrieve_symbols-unhashed info d h.0)
      λ ret e (z, same). rw (z, same) (iterate_phdr-unhashed infos d h.1)
