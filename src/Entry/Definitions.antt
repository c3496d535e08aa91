-- ===== src/Entry/Definitions.antt =====
-- Which definitions `retrieve_symbols` takes.
use Prim.Native.String.{String}
use text.Mathlib.Text.{◌==◌ as str_eq}
use text.Mathlib.TextEquality.{eq_iff}
use nv_resource_controller.Prelude.{
  ℕ, zero, suc, ◌+◌, ◌%◌, ◌^◌, ◌≤◌, ◌≡◌, refl, ap, ◌∙◌, sym, subst, ◌⊎◌, true, false, Option, none,
  some, List, [], ◌∷◌, ◌==◌, length, if◌then◌else◌, arith, Bool-cases, inl, inr,
}
use nv_resource_controller.Prelude.Run.{Returns, Returns-and_then, Returns-mono}
use nv_resource_controller.Cuda.{first_of}
use nv_resource_controller.Entry.{DlFcn, Sym, pointer, store_symbol, visit_symbol, visit_symbols}

-- The functions that are looked for.
pub data Func : Type 0 where
  fn_dlsym : Func
  fn_dlopen : Func
  fn_dlclose : Func
  fn_dladdr : Func
  fn_ioctl : Func

abbrev pub name_of : Func → String
name_of fn_dlsym = "dlsym"
name_of fn_dlopen = "dlopen"
name_of fn_dlclose = "dlclose"
name_of fn_dladdr = "dladdr"
name_of fn_ioctl = "ioctl"

abbrev pub field_of : Func → DlFcn → Option ℕ
field_of fn_dlsym d = d.dlsym
field_of fn_dlopen d = d.dlopen
field_of fn_dlclose d = d.dlclose
field_of fn_dladdr d = d.dladdr
field_of fn_ioctl d = d.ioctl

first_of-none : (o : Option ℕ) → o ≡ first_of o none
first_of-none none = refl
first_of-none (some p) = refl

first_of_assoc : (a b c : Option ℕ) → first_of (first_of a b) c ≡ first_of a (first_of b c)
first_of_assoc none b c = refl
first_of_assoc (some p) b c = refl

-- The address, under the name of the function.
abbrev named : Func → String → ℕ → Option ℕ
named fn name addr = if str_eq name (name_of fn) then pointer addr else none

store_known :
    (k fn : Func) (addr : ℕ) (d : DlFcn)
    → field_of fn (store_symbol (name_of k) addr d)
      ≡ first_of (field_of fn d) (named fn (name_of k) addr)
unfolding store_symbol
store_known fn_dlsym fn_dlsym addr d = refl
store_known fn_dlopen fn_dlopen addr d = refl
store_known fn_dlclose fn_dlclose addr d = refl
store_known fn_dladdr fn_dladdr addr d = refl
store_known fn_ioctl fn_ioctl addr d = refl
store_known k fn addr d = first_of-none (field_of fn d)

-- A name that is one of the five.
store_same :
    (k fn : Func) (name : String) (addr : ℕ) (d : DlFcn)
    → str_eq name (name_of k) ≡ true
    → field_of fn (store_symbol name addr d) ≡ first_of (field_of fn d) (named fn name addr)
store_same k fn name addr d e =
    subst (λ n. field_of fn (store_symbol n addr d) ≡ first_of (field_of fn d) (named fn n addr))
      (sym ((eq_iff name (name_of k)).0 e)) (store_known k fn addr d)

-- A name that is none of the five.
store_other :
    (fn : Func) (name : String) (addr : ℕ) (d : DlFcn)
    → ((k : Func) → str_eq name (name_of k) ≡ false)
    → field_of fn (store_symbol name addr d) ≡ first_of (field_of fn d) (named fn name addr)
unfolding store_symbol
store_other fn name addr d h =
    rw (h fn_dlsym, h fn_dlopen, h fn_dlclose, h fn_dladdr, h fn_ioctl)
      (rw (h fn) (first_of-none (field_of fn d)))

-- Is it one of the five names?
find_name :
    (name : String)
    → ((k : Func) × (str_eq name (name_of k) ≡ true))
      ⊎ ((k : Func) → str_eq name (name_of k) ≡ false)
find_name name = elim (Bool-cases (str_eq name "dlsym")) [
  | inl e ↦ inl (fn_dlsym, e)
  | inr a ↦ elim (Bool-cases (str_eq name "dlopen")) [
    | inl e ↦ inl (fn_dlopen, e)
    | inr b ↦ elim (Bool-cases (str_eq name "dlclose")) [
      | inl e ↦ inl (fn_dlclose, e)
      | inr c ↦ elim (Bool-cases (str_eq name "dladdr")) [
        | inl e ↦ inl (fn_dladdr, e)
        | inr d ↦ elim (Bool-cases (str_eq name "ioctl")) [
          | inl e ↦ inl (fn_ioctl, e)
          | inr e ↦ inr (λ k. elim k as (λ k. str_eq name (name_of k) ≡ false) [
            | fn_dlsym ↦ a
            | fn_dlopen ↦ b
            | fn_dlclose ↦ c
            | fn_dladdr ↦ d
            | fn_ioctl ↦ e
          ])
        ]
      ]
    ]
  ]
]

store_symbol_lem :
    (fn : Func) (name : String) (addr : ℕ) (d : DlFcn)
    → field_of fn (store_symbol name addr d) ≡ first_of (field_of fn d) (named fn name addr)
store_symbol_lem fn name addr d = elim (find_name name) [
  | inl (k, e) ↦ store_same k fn name addr d e
  | inr other ↦ store_other fn name addr d other
]

-- What a symbol defines: nothing where its value moves it to the base of its object.
abbrev pub def_of : Func → (base : ℕ) → (ℕ → String) → Sym → Option ℕ
def_of fn base name_at sym =
    let addr : ℕ = (base + sym.st_value) % 2 ^ 64 in
    if addr == base then none else named fn (name_at sym.st_name) addr

-- The first of the first `n` symbols that defines the function.
abbrev pub first_def : Func → (base : ℕ) → (ℕ → String) → ℕ → List Sym → Option ℕ
first_def fn base name_at zero syms = none
first_def fn base name_at (suc n) [] = none
first_def fn base name_at (suc n) (sym ∷ syms) =
    first_of (def_of fn base name_at sym) (first_def fn base name_at n syms)

-- Each field is what it was, or what `new` gives where it was null.
abbrev pub Adds : (Func → Option ℕ) → DlFcn → DlFcn → Type 0
Adds new d d' = (fn : Func) → field_of fn d' ≡ first_of (field_of fn d) (new fn)

pub Adds-none : (d : DlFcn) → Adds (λ _. none) d d
Adds-none d fn = first_of-none (field_of fn d)

pub Adds-Adds :
    (new new' : Func → Option ℕ) (d e e' : DlFcn)
    → Adds new d e
    → Adds new' e e'
    → Adds (λ fn. first_of (new fn) (new' fn)) d e'
Adds-Adds new new' d e e' h h' fn =
    h' fn
    ∙ ap (λ o. first_of o (new' fn)) (h fn)
    ∙ first_of_assoc (field_of fn d) (new fn) (new' fn)

visit_symbol_lem :
    (base : ℕ) (name_at : ℕ → String) (sym : Sym) (d : DlFcn)
    → Returns
        (λ _ d'. Adds (λ fn. def_of fn base name_at sym) d d')
        (visit_symbol base (some name_at) sym d)
unfolding visit_symbol
visit_symbol_lem base name_at sym d = elim (Bool-cases ((base + sym.st_value) % 2 ^ 64 == base)) [
  | inl e ↦ rw e (Adds-none d)
  | inr e ↦
      rw e (λ fn. store_symbol_lem fn (name_at sym.st_name) ((base + sym.st_value) % 2 ^ 64) d)
]

pub visit_symbols_lem :
    (base : ℕ) (name_at : ℕ → String) (n : ℕ) (syms : List Sym) (d : DlFcn)
    → n ≤ length syms
    → Returns
        (λ _ d'. Adds (λ fn. first_def fn base name_at n syms) d d')
        (visit_symbols base (some name_at) n syms d)
unfolding visit_symbols
visit_symbols_lem base name_at zero syms d h = Adds-none d
visit_symbols_lem base name_at (suc n) [] d h = absurd (omega arith)
visit_symbols_lem base name_at (suc n) (sym ∷ syms) d h =
    Returns-and_then (λ _ e. Adds (λ fn. def_of fn base name_at sym) d e)
      (λ _ d'. Adds (λ fn. first_def fn base name_at (suc n) (sym ∷ syms)) d d')
      (visit_symbol base (some name_at) sym d) _ (visit_symbol_lem base name_at sym d)
      λ _ e one.
        Returns-mono (λ _ d'. Adds (λ fn. first_def fn base name_at n syms) e d')
          (λ _ d'. Adds (λ fn. first_def fn base name_at (suc n) (sym ∷ syms)) d d')
          (visit_symbols base (some name_at) n syms e)
          (visit_symbols_lem base name_at n syms e (omega arith))
          λ _ e' more.
            Adds-Adds (λ fn. def_of fn base name_at sym) (λ fn. first_def fn base name_at n syms) d
              e e' one more
