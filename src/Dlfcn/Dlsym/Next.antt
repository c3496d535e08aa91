-- ===== src/Dlfcn/Dlsym/Next.antt =====
-- `get_next_symbol` against the maps below the caller.
use Prim.Native.String.{String}
use nv_resource_controller.Prelude.{
  ℕ, ◌+◌, ◌≡◌, refl, true, Option, none, some, List, [], ◌∷◌, drop, ltb, if◌then◌else◌, arith,
}
use nv_resource_controller.Prelude.Run.{ok}
use nv_resource_controller.Dlfcn.Dlsym.{
  Found, LinkMap, Linker, DlState, search_maps, self_path, get_next_symbol,
}

-- The maps that do not begin above the caller.
abbrev pub maps_below : ℕ → List LinkMap → List LinkMap
maps_below caller [] = []
maps_below caller (map ∷ maps) =
    let rest = maps_below caller maps in if ltb caller map.l_addr then rest else map ∷ rest

-- What one map defines the symbol as.
abbrev pub definition : Linker → String → LinkMap → Option ℕ
definition linker symbol map = elim (linker.dlopen map.l_name) [
  | none ↦ none
  | some h ↦ linker.dlsym h symbol
]

-- The first definition.
unfoldable pub first_definition : Linker → String → List LinkMap → Option ℕ
first_definition linker symbol [] = none
first_definition linker symbol (map ∷ maps) =
    let rest = first_definition linker symbol maps in
    elim (definition linker symbol map) [ none ↦ rest | some p ↦ some p ]

-- Every map can be opened: it is loaded.
abbrev pub AllLoaded : Linker → List LinkMap → Type 0
AllLoaded linker [] = Unit {0}
AllLoaded linker (map ∷ maps) =
    ((h : ℕ) × (linker.dlopen map.l_name ≡ some h)) × AllLoaded linker maps

module _ (linker : Linker) (caller : ℕ) (symbol : String) where
  -- Past the first map below the caller.
  search_maps-suc :
      (index : ℕ) (maps : List LinkMap) (s : DlState)
      → AllLoaded linker maps
      → search_maps linker caller symbol (index + 1) maps s
        ≡ ok (first_definition linker symbol (maps_below caller maps)) s
  unfolding search_maps first_definition
  search_maps-suc index [] s l = refl
  search_maps-suc index (map ∷ maps) s l = ground (arith, l.0.1, search_maps-suc index maps s l.1)

  search_maps-zero :
      (maps : List LinkMap) (s : DlState)
      → AllLoaded linker maps
      → search_maps linker caller symbol 0 maps s
        ≡ ok (first_definition linker symbol (drop 1 (maps_below caller maps))) s
  unfolding search_maps first_definition
  search_maps-zero [] s l = refl
  search_maps-zero (map ∷ maps) s l =
      ground (arith, search_maps-suc 0 maps s l.1, search_maps-zero maps s l.1)

  -- With all pointers found and every map loaded, the answer is the first definition in the maps
  -- that do not begin above the caller, the first of these left out; every handle that was opened
  -- is closed.
  pub get_next_symbol_lem :
      (found : Found) (self : ℕ) (s : DlState)
      → found ≡ record { dlopen = true; dlsym = true; dlclose = true; dladdr = true }
      → linker.dlopen (self_path linker) ≡ some self
      → AllLoaded linker (linker.chain self)
      → get_next_symbol found linker caller symbol s
        ≡ ok (first_definition linker symbol (drop 1 (maps_below caller (linker.chain self)))) s
  unfolding get_next_symbol
  get_next_symbol_lem found self s e o l =
      rw (e, o)
        (ground
          (arith, search_maps-zero (linker.chain self) (record s { handles = s.handles + 1 }) l))
