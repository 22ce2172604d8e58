-- ===== src/Dynload.antt =====
-- source/dynload.cpp and the lookups of source/symbol_registry.cpp: modules with reference counts, and
-- exports by name. Names are lists of characters; the array of 16 slots is a list and a handle is the
-- number of a slot, so that a pointer into the middle of a slot has no place here. The table of
-- exports is an argument.
pub mod Resolving
pub mod Exports
pub mod Registry
mod Tests
use coreinit_nx.Base.{
  ℕ, suc, zero, ◌+◌, ◌-◌, ◌%◌, ◌^◌, Bool, true, false, not, ◌&&◌, List, [], ◌∷◌, Option, none, some,
  ltb, ◌==◌, if◌then◌else◌, take, get_elem?, set,
}

pub data ExportKind : Type 0 where
  function data_export : ExportKind

abbrev pub same_kind : ExportKind → ExportKind → Bool
same_kind function function = true
same_kind data_export data_export = true
same_kind _ _ = false

pub record ExportedSymbol : Type 0 where
  pub library : List ℕ
  pub name : List ℕ
  pub address : ℕ
  pub kind : ExportKind

-- `strcmp(a, b) == 0`.
abbrev pub same_name : List ℕ → List ℕ → Bool
same_name [] [] = true
same_name (a ∷ as') (b ∷ bs) = a == b && same_name as' bs
same_name _ _ = false

-- `findExportOfKind`, 0 for null.
pub find_export_of_kind : List ExportedSymbol → List ℕ → List ℕ → ExportKind → ℕ
find_export_of_kind [] library name kind = 0
find_export_of_kind (e ∷ es) library name kind =
    if same_kind e.kind kind && same_name e.library library && same_name e.name name
    then e.address
    else find_export_of_kind es library name kind

pub has_library : List ExportedSymbol → List ℕ → Bool
has_library [] library = false
has_library (e ∷ es) library = if same_name e.library library then true else has_library es library

pub record LoadedModule : Type 0 where
  pub name : List ℕ
  pub ref_count : ℕ
  pub used : Bool

-- OSDynLoad_Error.
pub data Error : Type 0 where
  ok invalid_acquire_ptr invalid_module_name_ptr empty_module_name module_not_found out_of_memory :
      Error

-- The characters of ".rpl".
abbrev pub starts_rpl : List ℕ → Bool
starts_rpl (a ∷ b ∷ c ∷ d ∷ s) = a == 46 && b == 114 && c == 112 && d == 108
starts_rpl _ = false

-- The text before the first ".rpl".
pub cut_rpl : List ℕ → List ℕ
cut_rpl [] = []
cut_rpl (c ∷ s) = if starts_rpl (c ∷ s) then [] else c ∷ cut_rpl s

-- The name that the registry knows: `char base[64]` holds 63 characters of it.
pub base_name : List ℕ → List ℕ
base_name name = cut_rpl (take 63 name)

abbrev pub holds : List ℕ → LoadedModule → Bool
holds base m = m.used && same_name m.name base

-- The first loop of `OSDynLoad_Acquire`: the slot of a module that is in use, counted up.
pub acquire_again : List ℕ → List LoadedModule → Option (List LoadedModule × ℕ)
acquire_again base [] = none
acquire_again base (m ∷ ms) =
    if holds base m
    then some (record m { ref_count = (m.ref_count + 1) % 2 ^ 32 } ∷ ms, 0)
    else elim (acquire_again base ms) [ none ↦ none | some r ↦ some (m ∷ r.0, suc r.1) ]

-- The second loop: the first slot that is not used.
pub acquire_slot : List ℕ → List LoadedModule → Option (List LoadedModule × ℕ)
acquire_slot base [] = none
acquire_slot base (m ∷ ms) =
    if m.used
    then elim (acquire_slot base ms) [ none ↦ none | some r ↦ some (m ∷ r.0, suc r.1) ]
    else some (record { name = take 63 base; ref_count = 1; used = true } ∷ ms, 0)

abbrev pub opened :
    List LoadedModule → Option (List LoadedModule × ℕ) → List LoadedModule × (Error × Option ℕ)
opened ms none = (ms, (out_of_memory, none))
opened ms (some (ms', i)) = (ms', (ok, some i))

-- `OSDynLoad_Acquire`: `out` is whether there is a place for the handle.
pub acquire :
    List ExportedSymbol
    → Bool
    → Option (List ℕ)
    → List LoadedModule
    → List LoadedModule × (Error × Option ℕ)
acquire exports false name ms = (ms, (invalid_acquire_ptr, none))
acquire exports true none ms = (ms, (invalid_module_name_ptr, none))
acquire exports true (some []) ms = (ms, (empty_module_name, none))
acquire exports true (some (c ∷ s)) ms =
    let base = base_name (c ∷ s) in
    if has_library exports base
    then elim (acquire_again base ms) [
      | none ↦ opened ms (acquire_slot base ms)
      | some r ↦ opened ms (some r)
    ]
    else (ms, (module_not_found, none))

-- `asModule`.
abbrev pub in_use : Option LoadedModule → Option LoadedModule
in_use none = none
in_use (some m) = if m.used then some m else none

-- The end of `OSDynLoad_FindExport`, with the module that the handle stands for.
abbrev pub resolved :
    List ExportedSymbol → ExportKind → List ℕ → Option LoadedModule → Error × Option ℕ
resolved exports kind name none = (module_not_found, none)
resolved exports kind name (some m) =
    let addr = find_export_of_kind exports m.name name kind in
    if addr == 0 then (module_not_found, none) else (ok, some addr)

-- `OSDynLoad_FindExport` of a name.
pub find_export :
    List ExportedSymbol → List LoadedModule → ℕ → ExportKind → List ℕ → Error × Option ℕ
find_export exports ms i kind name = resolved exports kind name (in_use (get_elem? ms i))

pub release : List LoadedModule → ℕ → List LoadedModule
release ms i = elim (in_use (get_elem? ms i)) [
  | none ↦ ms
  | some m ↦
      if ltb 0 m.ref_count
      then set ms i
          (record { name = m.name; ref_count = m.ref_count - 1; used = not (m.ref_count - 1 == 0) })
      else ms
]

-- `g_allocFn` and `g_freeFn`, 0 for null: `none` is OS_DYNLOAD_INVALID_ALLOCATOR_PTR.
pub set_allocator : ℕ × ℕ → ℕ → ℕ → (ℕ × ℕ) × Bool
set_allocator old alloc_fn free_fn =
    if alloc_fn == 0
    then (old, false)
    else if free_fn == 0
    then (old, false)
    else ((alloc_fn, free_fn), true)
