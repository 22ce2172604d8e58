-- ===== src/Dynload/Registry.antt =====
-- The lookups of source/symbol_registry.cpp in its table, and a game that acquires coreinit.
use coreinit_nx.Base.{
  ℕ, suc, zero, ◌≡◌, refl, sym, ap, ◌∙◌, subst, inl, inr, Bool, true, false, not, ◌&&◌, List, [],
  ◌∷◌, none, some, ◌==◌, ==_self, if◌then◌else◌, get_elem?, Bool-cases, arith,
}
use coreinit_nx.Base.Text.{codes}
use coreinit_nx.Dynload.{
  ExportKind, function, data_export, ExportedSymbol, LoadedModule, ok, module_not_found, same_kind,
  same_name, find_export_of_kind, has_library, base_name, acquire, find_export,
}
use coreinit_nx.Dynload.Exports.{k_exports}
use coreinit_nx.Dynload.Resolving.{same_name-eq, acquire_then_find}

-- Whether an entry is what a lookup asks for.
abbrev answers : List ℕ → List ℕ → ExportKind → ExportedSymbol → Bool
answers library name kind e =
    same_kind e.kind kind && same_name e.library library && same_name e.name name

abbrev none_answers : ExportedSymbol → List ExportedSymbol → Bool
none_answers e [] = true
none_answers e (d ∷ ds) = not (answers d.library d.name d.kind e) && none_answers e ds

-- No entry answers a lookup for a later one.
abbrev distinct : List ExportedSymbol → Bool
distinct [] = true
distinct (e ∷ es) = none_answers e es && distinct es

same_name_self : (s : List ℕ) → same_name s s ≡ true
same_name_self [] = refl
same_name_self (a ∷ s) = simp (==_self a, same_name_self s)

same_kind_self : (k : ExportKind) → same_kind k k ≡ true
same_kind_self function = refl
same_kind_self data_export = refl

none_answers-get :
    (e : ExportedSymbol) (es : List ExportedSymbol) (i : ℕ) (d : ExportedSymbol)
    → none_answers e es ≡ true
    → get_elem? es i ≡ some d
    → answers d.library d.name d.kind e ≡ false
none_answers-get e [] i d n g = absurd (cc)
none_answers-get e (x ∷ es) zero d n g =
    let same : x ≡ d = cc in
    subst (λ y. answers y.library y.name y.kind e ≡ false) same
      (elim (Bool-cases (answers x.library x.name x.kind e)) [
        | inl a ↦ absurd (cc (simp a at n))
        | inr a ↦ a
      ])
none_answers-get e (x ∷ es) (suc i) d n g =
    none_answers-get e es i d
      (elim (Bool-cases (answers x.library x.name x.kind e)) [
        | inl a ↦ absurd (cc (simp a at n))
        | inr a ↦ simp a at n
      ])
      g

distinct_split :
    (e : ExportedSymbol) (es : List ExportedSymbol)
    → distinct (e ∷ es) ≡ true
    → (none_answers e es ≡ true) × (distinct es ≡ true)
distinct_split e es d = elim (Bool-cases (none_answers e es)) [
  | inl n ↦ (n, simp n at d)
  | inr n ↦ absurd (cc (simp n at d))
]

found_entry :
    (es : List ExportedSymbol) (i : ℕ) (d : ExportedSymbol)
    → distinct es ≡ true
    → get_elem? es i ≡ some d
    → find_export_of_kind es d.library d.name d.kind ≡ d.address
unfolding find_export_of_kind
found_entry [] i d n g = absurd (cc)
found_entry (x ∷ es) zero d n g =
    let same : x ≡ d = cc in
    subst (λ y. find_export_of_kind (x ∷ es) y.library y.name y.kind ≡ y.address) same
      (simp (same_kind_self x.kind, same_name_self x.library, same_name_self x.name))
found_entry (x ∷ es) (suc i) d n g =
    let (h, r) = distinct_split x es n in
    let a = none_answers-get x es i d h g in rw a (found_entry es i d r g)

k_exports-distinct : (address : List ℕ → ℕ) → distinct (k_exports address) ≡ true
unfolding k_exports
k_exports-distinct address = refl

-- Every entry of the table is found by its library, its name and its kind, at the address the linker
-- gave it: none is hidden by another.
pub every_export_found :
    (address : List ℕ → ℕ) (i : ℕ) (e : ExportedSymbol)
    → get_elem? (k_exports address) i ≡ some e
    → find_export_of_kind (k_exports address) e.library e.name e.kind ≡ e.address
every_export_found address i e g =
    found_entry (k_exports address) i e (k_exports-distinct address) g

abbrev all_of : List ℕ → List ExportedSymbol → Bool
all_of library [] = true
all_of library (e ∷ es) = same_name e.library library && all_of library es

coreinit_only : (address : List ℕ → ℕ) → all_of (codes "coreinit") (k_exports address) ≡ true
unfolding k_exports
coreinit_only address = refl

all_of_split :
    (library : List ℕ) (e : ExportedSymbol) (es : List ExportedSymbol)
    → all_of library (e ∷ es) ≡ true
    → (e.library ≡ library) × (all_of library es ≡ true)
all_of_split library e es a = elim (Bool-cases (same_name e.library library)) [
  | inl n ↦ (same_name-eq e.library library n, simp n at a)
  | inr n ↦ absurd (cc (simp n at a))
]

all_of-get :
    (library : List ℕ) (es : List ExportedSymbol) (i : ℕ) (d : ExportedSymbol)
    → all_of library es ≡ true
    → get_elem? es i ≡ some d
    → d.library ≡ library
all_of-get library [] i d a g = absurd (cc)
all_of-get library (x ∷ es) zero d a g =
    let same : x ≡ d = cc in ap (λ y. y.library) (sym same) ∙ (all_of_split library x es a).0
all_of-get library (x ∷ es) (suc i) d a g =
    all_of-get library es i d (all_of_split library x es a).1 g

has_library-eq :
    (library asked : List ℕ) (es : List ExportedSymbol)
    → all_of library es ≡ true
    → has_library es asked ≡ true
    → asked ≡ library
unfolding has_library
has_library-eq library asked [] a h = absurd (cc)
has_library-eq library asked (e ∷ es) a h =
    let (l, r) = all_of_split library e es a in
    elim (Bool-cases (same_name e.library asked)) [
      | inl n ↦ sym (same_name-eq e.library asked n) ∙ l
      | inr n ↦ has_library-eq library asked es r (simp n at h)
    ]

acquired_known :
    (exports : List ExportedSymbol) (name : List ℕ) (ms ms' : List LoadedModule) (i : ℕ)
    → acquire exports true (some name) ms ≡ (ms', (ok, some i))
    → has_library exports (base_name name) ≡ true
unfolding acquire
acquired_known exports [] ms ms' i e = absurd (ground (arith, e))
acquired_known exports (c ∷ s) ms ms' i e =
    elim (Bool-cases (has_library exports (base_name (c ∷ s)))) [
      | inl h ↦ h
      | inr h ↦ absurd (ground (arith, simp h at e))
    ]

-- When `OSDynLoad_Acquire` of a name succeeds on the table of the library, `OSDynLoad_FindExport` by the
-- handle that it gave answers, for every entry of the table asked for by its name and its kind, the
-- address of the entry, or that it is not found where the linker gave the address 0.
pub coreinit_resolves :
    (address : List ℕ → ℕ) (asked : List ℕ) (ms ms' : List LoadedModule) (i j : ℕ)
    (e : ExportedSymbol)
    → acquire (k_exports address) true (some asked) ms ≡ (ms', (ok, some i))
    → get_elem? (k_exports address) j ≡ some e
    → find_export (k_exports address) ms' i e.kind e.name
      ≡ (if e.address == 0 then (module_not_found, none) else (ok, some e.address))
coreinit_resolves address asked ms ms' i j e a g =
    let only = coreinit_only address in
    let base =
      has_library-eq (codes "coreinit") (base_name asked) (k_exports address) only
        (acquired_known (k_exports address) asked ms ms' i a) in
    let library = all_of-get (codes "coreinit") (k_exports address) j e only g in
    let at : find_export_of_kind (k_exports address) (base_name asked) e.name e.kind ≡ e.address =
      ap (λ l. find_export_of_kind (k_exports address) l e.name e.kind) (base ∙ sym library)
      ∙ every_export_found address j e g in
    acquire_then_find (k_exports address) asked ms ms' i e.kind e.name a
    ∙ ap (λ x. if x == 0 then (module_not_found, none) else (ok, some x)) at
