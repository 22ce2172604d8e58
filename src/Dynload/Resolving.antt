-- ===== src/Dynload/Resolving.antt =====
-- What an acquired module resolves.
use coreinit_nx.Base.{
  ℕ, suc, zero, ◌+◌, ◌%◌, ◌^◌, ◌≡◌, refl, ap, ◌∙◌, subst, Bool, true, false, List, [], ◌∷◌, Option,
  none, some, ◌==◌, if◌then◌else◌, take, get_elem?, arith,
}
use coreinit_nx.Dynload.{
  ExportKind, ExportedSymbol, LoadedModule, Error, ok, module_not_found, same_name, holds,
  find_export_of_kind, cut_rpl, base_name, starts_rpl, acquire_again, acquire_slot, acquire, opened,
  in_use, resolved, find_export,
}

pub same_name-eq : (a b : List ℕ) → same_name a b ≡ true → a ≡ b
same_name-eq [] [] e = refl
same_name-eq [] (b ∷ bs) e = absurd (cc)
same_name-eq (a ∷ as') [] e = absurd (cc)
same_name-eq (a ∷ as') (b ∷ bs) e =
    let (h, t) : ((a == b) ≡ true) × (same_name as' bs ≡ true) = ground (arith, e) in
    let rest = same_name-eq as' bs t in let first : a ≡ b = ground (arith, h) in cc

-- The slot of a number holds a module in use under a name.
abbrev pub IsLoaded : List LoadedModule → ℕ → List ℕ → Type 0
IsLoaded ms i base =
    (m : LoadedModule) × (get_elem? ms i ≡ some m) × (m.used ≡ true) × (m.name ≡ base)

IsLoaded-again :
    (base : List ℕ) (m : LoadedModule) (ms ms' : List LoadedModule) (i : ℕ) (here : Bool)
    (later : Option (List LoadedModule × ℕ))
    → holds base m ≡ here
    → ((ms'' : List LoadedModule) (j : ℕ) → later ≡ some (ms'', j) → IsLoaded ms'' j base)
    → (if◌then◌else◌ {A = Option (List LoadedModule × ℕ)} here
        (some (record m { ref_count = (m.ref_count + 1) % 2 ^ 32 } ∷ ms, 0))
        (elim later [ none ↦ none | some r ↦ some (m ∷ r.0, suc r.1) ]))
      ≡ some (ms', i)
    → IsLoaded ms' i base
IsLoaded-again base m ms ms' i true later h rest e =
    let m' : LoadedModule = record m { ref_count = (m.ref_count + 1) % 2 ^ 32 } in
    let same : ◌≡◌ {A = List LoadedModule × ℕ} (m' ∷ ms, zero) (ms', i) = cc in
    let (u, n) : (m.used ≡ true) × (same_name m.name base ≡ true) = ground (arith, h) in
    subst (λ p. IsLoaded p.0 p.1 base) same (m', refl, u, same_name-eq m.name base n)
IsLoaded-again base m ms ms' i false none h rest e = absurd (cc)
IsLoaded-again base m ms ms' i false (some (ms'', j)) h rest e =
    let same : ◌≡◌ {A = List LoadedModule × ℕ} (m ∷ ms'', suc j) (ms', i) = cc in
    subst (λ p. IsLoaded p.0 p.1 base) same (rest ms'' j refl)

IsLoaded-slot :
    (base : List ℕ) (m : LoadedModule) (ms ms' : List LoadedModule) (i : ℕ) (taken : Bool)
    (later : Option (List LoadedModule × ℕ))
    → take 63 base ≡ base
    → ((ms'' : List LoadedModule) (j : ℕ) → later ≡ some (ms'', j) → IsLoaded ms'' j base)
    → (if◌then◌else◌ {A = Option (List LoadedModule × ℕ)} taken
        (elim later [ none ↦ none | some r ↦ some (m ∷ r.0, suc r.1) ])
        (some (record { name = take 63 base; ref_count = 1; used = true } ∷ ms, 0)))
      ≡ some (ms', i)
    → IsLoaded ms' i base
IsLoaded-slot base m ms ms' i true none l rest e = absurd (cc)
IsLoaded-slot base m ms ms' i true (some (ms'', j)) l rest e =
    let same : ◌≡◌ {A = List LoadedModule × ℕ} (m ∷ ms'', suc j) (ms', i) = cc in
    subst (λ p. IsLoaded p.0 p.1 base) same (rest ms'' j refl)
IsLoaded-slot base m ms ms' i false later l rest e =
    let m' : LoadedModule = record { name = take 63 base; ref_count = 1; used = true } in
    let same : ◌≡◌ {A = List LoadedModule × ℕ} (m' ∷ ms, zero) (ms', i) = cc in
    subst (λ p. IsLoaded p.0 p.1 base) same (m', refl, refl, l)

acquire_again-IsLoaded :
    (base : List ℕ) (ms ms' : List LoadedModule) (i : ℕ)
    → acquire_again base ms ≡ some (ms', i)
    → IsLoaded ms' i base
unfolding acquire_again
acquire_again-IsLoaded base [] ms' i e = absurd (cc)
acquire_again-IsLoaded base (m ∷ ms) ms' i e =
    IsLoaded-again base m ms ms' i (holds base m) (acquire_again base ms) refl
      (λ ms'' j f. acquire_again-IsLoaded base ms ms'' j f) e

acquire_slot-IsLoaded :
    (base : List ℕ) (ms ms' : List LoadedModule) (i : ℕ)
    → take 63 base ≡ base
    → acquire_slot base ms ≡ some (ms', i)
    → IsLoaded ms' i base
unfolding acquire_slot
acquire_slot-IsLoaded base [] ms' i l e = absurd (cc)
acquire_slot-IsLoaded base (m ∷ ms) ms' i l e =
    IsLoaded-slot base m ms ms' i m.used (acquire_slot base ms) l
      (λ ms'' j f. acquire_slot-IsLoaded base ms ms'' j l f) e

kept :
    (c n : ℕ) (rest : List ℕ) (b : Bool)
    → take n rest ≡ rest
    → take (suc n) (if b then [] else c ∷ rest) ≡ (if b then [] else c ∷ rest)
kept c n rest true e = refl
kept c n rest false e = ap (λ x. c ∷ x) e

take-cut_rpl : (n : ℕ) (s : List ℕ) → take n (cut_rpl (take n s)) ≡ cut_rpl (take n s)
unfolding cut_rpl
take-cut_rpl zero s = refl
take-cut_rpl (suc n) [] = refl
take-cut_rpl (suc n) (c ∷ s) = kept c n _ (starts_rpl (c ∷ take n s)) (take-cut_rpl n s)

acquired-IsLoaded :
    (base : List ℕ) (ms ms' : List LoadedModule) (i : ℕ) (known : Bool)
    (again slot : Option (List LoadedModule × ℕ))
    → ((ms'' : List LoadedModule) (j : ℕ) → again ≡ some (ms'', j) → IsLoaded ms'' j base)
    → ((ms'' : List LoadedModule) (j : ℕ) → slot ≡ some (ms'', j) → IsLoaded ms'' j base)
    → (if◌then◌else◌ {A = List LoadedModule × (Error × Option ℕ)} known
        (elim again [ none ↦ opened ms slot | some r ↦ opened ms (some r) ])
        (ms, (module_not_found, none)))
      ≡ (ms', (ok, some i))
    → IsLoaded ms' i base
acquired-IsLoaded base ms ms' i false again slot f g e = absurd (ground (arith, e))
acquired-IsLoaded base ms ms' i true none none f g e = absurd (ground (arith, e))
acquired-IsLoaded base ms ms' i true none (some (ms'', j)) f g e =
    let same : ◌≡◌ {A = List LoadedModule × ℕ} (ms'', j) (ms', i) = ground (arith, e) in
    subst (λ p. IsLoaded p.0 p.1 base) same (g ms'' j refl)
acquired-IsLoaded base ms ms' i true (some (ms'', j)) slot f g e =
    let same : ◌≡◌ {A = List LoadedModule × ℕ} (ms'', j) (ms', i) = ground (arith, e) in
    subst (λ p. IsLoaded p.0 p.1 base) same (f ms'' j refl)

acquire-IsLoaded :
    (exports : List ExportedSymbol) (name : List ℕ) (ms ms' : List LoadedModule) (i : ℕ)
    → acquire exports true (some name) ms ≡ (ms', (ok, some i))
    → IsLoaded ms' i (base_name name)
unfolding acquire base_name
acquire-IsLoaded exports [] ms ms' i e = absurd (ground (arith, e))
acquire-IsLoaded exports (c ∷ s) ms ms' i e =
    let base = base_name (c ∷ s) in
    acquired-IsLoaded base ms ms' i _ _ _ (λ ms'' j f. acquire_again-IsLoaded base ms ms'' j f)
      (λ ms'' j f. acquire_slot-IsLoaded base ms ms'' j (take-cut_rpl 63 (c ∷ s)) f) e

found :
    (exports : List ExportedSymbol) (ms : List LoadedModule) (i : ℕ) (kind : ExportKind)
    (symbol base : List ℕ) (m : LoadedModule)
    → get_elem? ms i ≡ some m
    → m.used ≡ true
    → m.name ≡ base
    → find_export exports ms i kind symbol ≡ (
        if find_export_of_kind exports base symbol kind == 0
        then (module_not_found, none)
        else (ok, some (find_export_of_kind exports base symbol kind)))
unfolding find_export
found exports ms i kind symbol base m g u n =
    let used : in_use (some m) ≡ some m = simp u in
    ap (resolved exports kind symbol) (ap in_use g ∙ used)
    ∙ ap
        (λ x.
          if find_export_of_kind exports x symbol kind == 0
          then (module_not_found, none)
          else (ok, some (find_export_of_kind exports x symbol kind)))
        n

-- When `OSDynLoad_Acquire` of a name succeeds, `OSDynLoad_FindExport` by the handle it gave finds
-- just what the registry has under the first 63 characters of the name without what follows a
-- ".rpl".
pub acquire_then_find :
    (exports : List ExportedSymbol) (name : List ℕ) (ms ms' : List LoadedModule) (i : ℕ)
    (kind : ExportKind) (symbol : List ℕ)
    → acquire exports true (some name) ms ≡ (ms', (ok, some i))
    → find_export exports ms' i kind symbol ≡ (
        if find_export_of_kind exports (base_name name) symbol kind == 0
        then (module_not_found, none)
        else (ok, some (find_export_of_kind exports (base_name name) symbol kind)))
acquire_then_find exports name ms ms' i kind symbol e =
    let (m, g, u, n) = acquire-IsLoaded exports name ms ms' i e in
    found exports ms' i kind symbol (base_name name) m g u n
