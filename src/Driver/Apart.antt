-- ===== src/Driver/Apart.antt =====
-- Runs of the calls of source/driver.cpp, and a driver that they are not for.
use coreinit_nx.Base.{
  ℕ, ◌≡◌, ◌≢◌, refl, ap, ◌∙◌, subst, inl, inr, true, false, List, [], ◌∷◌, Option, none, some, ltb,
  ◌==◌, if◌then◌else◌, Bool-cases, Option-cases, length, replicate, All, arith,
}
use coreinit_nx.Base.Int.{ℤ, pos, negsuc}
use coreinit_nx.Driver.{
  Interface, RegisteredDriver, save_area_size, is_driver, find_driver, at_driver, fill_slot,
  register, deregister, overwrite, copy_to_save_area,
}

-- A call that changes the registry.
pub data Call : Type 0 where
  registers : (module_handle : ℕ) (iface : Option Interface) (id : ℕ) → Call
  deregisters : (id : ℕ) → Call
  copies_to : (id : ℕ) (bytes : Option (List ℕ)) → Call

unfoldable pub step : List RegisteredDriver → Call → List RegisteredDriver
step ds (registers module_handle iface id) = (register ds module_handle iface id).0
step ds (deregisters id) = (deregister ds id).0
step ds (copies_to id bytes) = (copy_to_save_area ds id bytes).0

unfoldable pub run : List RegisteredDriver → List Call → List RegisteredDriver
run ds [] = ds
run ds (c ∷ cs) = run (step ds c) cs

-- The driver that a call is for.
abbrev pub IsFor : ℕ → Call → Type 0
IsFor id (registers module_handle iface id') = id' ≡ id
IsFor id (deregisters id') = id' ≡ id
IsFor id (copies_to id' bytes) = id' ≡ id

-- A change of another driver's slot, which stays that driver's or is given up.
find-at_driver :
    (id id' : ℕ) (f : RegisteredDriver → RegisteredDriver) (ds : List RegisteredDriver)
    → id' ≢ id
    → ((d : RegisteredDriver) → is_driver id' d ≡ true → is_driver id (f d) ≡ false)
    → find_driver id (at_driver id' f ds) ≡ find_driver id ds
unfolding find_driver at_driver
find-at_driver id id' f [] n k = refl
find-at_driver id id' f (d ∷ ds) n k = elim (Bool-cases (is_driver id' d)) [
  | inl e ↦
      let mine : is_driver id d ≡ false = ground (arith, e, n) in
      let after = k d e in simp (e, mine, after)
  | inr e ↦
      let rest = find-at_driver id id' f ds n k in
      elim (Bool-cases (is_driver id d)) [ inl g ↦ simp (e, g) | inr g ↦ simp (e, g) rest ]
]

find-fill_slot :
    (id : ℕ) (new : RegisteredDriver) (ds ds' : List RegisteredDriver)
    → is_driver id new ≡ false
    → fill_slot new ds ≡ some ds'
    → find_driver id ds' ≡ find_driver id ds
unfolding find_driver fill_slot
find-fill_slot id new [] ds' n e = absurd (cc)
find-fill_slot id new (d ∷ ds) ds' n e = elim (Bool-cases d.used) [
  | inl u ↦ elim (Option-cases (fill_slot new ds)) [
    | inl f ↦ absurd (cc (simp (u, f) at e))
    | inr (r, f) ↦
        let same : d ∷ r ≡ ds' = cc (simp (u, f) at e) in
        let rest = find-fill_slot id new ds r n f in
        subst (λ x. find_driver id x ≡ find_driver id (d ∷ ds)) same
          (ap (λ o. if is_driver id d then some d else o) rest)
  ]
  | inr u ↦
      let same : new ∷ ds ≡ ds' = cc (simp u at e) in
      let free : is_driver id d ≡ false = simp u in
      subst (λ x. find_driver id x ≡ find_driver id (d ∷ ds)) same (simp (n, free))
]

-- What a registration leaves, and a call on the slot of a driver.
pub filled :
    (P : List RegisteredDriver → Type 0) (ds : List RegisteredDriver) (fail done : ℤ × Option ℕ)
    (o : Option (List RegisteredDriver))
    → P ds
    → ((r : List RegisteredDriver) → o ≡ some r → P r)
    → let x : List RegisteredDriver × (ℤ × Option ℕ) = elim o [
      | none ↦ (ds, fail)
      | some r ↦ (r, done)
    ] in
      P x.0
filled P ds fail done none keep fill = keep
filled P ds fail done (some r) keep fill = fill r refl

pub given_up :
    (P : List RegisteredDriver → Type 0) (ds ds' : List RegisteredDriver) (fail done : ℤ)
    (o : Option RegisteredDriver)
    → P ds
    → P ds'
    → let x : List RegisteredDriver × ℤ = elim o [ none ↦ (ds, fail) | some d ↦ (ds', done) ] in
      P x.0
given_up P ds ds' fail done none keep change = keep
given_up P ds ds' fail done (some d) keep change = change

abbrev pub new_driver : ℕ → Interface → ℕ → RegisteredDriver
new_driver module_handle iface id = record {
  module_handle = module_handle;
  user_driver_id = id;
  iface = iface;
  save_area = replicate save_area_size 0;
  save_area_used = 0;
  used = true;
}

abbrev pub idle : RegisteredDriver → RegisteredDriver
idle d = record d { used = false }

register_apart :
    (ds : List RegisteredDriver) (module_handle : ℕ) (iface : Option Interface) (id id' : ℕ)
    → id' ≢ id
    → find_driver id (register ds module_handle iface id').0 ≡ find_driver id ds
unfolding register
register_apart ds module_handle none id id' n = refl
register_apart ds module_handle (some iface) id id' n =
    let new = new_driver module_handle iface id' in
    let other : is_driver id new ≡ false = ground (arith, n) in
    filled (λ r. find_driver id r ≡ find_driver id ds) ds (negsuc 0, none)
      (pos 0, if iface.on_init == 0 then none else some iface.on_init) (fill_slot new ds) refl
      (λ r f. find-fill_slot id new ds r other f)

deregister_apart :
    (ds : List RegisteredDriver) (id id' : ℕ)
    → id' ≢ id
    → find_driver id (deregister ds id').0 ≡ find_driver id ds
unfolding deregister
deregister_apart ds id id' n =
    given_up (λ r. find_driver id r ≡ find_driver id ds) ds (at_driver id' idle ds) (negsuc 0)
      (pos 0) (find_driver id' ds) refl (find-at_driver id id' idle ds n (λ d e. refl))

copy_apart :
    (ds : List RegisteredDriver) (bytes : Option (List ℕ)) (id id' : ℕ)
    → id' ≢ id
    → find_driver id (copy_to_save_area ds id' bytes).0 ≡ find_driver id ds
unfolding copy_to_save_area
copy_apart ds none id id' n = refl
copy_apart ds (some bytes) id id' n = elim (Bool-cases (ltb save_area_size (length bytes))) [
  | inl l ↦ simp l
  | inr l ↦ elim (Option-cases (find_driver id' ds)) [
    | inl f ↦ simp (l, f)
    | inr (d, f) ↦
        let g : RegisteredDriver → RegisteredDriver = λ d. record d {
          save_area = overwrite bytes d.save_area;
          save_area_used = length bytes;
        } in
        simp (l, f) (find-at_driver id id' g ds n (λ d e. ground (arith, e, n)))
  ]
]

step_apart :
    (ds : List RegisteredDriver) (id : ℕ) (c : Call)
    → ¬ IsFor id c
    → find_driver id (step ds c) ≡ find_driver id ds
unfolding step
step_apart ds id (registers module_handle iface id') n =
    register_apart ds module_handle iface id id' n
step_apart ds id (deregisters id') n = deregister_apart ds id id' n
step_apart ds id (copies_to id' bytes) n = copy_apart ds bytes id id' n

pub run_apart_of :
    (ds : List RegisteredDriver) (id : ℕ) (cs : List Call)
    → All (λ c. ¬ IsFor id c) cs
    → find_driver id (run ds cs) ≡ find_driver id ds
unfolding run
run_apart_of ds id [] n = refl
run_apart_of ds id (c ∷ cs) (n, ns) = run_apart_of (step ds c) id cs ns ∙ step_apart ds id c n
