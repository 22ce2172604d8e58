-- ===== src/Driver/Survival.antt =====
-- The save areas of source/driver.cpp over runs of its calls.
use coreinit_nx.Base.{
  ℕ, zero, suc, ◌≤◌, ◌≡◌, refl, ap, ◌∙◌, subst, inl, inr, true, false, List, [], ◌∷◌, none, some,
  ltb, ◌==◌, if◌then◌else◌, Bool-cases, Option-cases, length, replicate, All,
}
use coreinit_nx.Base.Int.{ℤ, pos, negsuc}
use coreinit_nx.Driver.{
  RegisteredDriver, unused, max_drivers, save_area_size, is_driver, find_driver, at_driver,
  fill_slot, register, deregister, overwrite, copy_to_save_area, copy_from_save_area,
}
use coreinit_nx.Driver.Areas.{copy_round_trip}
use coreinit_nx.Driver.Apart.{
  Call, registers, deregisters, copies_to, step, run, IsFor, filled, given_up, new_driver, idle,
  run_apart_of,
}

-- Every save area has its 256 bytes.
abbrev HasArea : RegisteredDriver → Type 0
HasArea d = length d.save_area ≡ save_area_size

length-overwrite : (bytes area : List ℕ) → length (overwrite bytes area) ≡ length area
unfolding overwrite
length-overwrite [] area = refl
length-overwrite (b ∷ bytes) [] = refl
length-overwrite (b ∷ bytes) (a ∷ area) = ap suc (length-overwrite bytes area)

All-at_driver :
    (id : ℕ) (f : RegisteredDriver → RegisteredDriver) (ds : List RegisteredDriver)
    → ((d : RegisteredDriver) → HasArea d → HasArea (f d))
    → All HasArea ds
    → All HasArea (at_driver id f ds)
unfolding at_driver
All-at_driver id f [] k h = tt
All-at_driver id f (d ∷ ds) k (a, h) = elim (Bool-cases (is_driver id d)) [
  | inl e ↦ rw e (k d a, h)
  | inr e ↦ rw e (a, All-at_driver id f ds k h)
]

All-fill_slot :
    (new : RegisteredDriver) (ds ds' : List RegisteredDriver)
    → HasArea new
    → All HasArea ds
    → fill_slot new ds ≡ some ds'
    → All HasArea ds'
unfolding fill_slot
All-fill_slot new [] ds' n h e = absurd (cc)
All-fill_slot new (d ∷ ds) ds' n (a, h) e = elim (Bool-cases d.used) [
  | inl u ↦ elim (Option-cases (fill_slot new ds)) [
    | inl f ↦ absurd (cc (simp (u, f) at e))
    | inr (r, f) ↦
        let same : d ∷ r ≡ ds' = cc (simp (u, f) at e) in
        subst (λ x. All HasArea x) same (a, All-fill_slot new ds r n h f)
  ]
  | inr u ↦ let same : new ∷ ds ≡ ds' = cc (simp u at e) in subst (λ x. All HasArea x) same (n, h)
]

All-step : (ds : List RegisteredDriver) (c : Call) → All HasArea ds → All HasArea (step ds c)
unfolding step register deregister copy_to_save_area
All-step ds (registers module_handle none id) h = h
All-step ds (registers module_handle (some iface) id) h =
    let new = new_driver module_handle iface id in
    filled (λ r. All HasArea r) ds (negsuc 0, none)
      (pos 0, if iface.on_init == 0 then none else some iface.on_init) (fill_slot new ds) h
      (λ r f. All-fill_slot new ds r refl h f)
All-step ds (deregisters id) h =
    given_up (λ r. All HasArea r) ds (at_driver id idle ds) (negsuc 0) (pos 0) (find_driver id ds) h
      (All-at_driver id idle ds (λ d a. a) h)
All-step ds (copies_to id none) h = h
All-step ds (copies_to id (some bytes)) h =
    let g : RegisteredDriver → RegisteredDriver =
      λ d. record d { save_area = overwrite bytes d.save_area; save_area_used = length bytes } in
    elim (ltb save_area_size (length bytes))
      as (λ b.
        let found : List RegisteredDriver × ℤ = elim (find_driver id ds) [
          | none ↦ (ds, negsuc 0)
          | some d ↦ (at_driver id g ds, pos 0)
        ] in
        let x : List RegisteredDriver × ℤ = if b then (ds, negsuc 0) else found in
        All HasArea x.0) [
          | true ↦ h
          | false ↦
              given_up (λ r. All HasArea r) ds (at_driver id g ds) (negsuc 0) (pos 0)
                (find_driver id ds) h
                (All-at_driver id g ds (λ d a. length-overwrite bytes d.save_area ∙ a) h)
        ]

All-run : (ds : List RegisteredDriver) (cs : List Call) → All HasArea ds → All HasArea (run ds cs)
unfolding run
All-run ds [] h = h
All-run ds (c ∷ cs) h = All-run (step ds c) cs (All-step ds c h)

All-find_driver :
    (id : ℕ) (ds : List RegisteredDriver) (d : RegisteredDriver)
    → All HasArea ds
    → find_driver id ds ≡ some d
    → HasArea d
unfolding find_driver
All-find_driver id [] d h e = absurd (cc)
All-find_driver id (x ∷ ds) d (a, h) e = elim (Bool-cases (is_driver id x)) [
  | inl i ↦ let same : x ≡ d = cc (simp i at e) in subst HasArea same a
  | inr i ↦ All-find_driver id ds d h (simp i at e)
]

All-unused : (n : ℕ) → All HasArea (replicate n unused)
All-unused zero = tt
All-unused (suc n) = (refl, All-unused n)

copy_read :
    (ds ds' : List RegisteredDriver) (id size : ℕ)
    → find_driver id ds' ≡ find_driver id ds
    → copy_from_save_area ds' id size ≡ copy_from_save_area ds id size
unfolding copy_from_save_area
copy_read ds ds' id size e = rw e

-- In any run from the empty registry: once a driver is registered, at most 256 bytes that are copied into
-- its save area are what is copied out of it after any further calls for other drivers, theirs being
-- registered, given up and copied to in any order.
pub stored_survives :
    (before after : List Call) (id : ℕ) (d : RegisteredDriver) (bytes : List ℕ)
    → find_driver id (run (replicate max_drivers unused) before) ≡ some d
    → length bytes ≤ save_area_size
    → All (λ c. ¬ IsFor id c) after
    → let ds = run (replicate max_drivers unused) before in
      copy_from_save_area (run (copy_to_save_area ds id (some bytes)).0 after) id (length bytes)
      ≡ some bytes
stored_survives before after id d bytes f l n =
    let ds = run (replicate max_drivers unused) before in
    let stored = (copy_to_save_area ds id (some bytes)).0 in
    let areas = All-run (replicate max_drivers unused) before (All-unused max_drivers) in
    copy_read stored (run stored after) id (length bytes) (run_apart_of stored id after n)
    ∙ copy_round_trip ds id d bytes f (All-find_driver id ds d areas f) l
