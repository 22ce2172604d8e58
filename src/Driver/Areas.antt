-- ===== src/Driver/Areas.antt =====
-- The save areas: what is copied in can be copied out again.
use coreinit_nx.Base.{
  ℕ, ◌≤◌, ◌≡◌, refl, sym, subst, ap, ◌∙◌, inl, inr, Bool, true, false, List, [], ◌∷◌, some, ltb,
  le→ltb, if◌then◌else◌, Bool-cases, take, length, arith,
}
use coreinit_nx.Base.Int.{pos}
use coreinit_nx.Driver.{
  RegisteredDriver, save_area_size, is_driver, find_driver, at_driver, overwrite, copy_to_save_area,
  copy_from_save_area,
}

take-overwrite :
    (bytes area : List ℕ)
    → length bytes ≤ length area
    → take (length bytes) (overwrite bytes area) ≡ bytes
unfolding overwrite
take-overwrite [] area l = refl
take-overwrite (b ∷ bytes) [] l = absurd (omega arith)
take-overwrite (b ∷ bytes) (a ∷ area) l = ap (λ x. b ∷ x) (take-overwrite bytes area (omega arith))

found :
    (id : ℕ) (f : RegisteredDriver → RegisteredDriver) (d' : RegisteredDriver)
    (ds : List RegisteredDriver) (d : RegisteredDriver) (b : Bool)
    → is_driver id d' ≡ b
    → is_driver id (f d) ≡ true
    → (find_driver id ds ≡ some d → find_driver id (at_driver id f ds) ≡ some (f d))
    → (if b then some d' else find_driver id ds) ≡ some d
    → find_driver id (if b then f d' ∷ ds else d' ∷ at_driver id f ds) ≡ some (f d)
unfolding find_driver
found id f d' ds d true i k rest e =
    let same : d' ≡ d = cc in
    subst (λ x. find_driver id (f x ∷ ds) ≡ some (f d)) (sym same) (simp k)
found id f d' ds d false i k rest e = let later = rest e in simp (i, later)

find_driver-is_driver :
    (id : ℕ) (ds : List RegisteredDriver) (d : RegisteredDriver)
    → find_driver id ds ≡ some d
    → is_driver id d ≡ true
unfolding find_driver
find_driver-is_driver id [] d e = absurd (cc)
find_driver-is_driver id (d' ∷ ds) d e = elim (Bool-cases (is_driver id d')) [
  | inl i ↦
      let here : some d' ≡ some d = simp i at e in
      let same : d' ≡ d = cc in subst (λ x. is_driver id x ≡ true) same i
  | inr i ↦ find_driver-is_driver id ds d (simp i at e)
]

-- A driver found is the same driver found after a change that keeps it in use under its id.
find_driver-at_driver :
    (id : ℕ) (f : RegisteredDriver → RegisteredDriver) (ds : List RegisteredDriver)
    (d : RegisteredDriver)
    → find_driver id ds ≡ some d
    → is_driver id (f d) ≡ true
    → find_driver id (at_driver id f ds) ≡ some (f d)
unfolding find_driver at_driver
find_driver-at_driver id f [] d e k = absurd (cc)
find_driver-at_driver id f (d' ∷ ds) d e k =
    found id f d' ds d (is_driver id d') refl k (λ e. find_driver-at_driver id f ds d e k) e

-- At most 256 bytes that were copied into the save area of a registered driver, an area of 256
-- bytes, are what is then copied out of it.
pub copy_round_trip :
    (ds : List RegisteredDriver) (id : ℕ) (d : RegisteredDriver) (bytes : List ℕ)
    → find_driver id ds ≡ some d
    → length d.save_area ≡ save_area_size
    → length bytes ≤ save_area_size
    → copy_from_save_area (copy_to_save_area ds id (some bytes)).0 id (length bytes) ≡ some bytes
unfolding copy_from_save_area copy_to_save_area
copy_round_trip ds id d bytes f a l =
    let g : RegisteredDriver → RegisteredDriver =
      λ d. record d { save_area = overwrite bytes d.save_area; save_area_used = length bytes } in
    let guard : ltb save_area_size (length bytes) ≡ false =
      le→ltb save_area_size (length bytes) l in
    let stored : copy_to_save_area ds id (some bytes) ≡ (at_driver id g ds, pos 0) =
      simp (guard, f) in
    let kept = find_driver-at_driver id g ds d f (find_driver-is_driver id ds d f) in
    let whole = take-overwrite bytes d.save_area (omega arith) in
    ap (λ x. copy_from_save_area x.0 id (length bytes)) stored ∙ simp (guard, kept, whole)
