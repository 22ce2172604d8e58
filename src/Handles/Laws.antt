-- ===== src/Handles/Laws.antt =====
-- What the callers of the handle table rely on: lookups after each operation, and distinct keys.
use coreinit_nx.Base.{
  ℕ, ◌≡◌, inl, inr, [], ◌∷◌, none, some, ◌==◌, if◌then◌else◌, arith, Option-cases, Bool-cases, ◌∙◌,
  ap, subst,
}
use coreinit_nx.Handles.{HandleTable, find, get, store, erase, with_host}

module _ {ℓ} {Host : Type ℓ} where
  -- The object that a call at a key works on: the one in the table, or a fresh one.
  abbrev pub host_at : Host → ℕ → HandleTable Host → Host
  host_at fresh key t = elim (find key t) [ some host ↦ host | none ↦ fresh ]

  -- The keys of the table are distinct.
  abbrev pub IsKeyed : HandleTable Host → Type ℓ
  IsKeyed [] = Unit
  IsKeyed ((k, v) ∷ t) = (find k t ≡ none) × IsKeyed t

  find-store :
      (key j : ℕ) (host old : Host) (t : HandleTable Host)
      → find key t ≡ some old
      → find j (store key host t) ≡ (if key == j then some host else find j t)
  unfolding find store
  find-store key j host old [] h = absurd (cc h)
  find-store key j host old ((k, v) ∷ t) h = ground (arith, find-store key j host old t)

  find-get :
      (fresh : Host) (key j : ℕ) (t : HandleTable Host)
      → find j (get fresh key t).1 ≡ (if key == j then some (host_at fresh key t) else find j t)
  unfolding get find
  find-get fresh key j t = ground arith

  get-host_at :
      (fresh : Host) (key : ℕ) (t : HandleTable Host) → (get fresh key t).0 ≡ host_at fresh key t
  unfolding get
  get-host_at fresh key t = ground arith

  find-get_self :
      (fresh : Host) (key : ℕ) (t : HandleTable Host)
      → find key (get fresh key t).1 ≡ some (host_at fresh key t)
  unfolding get find
  find-get_self fresh key t = ground arith

  get-IsKeyed :
      (fresh : Host) (key : ℕ) (t : HandleTable Host) → IsKeyed t → IsKeyed (get fresh key t).1
  unfolding get
  get-IsKeyed fresh key t h = elim (Option-cases (find key t)) [
    | inl e ↦ rw (e, get) (e, h)
    | inr (host, e) ↦ rw (e, get) h
  ]

  -- A call at one key answers by the object there, creating it on first use, leaves the changed
  -- object there, and leaves every other key as it was.
  pub with_host_lem {κ} :
      {R : Type κ} (fresh : Host) (body : Host → Host × R) (key j : ℕ) (t : HandleTable Host)
      → ((with_host fresh body key t).1 ≡ (body (host_at fresh key t)).1)
        × (find j (with_host fresh body key t).0
            ≡ (if key == j then some (body (host_at fresh key t)).0 else find j t))
  unfolding with_host
  with_host_lem fresh body key j t = (
    ap (λ host. (body host).1) (get-host_at fresh key t),
    rw (get-host_at fresh key t)
        (find-store key j _ _ _ (find-get_self fresh key t) ∙ skip (body (host_at fresh key t)).0),
  )
    where
      skip :
          (host : Host)
          → (if key == j then some host else find j (get fresh key t).1)
            ≡ (if key == j then some host else find j t)
      skip host = ground (arith, find-get fresh key j t)

  -- After `erase` the key is gone, so that the next use starts from a fresh object, and every other
  -- key is as it was, in a table whose keys are distinct.
  pub find-erase :
      (key j : ℕ) (t : HandleTable Host)
      → IsKeyed t
      → find j (erase key t) ≡ (if key == j then none else find j t)
  unfolding find erase
  find-erase key j [] h = ground arith
  find-erase key j ((k, v) ∷ t) h = ground (arith, find-erase key j t h.1)

  find-store-none :
      (key k : ℕ) (host : Host) (t : HandleTable Host)
      → find k t ≡ none
      → find k (store key host t) ≡ none
  unfolding find store
  find-store-none key k host [] h = h
  find-store-none key k host ((i, v) ∷ t) h = ground (arith, find-store-none key k host t)

  store-IsKeyed :
      (key : ℕ) (host : Host) (t : HandleTable Host) → IsKeyed t → IsKeyed (store key host t)
  unfolding store find
  store-IsKeyed key host [] h = h
  store-IsKeyed key host ((k, v) ∷ t) h = elim (Bool-cases (k == key)) [
    | inl e ↦ rw e h
    | inr e ↦ rw e (find-store-none key k host t h.0, store-IsKeyed key host t h.1)
  ]

  -- A call keeps the keys of a table distinct.
  pub with_host-IsKeyed {κ} :
      {R : Type κ} (fresh : Host) (body : Host → Host × R) (key : ℕ) (t : HandleTable Host)
      → IsKeyed t
      → IsKeyed (with_host fresh body key t).0
  unfolding with_host
  with_host-IsKeyed fresh body key t h = store-IsKeyed key _ _ (get-IsKeyed fresh key t h)

-- A property of the object at every key.
module _ {ℓ κ} {Host : Type ℓ} (P : Host → Type κ) where
  abbrev pub AllHosts : HandleTable Host → Type κ
  AllHosts [] = Unit
  AllHosts ((k, host) ∷ t) = P host × AllHosts t

  store-AllHosts :
      (key : ℕ) (host : Host) (t : HandleTable Host)
      → AllHosts t
      → P host
      → AllHosts (store key host t)
  unfolding store
  store-AllHosts key host [] h p = h
  store-AllHosts key host ((k, v) ∷ t) h p = elim (Bool-cases (k == key)) [
    | inl e ↦ rw e (p, h.1)
    | inr e ↦ rw e (h.0, store-AllHosts key host t h.1 p)
  ]

  find-AllHosts :
      (key : ℕ) (t : HandleTable Host) {host : Host} → AllHosts t → find key t ≡ some host → P host
  unfolding find
  find-AllHosts key [] h e = absurd (cc)
  find-AllHosts key ((k, v) ∷ t) {host} h e = elim (Bool-cases (k == key)) [
    | inl q ↦ let same : v ≡ host = ground arith in subst P same h.0
    | inr q ↦ find-AllHosts key t h.1 (rw q at e)
  ]

  -- A call keeps a property of every object that it keeps of one and that a fresh one has.
  pub with_host-AllHosts {ι} :
      {R : Type ι} (fresh : Host) (body : Host → Host × R) (key : ℕ) (t : HandleTable Host)
      → P fresh
      → ((host : Host) → P host → P (body host).0)
      → AllHosts t
      → AllHosts (with_host fresh body key t).0
  unfolding with_host get
  with_host-AllHosts fresh body key t p keep h = elim (Option-cases (find key t)) [
    | inl e ↦ rw (e, get) (store-AllHosts key _ ((key, fresh) ∷ t) (p, h) (keep fresh p))
    | inr (host, e) ↦ rw (e, get) (store-AllHosts key _ t h (keep host (find-AllHosts key t h e)))
  ]
