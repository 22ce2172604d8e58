-- ===== src/Handles.antt =====
-- source/internal/handle_table.hpp: the table from the address of a guest structure to the host
-- object that implements it. The `std::unordered_map` is an association list; `new Host()` followed
-- by `init()` is the value `fresh`. The table's own lock makes each call atomic. Writing through
-- the pointer that `get` returns is `store`.
pub mod Laws
use coreinit_nx.Base.{ℕ, List, [], ◌∷◌, Option, none, some, ◌==◌, if◌then◌else◌}

abbrev pub HandleTable {ℓ} : Type ℓ → Type ℓ
HandleTable Host = List (ℕ × Host)

module _ {ℓ} {Host : Type ℓ} where
  unfoldable pub find : ℕ → HandleTable Host → Option Host
  find key [] = none
  find key ((k, host) ∷ t) = if k == key then some host else find key t

  -- The host object at a key, created on first use.
  unfoldable pub get : Host → ℕ → HandleTable Host → Host × HandleTable Host
  get fresh key t = elim (find key t) [ some host ↦ (host, t) | none ↦ (fresh, (key, fresh) ∷ t) ]

  -- The object at a key that the table holds, changed through its pointer.
  unfoldable pub store : ℕ → Host → HandleTable Host → HandleTable Host
  store key host [] = []
  store key host ((k, old) ∷ t) = if k == key then (k, host) ∷ t else (k, old) ∷ store key host t

  unfoldable pub erase : ℕ → HandleTable Host → HandleTable Host
  erase key [] = []
  erase key ((k, host) ∷ t) = if k == key then t else (k, host) ∷ erase key t

  -- A call that fetches the object at a key, changes it and answers.
  unfoldable pub with_host {κ} :
      {R : Type κ} → Host → (Host → Host × R) → ℕ → HandleTable Host → HandleTable Host × R
  with_host fresh body key t =
      let (host, t') = get fresh key t in let (host', r) = body host in (store key host' t', r)
