-- ===== src/Mutex/Owner.antt =====
-- A mutex that has an owner or none, as a mutex of libnx may be.
use coreinit_nx.Base.{
  ℕ, ◌≡◌, ◌≢◌, refl, Bool, true, false, Option, none, some, ◌==◌, ==_self, arith,
}
use coreinit_nx.Mutex.{KernelMutex, MutexLaws}

abbrev pub owned_by : Option ℕ → ℕ → Bool
owned_by none t = false
owned_by (some u) t = u == t

abbrev pub take : ℕ → Option ℕ → Option (Option ℕ)
take t none = some (some t)
take t (some u) = none

abbrev pub owner_mutex : KernelMutex
owner_mutex = record {
  State = Option ℕ;
  created = none;
  is_locked_by = owned_by;
  acquire = take;
  release = λ t s. none;
}

owner_taken : (t u : ℕ) (s : Option ℕ) → owned_by s u ≡ true → take t s ≡ none
owner_taken t u none e = absurd (cc)
owner_taken t u (some v) e = refl

owner_owned : (t : ℕ) (s s' : Option ℕ) → take t s ≡ some s' → owned_by s' t ≡ true
owner_owned t none none e = absurd (ground (arith, e))
owner_owned t none (some u) e = ground (arith, e)
owner_owned t (some v) s' e = absurd (cc)

owner_alone : (t u : ℕ) (s : Option ℕ) → owned_by s t ≡ true → u ≢ t → owned_by s u ≡ false
owner_alone t u none e d = refl
owner_alone t u (some v) e d = ground (arith, e)

owner_free :
    (t : ℕ) (s : Option ℕ)
    → ((u : ℕ) → owned_by s u ≡ false)
    → (s' : Option ℕ) × (take t s ≡ some s')
owner_free t none f = (some t, refl)
owner_free t (some v) f = absurd (ground (arith, f v, ==_self v))

pub owner_mutex-MutexLaws : MutexLaws owner_mutex
owner_mutex-MutexLaws = record {
  created-IsFree = λ t. refl;
  acquire_free = owner_free;
  acquire_owned = owner_owned;
  acquire_taken = owner_taken;
  release-IsFree = λ t s o u. refl;
  owner_unique = owner_alone;
}
