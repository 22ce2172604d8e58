-- ===== src/Ghs/Tests.antt =====
-- A pool in which one index is in use, and its mutex held by thread 7.
use coreinit_nx.Base.{ℕ, ◌+◌, ◌≡◌, refl, true, false, [], ◌∷◌, some, set, replicate, arith}
use coreinit_nx.Mutex.{Mutexes}
use coreinit_nx.Mutex.Owner.{owner_mutex, owner_mutex-MutexLaws}
use coreinit_nx.Handles.{find}
use coreinit_nx.Ghs.{Ghs, flock_create, flock_destroy, flock_file}
use coreinit_nx.Ghs.Flocks.{IsCreated, flock_create-IsCreated}
use coreinit_nx.Ghs.Again.{created_again_waits}

abbrev pool : Ghs
pool = record { flocks = set (replicate 100 false) 0 true; free_index = 1; inited = true }

abbrev held : Mutexes owner_mutex
held = (4096, record { lock = some 7; count = 1 }) ∷ []

abbrev address : ℕ → ℕ
address i = 4096 + i

flock_create-IsCreated_example :
    IsCreated pool
      (flock_create owner_mutex address pool held).0
      (flock_create owner_mutex address pool held).2
flock_create-IsCreated_example = flock_create-IsCreated owner_mutex address pool held (λ _. refl)

created_again_waits_example :
    ((flock_create owner_mutex address (flock_destroy owner_mutex address 0 pool) held).2 ≡ some 0)
    × ((flock_file owner_mutex address 5 0
          (flock_create owner_mutex address (flock_destroy owner_mutex address 0 pool) held).0
          (flock_create owner_mutex address (flock_destroy owner_mutex address 0 pool) held).1).2
        ≡ false)
unfolding find
created_again_waits_example =
    created_again_waits owner_mutex owner_mutex-MutexLaws address 5 7 0 pool held
      (record { lock = some 7; count = 1 }) (omega arith) (λ _. refl) refl refl (omega arith)
