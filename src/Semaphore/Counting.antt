-- ===== src/Semaphore/Counting.antt =====
-- Any interleaving of signals and waits by any threads: the count is the one at the start, up by the
-- signals and down by the waits that went through, and no wait goes through at 0.
use coreinit_nx.Base.{
  ℕ, ◌+◌, ◌≡◌, ◌⊎◌, inl, inr, Bool-cases, refl, sym, ap, suc, ◌-◌, ◌^◌, List, [], ◌∷◌, none, some,
  if◌then◌else◌, arith,
}
use coreinit_nx.Base.Int.{
  ℤ, pos, pos_part, neg_part, ltb_ℤ, leb_ℤ, ◌+ℤ◌, ◌-ℤ◌, ◌≤ℤ◌, eq_of_parts, +ℤ_parts,
}
use coreinit_nx.Semaphore.{HostSemaphore, signal, wait, try_wait}

pub data Attempt : Type 0 where
  signals waits try_waits : Attempt

-- The semaphore after some attempts, with the signals given and the waits that went through.
pub record Trace : Type 0 where
  pub semaphore : HostSemaphore
  pub given : ℕ
  pub taken : ℕ

pub step : HostSemaphore → Attempt → Trace
unfolding signal wait try_wait
step s signals = record { semaphore = (signal s).0; given = 1; taken = 0 }
step s waits = record {
  semaphore = (wait s).0;
  given = 0;
  taken = elim (wait s).1 [ none ↦ 0 | some _ ↦ 1 ];
}
step s try_waits = record {
  semaphore = (try_wait s).0;
  given = 0;
  taken = if ltb_ℤ (pos 0) (try_wait s).1 then 1 else 0;
}

pub run : HostSemaphore → List Attempt → Trace
run s [] = record { semaphore = s; given = 0; taken = 0 }
run s (a ∷ as') =
    let t = step s a in
    let u = run t.semaphore as' in
    record { semaphore = u.semaphore; given = t.given + u.given; taken = t.taken + u.taken }

step_counts :
    (s : HostSemaphore) (a : Attempt)
    → s.count +ℤ pos (step s a).given ≡ (step s a).semaphore.count +ℤ pos (step s a).taken
unfolding step ◌+ℤ◌ ◌-ℤ◌
step_counts s signals = ground arith
step_counts s waits = ground arith
step_counts s try_waits = ground arith

-- Balances of two runs, one after the other, add up.
balance_add :
    (a b c : ℤ) (g g' t t' : ℕ)
    → a +ℤ pos g ≡ b +ℤ pos t
    → b +ℤ pos g' ≡ c +ℤ pos t'
    → a +ℤ pos (g + g') ≡ c +ℤ pos (t + t')
balance_add a b c g g' t t' e e' =
    let l = +ℤ_parts a (pos g) in
    let l' = +ℤ_parts b (pos t) in
    let r = +ℤ_parts b (pos g') in
    let r' = +ℤ_parts c (pos t') in
    let m = +ℤ_parts a (pos (g + g')) in
    let m' = +ℤ_parts c (pos (t + t')) in
    let p = ap pos_part e in
    let n = ap neg_part e in
    let p' = ap pos_part e' in let n' = ap neg_part e' in eq_of_parts _ _ (omega arith)

-- Over any interleaving of signals, waits and tries, the count at the start and the signals given make
-- up the count at the end and the waits and tries that went through.
pub run_counts :
    (s : HostSemaphore) (as' : List Attempt)
    → s.count +ℤ pos (run s as').given ≡ (run s as').semaphore.count +ℤ pos (run s as').taken
unfolding run
run_counts s [] = refl
run_counts s (a ∷ as') =
    balance_add _ _ _ _ _ _ _ (step_counts s a) (run_counts (step s a).semaphore as')

step_floor :
    (s : HostSemaphore) (a : Attempt) → pos 0 ≤ℤ s.count → pos 0 ≤ℤ (step s a).semaphore.count
unfolding step ◌+ℤ◌ ◌-ℤ◌
step_floor s signals l = ground arith
step_floor s waits l = ground arith
step_floor s try_waits l = ground arith

-- A semaphore that starts at 0 or above is never below 0, whatever threads signal and wait.
pub run-IsFloored :
    (s : HostSemaphore) (as' : List Attempt)
    → pos 0 ≤ℤ s.count
    → pos 0 ≤ℤ (run s as').semaphore.count
unfolding run
run-IsFloored s [] l = l
run-IsFloored s (a ∷ as') l = run-IsFloored (step s a).semaphore as' (step_floor s a l)

-- The calls of `OSSignalSemaphore` among some attempts.
abbrev pub signals_in : List Attempt → ℕ
signals_in [] = 0
signals_in (signals ∷ as') = suc (signals_in as')
signals_in (_ ∷ as') = signals_in as'

given-signals_in : (s : HostSemaphore) (as' : List Attempt) → (run s as').given ≡ signals_in as'
unfolding run step
given-signals_in s [] = refl
given-signals_in s (signals ∷ as') = omega (arith, given-signals_in (step s signals).semaphore as')
given-signals_in s (waits ∷ as') = omega (arith, given-signals_in (step s waits).semaphore as')
given-signals_in s (try_waits ∷ as') =
    omega (arith, given-signals_in (step s try_waits).semaphore as')

-- `INT32_MAX`.
abbrev pub count_max : ℤ
count_max = pos (2 ^ 31 - 1)

below_of_balance : (a b c : ℤ) (t : ℕ) → a ≡ b +ℤ pos t → a ≤ℤ c → b ≤ℤ c
below_of_balance a b c t e l =
    let parts = +ℤ_parts b (pos t) in let p = ap pos_part e in let n = ap neg_part e in omega arith

-- The waits and tries among some attempts.
abbrev pub takes_in : List Attempt → ℕ
takes_in [] = 0
takes_in (signals ∷ as') = takes_in as'
takes_in (_ ∷ as') = suc (takes_in as')

-- Whether all went through, or at least as many as the count allows from the start.
abbrev pub Serves : ℤ → ℕ → ℕ → Type 0
Serves count asked taken = (taken ≡ asked) ⊎ (count ≤ℤ pos taken)

Serves-signals :
    (s : HostSemaphore) (asked taken : ℕ)
    → Serves (step s signals).semaphore.count asked taken
    → Serves s.count asked ((step s signals).taken + taken)
unfolding step ◌+ℤ◌
Serves-signals s asked taken (inl e) = inl (omega (arith, e))
Serves-signals s asked taken (inr l) = inr (ground (arith, l))

Serves-waits :
    (s : HostSemaphore) (asked taken : ℕ)
    → Serves (step s waits).semaphore.count asked taken
    → Serves s.count (suc asked) ((step s waits).taken + taken)
unfolding step ◌-ℤ◌
Serves-waits s asked taken h = elim (Bool-cases (leb_ℤ s.count (pos 0))) [
  | inl e ↦ inr (ground (arith, e))
  | inr e ↦ elim h [ inl g ↦ inl (ground (arith, e, g)) | inr l ↦ inr (ground (arith, e, l)) ]
]

Serves-try_waits :
    (s : HostSemaphore) (asked taken : ℕ)
    → Serves (step s try_waits).semaphore.count asked taken
    → Serves s.count (suc asked) ((step s try_waits).taken + taken)
unfolding step ◌-ℤ◌
Serves-try_waits s asked taken h = elim (Bool-cases (ltb_ℤ (pos 0) s.count)) [
  | inr e ↦ inr (ground (arith, e))
  | inl e ↦ elim h [ inl g ↦ inl (ground (arith, e, g)) | inr l ↦ inr (ground (arith, e, l)) ]
]

Serves-run :
    (s : HostSemaphore) (as' : List Attempt) → Serves s.count (takes_in as') (run s as').taken
unfolding run
Serves-run s [] = inl refl
Serves-run s (signals ∷ as') =
    Serves-signals s (takes_in as') _ (Serves-run (step s signals).semaphore as')
Serves-run s (waits ∷ as') =
    Serves-waits s (takes_in as') _ (Serves-run (step s waits).semaphore as')
Serves-run s (try_waits ∷ as') =
    Serves-try_waits s (takes_in as') _ (Serves-run (step s try_waits).semaphore as')

-- A semaphore whose count is 0 or above, and stays in 32 bits with all the signals of a run added to
-- it, over any interleaving of signals, waits and tries: the count at the start and the signals make up
-- the count at the end and the waits and tries that went through; the count at the end is neither below
-- 0 nor above `INT32_MAX`; and either all waits and tries went through, or at least as many as the
-- count at the start.
pub run_count_bounds :
    (s : HostSemaphore) (as' : List Attempt)
    → pos 0 ≤ℤ s.count
    → s.count +ℤ pos (signals_in as') ≤ℤ count_max
    → (s.count +ℤ pos (signals_in as') ≡ (run s as').semaphore.count +ℤ pos (run s as').taken)
      × (pos 0 ≤ℤ (run s as').semaphore.count)
      × ((run s as').semaphore.count ≤ℤ count_max)
      × Serves s.count (takes_in as') (run s as').taken
run_count_bounds s as' l m =
    let balance : s.count +ℤ pos (signals_in as')
        ≡ (run s as').semaphore.count +ℤ pos (run s as').taken =
      rw (sym (given-signals_in s as')) (run_counts s as') in
    let low = run-IsFloored s as' l in
    (balance, low, below_of_balance _ _ count_max _ balance m, Serves-run s as')
