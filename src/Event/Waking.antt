-- ===== src/Event/Waking.antt =====
-- Any interleaving of signals, resets and tests by threads that wait: how many tests get through.
use coreinit_nx.Base.{ℕ, suc, ◌+◌, ◌≤◌, ◌≡◌, refl, Bool, true, false, List, [], ◌∷◌, All, arith}
use coreinit_nx.Event.{HostEvent, signal, signal_all, wait, reset}

pub data Attempt : Type 0 where
  signals signals_all resets waits : Attempt

-- The event after some attempts, with the calls of `OSSignalEvent` and the tests that got through.
pub record Trace : Type 0 where
  pub event : HostEvent
  pub given : ℕ
  pub passed : ℕ

abbrev pub one_if : Bool → ℕ
one_if true = 1
one_if false = 0

pub step : HostEvent → Attempt → Trace
unfolding signal signal_all reset wait
step e signals = record { event = signal e; given = 1; passed = 0 }
step e signals_all = record { event = signal_all e; given = 0; passed = 0 }
step e resets = record { event = reset e; given = 0; passed = 0 }
step e waits = record { event = (wait e).0; given = 0; passed = one_if (wait e).1 }

pub run : HostEvent → List Attempt → Trace
run e [] = record { event = e; given = 0; passed = 0 }
run e (a ∷ as') =
    let t = step e a in
    let u = run t.event as' in
    record { event = u.event; given = t.given + u.given; passed = t.passed + u.passed }

abbrev pub IsSignal : Attempt → Type 0
IsSignal resets = ⊥
IsSignal _ = Unit

step_auto : (e : HostEvent) (a : Attempt) → e.auto_reset ≡ true → (step e a).event.auto_reset ≡ true
unfolding step
step_auto e signals h = h
step_auto e signals_all h = ground (arith, h)
step_auto e resets h = h
step_auto e waits h = ground (arith, h)

step_budget :
    (e : HostEvent) (a : Attempt)
    → e.auto_reset ≡ true
    → (step e a).passed + one_if (step e a).event.signalled ≤ (step e a).given + one_if e.signalled
unfolding step
step_budget e signals h = ground arith
step_budget e signals_all h = ground (arith, h)
step_budget e resets h = ground arith
step_budget e waits h = ground (arith, h)

-- On an event of automatic reset, in any interleaving of the calls, the tests that get through,
-- and one if the event is left signalled, are no more than the calls of `OSSignalEvent`, and one
-- if it was signalled at the start.
pub run_budget :
    (e : HostEvent) (as' : List Attempt)
    → e.auto_reset ≡ true
    → (run e as').passed + one_if (run e as').event.signalled
      ≤ (run e as').given + one_if e.signalled
unfolding run
run_budget e [] h = omega arith
run_budget e (a ∷ as') h =
    let one = step_budget e a h in
    let rest = run_budget (step e a).event as' (step_auto e a h) in omega arith

unlit : (b : Bool) → one_if b ≤ 0 → b ≡ false
unlit true h = absurd (omega (arith, h))
unlit false h = refl

abbrev pub tests : List Attempt → ℕ
tests [] = 0
tests (waits ∷ as') = suc (tests as')
tests (_ ∷ as') = tests as'

run_open_step :
    (e : HostEvent) (a : Attempt) (as' : List Attempt)
    → e.auto_reset ≡ false
    → e.signalled ≡ true
    → IsSignal a
    → (run e as').passed ≡ tests as'
    → (step e a).passed + (run (step e a).event as').passed ≡ tests (a ∷ as')
unfolding step signal signal_all wait
run_open_step e signals as' h l j r = ground (arith, h, l, r)
run_open_step e signals_all as' h l j r = ground (arith, h, l, r)
run_open_step e resets as' h l j r = absurd j
run_open_step e waits as' h l j r = ground (arith, h, l, r)

-- A signalled event of manual reset lets every test through, in any interleaving of tests and
-- signals without a reset.
pub run_open :
    (e : HostEvent) (as' : List Attempt)
    → e.auto_reset ≡ false
    → e.signalled ≡ true
    → All IsSignal as'
    → (run e as').passed ≡ tests as'
unfolding run
run_open e [] h l i = refl
run_open e (a ∷ as') h l (j, i) = run_open_step e a as' h l j (run_open e as' h l i)

-- An attempt that is not a call of `OSSignalEvent`.
abbrev pub IsOther : Attempt → Type 0
IsOther signals = ⊥
IsOther _ = Unit

given-others : (e : HostEvent) (as' : List Attempt) → All IsOther as' → (run e as').given ≡ 0
unfolding run step
given-others e [] h = refl
given-others e (signals ∷ as') (h, hs) = absurd h
given-others e (signals_all ∷ as') (h, hs) =
    omega (arith, given-others (step e signals_all).event as' hs)
given-others e (resets ∷ as') (h, hs) = omega (arith, given-others (step e resets).event as' hs)
given-others e (waits ∷ as') (h, hs) = omega (arith, given-others (step e waits).event as' hs)

signal_all_clears :
    (e : HostEvent)
    → e.auto_reset ≡ true
    → ((signal_all e).signalled ≡ false) × ((signal_all e).auto_reset ≡ true)
unfolding signal_all
signal_all_clears e h = (ground (arith, h), ground (arith, h))

-- After `OSSignalEventAll` on an event of automatic reset, no test of a thread that waits gets
-- through and the event is not signalled, whatever tests, resets and further calls of
-- `OSSignalEventAll` follow in any order, as long as `OSSignalEvent` is not called: the threads
-- that it wakes go on waiting.
pub signal_all_strands :
    (e : HostEvent) (as' : List Attempt)
    → e.auto_reset ≡ true
    → All IsOther as'
    → ((run (signal_all e) as').passed ≡ 0) × ((run (signal_all e) as').event.signalled ≡ false)
signal_all_strands e as' h o =
    let (dark, auto) = signal_all_clears e h in
    let budget = run_budget (signal_all e) as' auto in
    let none_given = given-others (signal_all e) as' o in
    let sum : (run (signal_all e) as').passed + one_if (run (signal_all e) as').event.signalled
        ≤ 0 =
      simp (dark, none_given) at budget in
    (omega (arith, sum), unlit _ (omega (arith, sum)))
