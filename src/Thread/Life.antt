-- ===== src/Thread/Life.antt =====
-- When a thread that was created suspended starts.
use coreinit_nx.Base.{ℕ, zero, suc, ◌≡◌, ap, ◌∙◌, true, false, leb, arith}
use coreinit_nx.Base.Int.{pos, ◌-ℤ◌}
use coreinit_nx.Thread.{HostThread, resume, suspend}

-- Resumed a number of times, each of which would start it.
pub resumes : ℕ → HostThread → HostThread
resumes zero h = h
resumes (suc k) h = resumes k (resume true h).0

pub suspends : ℕ → HostThread → HostThread
suspends zero h = h
suspends (suc k) h = suspends k (suspend h).0

resumed_once :
    (m : ℕ) (h : HostThread)
    → h.created ≡ true
    → h.started ≡ false
    → h.suspend_count ≡ pos (suc m)
    → (resume true h).0 ≡ record h { suspend_count = pos m; started = leb m 0 }
unfolding resume ◌-ℤ◌
resumed_once zero h c s n = ground (arith, c, s, n)
resumed_once (suc m) h c s n = ground (arith, c, s, n)

started_stays : (k : ℕ) (h : HostThread) → h.started ≡ true → (resumes k h).started ≡ true
unfolding resumes resume
started_stays zero h s = s
started_stays (suc k) h s = started_stays k (resume true h).0 (simp s)

not_yet : (m : ℕ) → leb (suc m) 0 ≡ false
not_yet m = ground arith

-- A created thread that is not started and has a positive suspend count starts, where Horizon lets
-- it, with the resume that takes the count to 0, no sooner, and is then started for all resumes
-- that follow.
pub resumes_start :
    (k m : ℕ) (h : HostThread)
    → h.created ≡ true
    → h.started ≡ false
    → h.suspend_count ≡ pos (suc m)
    → (resumes k h).started ≡ leb (suc m) k
unfolding resumes
resumes_start zero m h c s n = ground (arith, s)
resumes_start (suc k) zero h c s n =
    let on = started_stays k (resume true h).0 (ap (λ x. x.started) (resumed_once zero h c s n)) in
    ground (arith, on)
resumes_start (suc k) (suc m) h c s n =
    let next = resumed_once (suc m) h c s n in
    let rest =
      resumes_start k m (resume true h).0 (ap (λ x. x.created) next ∙ c)
        (ap (λ x. x.started) next ∙ not_yet m) (ap (λ x. x.suspend_count) next) in
    ground (arith, rest)
