-- ===== src/Thread/Results.antt =====
-- What a guest learns of a thread: the answers of OSJoinThread, OSIsThreadTerminated and
-- OSTestThreadCancel.
use coreinit_nx.Base.{
  ℕ, ◌≡◌, refl, ap, ◌∙◌, subst, Bool, true, false, Option, some, not, ◌&&◌, if◌then◌else◌,
}
use coreinit_nx.Base.Int.{ℤ, pos, eqb_ℤ}
use coreinit_nx.Thread.{
  HostThread, create_thread, resume, suspend, join, finish, set_cleanup, set_deallocator,
  set_priority, set_affinity, set_name, cancel, test_cancel, set_cancel_state, detach,
  is_terminated,
}
use coreinit_nx.Thread.Cycle.{
  Phase, absent, ready, running, finishing, ended, Life, Step, creates, resumes, suspends, returns,
  ends, exits, stops, joins, cancels, detaches, cleans, frees, ranks, binds, names, allows, Reach,
  unmoved, moved, start, joined_life,
}
use coreinit_nx.Thread.Truth.{Says, join_cases, exited, Reach-IsTrue}

join_open :
    (h : HostThread)
    → h.created ≡ true
    → h.started ≡ true
    → h.detached ≡ false
    → join true h ≡ (record h { started = false; created = false }, (1, some h.exit_result))
unfolding join
join_open h c n d = simp (c, n, d)

abbrev handed_out : ℤ → ℕ × Option ℤ
handed_out r = (1, some r)

-- When a thread has ended with a result and is not detached, in a state that the calls on it and its own
-- run reach from a fresh record, which is not created anew while its thread runs, `OSJoinThread` answers 1
-- and hands out that result.
pub join_result :
    (s : Life) (r : ℤ)
    → Reach start s
    → s.phase ≡ ended r
    → s.host.detached ≡ false
    → (join true s.host).1 ≡ (1, some r)
join_result s r reach e d =
    let h = Reach-IsTrue {s = start} (refl, refl) reach in
    let (c, n, k) = subst (λ p. Says p s.host.created s.host.started s.host.exit_result) e h in
    ap (λ x. x.1) (join_open s.host c n d) ∙ ap handed_out k

abbrev pub never_started : Phase → ℕ
never_started ready = 1
never_started _ = 0

terminated_at :
    (phase : Phase) (created started : Bool) (result : ℤ)
    → Says phase created started result
    → (if created && not started then 1 else 0) ≡ never_started phase
terminated_at absent created started r (c, n) = simp (c, n)
terminated_at ready created started r (c, n, z) = simp (c, n)
terminated_at running created started r (c, n, z) = simp (c, n)
terminated_at (finishing q) created started r (c, n, z) = simp (c, n)
terminated_at (ended q) created started r (c, n, z) = simp (c, n)

-- In every state that the calls on a thread and its own run reach from a fresh record, which is not
-- created anew while its thread runs, `OSIsThreadTerminated` answers 1 just when the thread was created
-- and has not been started, and so 0 once it has ended.
pub is_terminated_lem : (s : Life) → Reach start s → is_terminated s.host ≡ never_started s.phase
unfolding is_terminated
is_terminated_lem s reach =
    terminated_at s.phase s.host.created s.host.started s.host.exit_result
      (Reach-IsTrue {s = start} (refl, refl) reach)

abbrev IsCancelled : Life → Type 0
IsCancelled s = s.host.cancel_requested ≡ true

join-IsCancelled :
    (s : Life) (done : Bool) → IsCancelled s → IsCancelled (joined_life s (join done s.host))
join-IsCancelled s done c = join_cases (λ x. IsCancelled (joined_life s x)) done s.host c c

Step-IsCancelled : {s t : Life} → Step s t → IsCancelled s → IsCancelled t
unfolding create_thread resume suspend finish set_cleanup set_deallocator set_priority set_affinity
    set_name cancel detach set_cancel_state
Step-IsCancelled (creates s on thread entry argc argv stack size priority attributes e) c = c
Step-IsCancelled (resumes s on) c = c
Step-IsCancelled (suspends s) c = c
Step-IsCancelled (returns s r e) c = c
Step-IsCancelled (ends s r e) c = c
Step-IsCancelled (exits s r g a e) c =
    subst (λ x. x.cancel_requested ≡ true) (exited r s.host g e) c
Step-IsCancelled (stops s a e) c = c
Step-IsCancelled (joins s r done e) c = join-IsCancelled s done c
Step-IsCancelled (cancels s) c = refl
Step-IsCancelled (detaches s) c = c
Step-IsCancelled (cleans s fn) c = c
Step-IsCancelled (frees s fn) c = c
Step-IsCancelled (ranks s priority) c = c
Step-IsCancelled (binds s affinity) c = c
Step-IsCancelled (names s name) c = c
Step-IsCancelled (allows s state g e) c =
    let f : record s.host { cancel_enabled = not (eqb_ℤ state (pos 0)) } ≡ g = cc in
    subst (λ x. x.cancel_requested ≡ true) f c

-- A thread that was cancelled is so in every state that follows by such steps, through its end, a join
-- and a creation anew, and the next `OSTestThreadCancel` ends it where it is allowed to.
pub cancel_stays :
    (s t : Life)
    → s.host.cancel_requested ≡ true
    → Reach s t
    → test_cancel t.host ≡ t.host.cancel_enabled
unfolding test_cancel
cancel_stays s t c reach = ap (λ b. b && t.host.cancel_enabled) (reached reach)
  where
    reached : {u : Life} → Reach s u → IsCancelled u
    reached unmoved = c
    reached (moved r step) = Step-IsCancelled step (reached r)
