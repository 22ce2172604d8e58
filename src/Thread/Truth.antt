-- ===== src/Thread/Truth.antt =====
-- What the record of a thread tells of the phase its thread is in, over every step of its life.
use coreinit_nx.Base.{
  ℕ, ◌≡◌, refl, sym, ap, subst, Bool, true, false, Option, none, some, if◌then◌else◌, Bool-cases,
  inl, inr, not, ◌&&◌, ◌||◌,
}
use coreinit_nx.Base.Int.{ℤ, pos, eqb_ℤ}
use coreinit_nx.Thread.{
  HostThread, create_thread, resume, suspend, join, finish, set_cleanup, set_deallocator,
  set_priority, set_affinity, set_name, cancel, set_cancel_state, detach,
}
use coreinit_nx.Thread.Trampoline.{exit_thread}
use coreinit_nx.Thread.Cycle.{
  Phase, absent, ready, running, finishing, ended, IsAlive, Life, created_life, resumed,
  resumed_life, joined_life, Step, creates, resumes, suspends, returns, ends, exits, stops, joins,
  cancels, detaches, cleans, frees, ranks, binds, names, allows, Reach, unmoved, moved,
}

-- What the record says in each phase.
abbrev pub Says : Phase → Bool → Bool → ℤ → Type 0
Says absent created started result = (created ≡ false) × (started ≡ false)
Says ready created started result = (created ≡ true) × (started ≡ false) × (result ≡ pos 0)
Says running created started result = (created ≡ true) × (started ≡ true) × (result ≡ pos 0)
Says (finishing r) created started result = (created ≡ true) × (started ≡ true) × (result ≡ r)
Says (ended r) created started result = (created ≡ true) × (started ≡ true) × (result ≡ r)

abbrev pub IsTrue : Life → Type 0
IsTrue s = Says s.phase s.host.created s.host.started s.host.exit_result

created-IsTrue :
    (h : HostThread) → h.started ≡ false → h.exit_result ≡ pos 0 → IsTrue (created_life h)
created-IsTrue h n z = elim (Bool-cases h.created) [
  | inl c ↦
      subst (λ b. Says (if b then ready else absent) h.created h.started h.exit_result) (sym c)
        (c, n, z)
  | inr c ↦
      subst (λ b. Says (if b then ready else absent) h.created h.started h.exit_result) (sym c)
        (c, n)
]

alive-IsTrue :
    (phase : Phase) (created started : Bool) (result : ℤ)
    → IsAlive phase
    → Says phase created started result
    → (created ≡ true) × (started ≡ true)
alive-IsTrue absent created started result a h = absurd a
alive-IsTrue ready created started result a h = absurd a
alive-IsTrue (ended r) created started result a h = absurd a
alive-IsTrue running created started result a (c, n, z) = (c, n)
alive-IsTrue (finishing r) created started result a (c, n, z) = (c, n)

Says-resumed :
    (phase : Phase) (created started due starts : Bool) (result : ℤ)
    → Says phase created started result
    → let new = started || (due && created && not started && starts) in
      Says (resumed started new phase) created new result
Says-resumed absent false false true starts r h = h
Says-resumed absent false false false starts r h = h
Says-resumed absent false true due starts r (c, n) = absurd (cc)
Says-resumed absent true started due starts r (c, n) = absurd (cc)
Says-resumed ready true false true true r (c, n, z) = (refl, refl, z)
Says-resumed ready true false true false r h = h
Says-resumed ready true false false starts r h = h
Says-resumed ready true true due starts r (c, n, z) = absurd (cc)
Says-resumed ready false started due starts r (c, n, z) = absurd (cc)
Says-resumed running created true due starts r h = h
Says-resumed running created false due starts r (c, n, z) = absurd (cc)
Says-resumed (finishing q) created true due starts r h = h
Says-resumed (finishing q) created false due starts r (c, n, z) = absurd (cc)
Says-resumed (ended q) created true due starts r h = h
Says-resumed (ended q) created false due starts r (c, n, z) = absurd (cc)

resumed-IsTrue : (s : Life) (on : Bool) → IsTrue s → IsTrue (resumed_life s (resume on s.host).0)
unfolding resume
resumed-IsTrue s on h = Says-resumed s.phase s.host.created s.host.started _ on s.host.exit_result h

-- A join refuses, or takes the thread apart and hands out its result.
pub join_cases :
    (P : HostThread × (ℕ × Option ℤ) → Type 0) (done : Bool) (h : HostThread)
    → P (h, (0, none))
    → P (record h { started = false; created = false }, (1, some h.exit_result))
    → P (join done h)
unfolding join
join_cases P done h refuse take =
    let taken : HostThread × (ℕ × Option ℤ) =
      (record h { started = false; created = false }, (1, some h.exit_result)) in
    let refused : HostThread × (ℕ × Option ℤ) = (h, (0, none)) in
    elim (not h.created || not h.started || h.detached)
      as (λ b. P (if b then refused else if not done then refused else taken)) [
        | true ↦ refuse
        | false ↦ elim done as (λ b. P (if not b then refused else taken)) [
          | true ↦ take
          | false ↦ refuse
        ]
      ]

joined-IsTrue : (s : Life) (done : Bool) → IsTrue s → IsTrue (joined_life s (join done s.host))
joined-IsTrue s done h = join_cases (λ x. IsTrue (joined_life s x)) done s.host h (refl, refl)

-- A call that changes neither of what the phase tells.
quiet :
    (s : Life) (h : HostThread)
    → h.created ≡ s.host.created
    → h.started ≡ s.host.started
    → h.exit_result ≡ s.host.exit_result
    → IsTrue s
    → IsTrue (record s { host = h })
quiet s h c n r t =
    subst (λ x. Says s.phase x h.started h.exit_result) (sym c)
      (subst (λ x. Says s.phase s.host.created x h.exit_result) (sym n)
        (subst (λ x. Says s.phase s.host.created s.host.started x) (sym r) t))

allowed_quiet :
    (state : ℤ) (s h : HostThread)
    → (set_cancel_state state (some s)).0 ≡ some h
    → (h.created ≡ s.created) × (h.started ≡ s.started) × (h.exit_result ≡ s.exit_result)
unfolding set_cancel_state
allowed_quiet state s h e =
    let f : record s { cancel_enabled = not (eqb_ℤ state (pos 0)) } ≡ h = cc in
    (ap (λ x. x.created) (sym f), ap (λ x. x.started) (sym f), ap (λ x. x.exit_result) (sym f))

pub exited :
    (r : ℤ) (s h : HostThread) → exit_thread r (some s) ≡ some h → record s { exit_result = r } ≡ h
unfolding exit_thread
exited r s h e = cc

Step-IsTrue : {s t : Life} → Step s t → IsTrue s → IsTrue t
unfolding create_thread suspend finish set_cleanup set_deallocator set_priority set_affinity
    set_name cancel detach
Step-IsTrue (creates s on thread entry argc argv stack size priority attributes e) h =
    created-IsTrue (create_thread on thread entry argc argv stack size priority attributes s.host).0
      refl refl
Step-IsTrue (resumes s starts) h = resumed-IsTrue s starts h
Step-IsTrue (suspends s) h = h
Step-IsTrue (returns s r e) h =
    let (c, n, z) = subst (λ p. Says p s.host.created s.host.started s.host.exit_result) e h in
    (c, n, refl)
Step-IsTrue (ends s r e) h =
    subst (λ p. Says p s.host.created s.host.started s.host.exit_result) e h
Step-IsTrue (exits s r g a e) h =
    let (c, n) = alive-IsTrue s.phase _ _ _ a h in
    subst (λ x. Says (ended r) x.created x.started x.exit_result) (exited r s.host g e) (c, n, refl)
Step-IsTrue (stops s a e) h = let (c, n) = alive-IsTrue s.phase _ _ _ a h in (c, n, refl)
Step-IsTrue (joins s r done e) h = joined-IsTrue s done h
Step-IsTrue (cancels s) h = h
Step-IsTrue (detaches s) h = h
Step-IsTrue (cleans s fn) h = h
Step-IsTrue (frees s fn) h = h
Step-IsTrue (ranks s priority) h = h
Step-IsTrue (binds s affinity) h = h
Step-IsTrue (names s name) h = h
Step-IsTrue (allows s state g e) h =
    let (c, n, r) = allowed_quiet state s.host g e in quiet s g c n r h

-- In every state that calls on a thread and its own run reach from one whose record is true, the record
-- says which phase the thread is in: neither created nor started without a
-- thread; created, and started once it runs; and from its end on, the result of it is the one it ended
-- with.
pub Reach-IsTrue : {s t : Life} → IsTrue s → Reach s t → IsTrue t
Reach-IsTrue h unmoved = h
Reach-IsTrue h (moved r step) = Step-IsTrue step (Reach-IsTrue h r)
