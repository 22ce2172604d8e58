-- ===== src/Thread/Cycle.antt =====
-- The life of a thread as a step relation: the calls on it, and what the thread itself does.
use coreinit_nx.Base.{ℕ, ◌≡◌, Bool, true, false, Option, none, some, if◌then◌else◌}
use coreinit_nx.Base.Int.{ℤ}
use coreinit_nx.Thread.{
  HostThread, fresh, create_thread, resume, suspend, join, finish, set_cleanup, set_deallocator,
  set_priority, set_affinity, set_name, cancel, test_cancel, set_cancel_state, detach,
}
use coreinit_nx.Thread.Trampoline.{exit_thread}

-- The thread of Horizon behind a record: none, one that is not started, one that runs, one whose entry
-- point returned and which runs its callbacks, one that ended, with the result.
pub data Phase : Type 0 where
  absent ready running : Phase
  finishing ended : ℤ → Phase

abbrev pub IsAlive : Phase → Type 0
IsAlive running = Unit
IsAlive (finishing r) = Unit
IsAlive _ = ⊥

pub record Life : Type 0 where
  pub host : HostThread
  pub phase : Phase

-- What a creation, a resume and a join leave, from what they leave in the record.
abbrev pub created_life : HostThread → Life
created_life h = record { host = h; phase = if h.created then ready else absent }

abbrev pub resumed : Bool → Bool → Phase → Phase
resumed false true phase = running
resumed _ _ phase = phase

abbrev pub resumed_life : Life → HostThread → Life
resumed_life s h = record { host = h; phase = resumed s.host.started h.started s.phase }

abbrev pub joined : Option ℤ → Phase → Phase
joined none phase = phase
joined (some r) phase = absent

abbrev pub joined_life : Life → HostThread × (ℕ × Option ℤ) → Life
joined_life s (h, answer) = record { host = h; phase = joined answer.1 s.phase }

-- A thread may be created anew at a record whose thread does not run; `threadWaitForExit` returns when
-- the thread has ended.
pub data Step : Life → Life → Type 0 where
  creates :
      (s : Life) (on : ℤ → Bool) (thread entry : ℕ) (argc : ℤ) (argv stack size : ℕ) (priority : ℤ)
      (attributes : ℕ)
      → ¬ IsAlive s.phase
      → Step s (
          created_life
            (create_thread on thread entry argc argv stack size priority attributes s.host).0)
  resumes : (s : Life) (starts : Bool) → Step s (resumed_life s (resume starts s.host).0)
  suspends : (s : Life) → Step s (record s { host = (suspend s.host).0 })
  returns :
      (s : Life) (r : ℤ)
      → s.phase ≡ running
      → Step s (record { host = finish r s.host; phase = finishing r })
  ends : (s : Life) (r : ℤ) → s.phase ≡ finishing r → Step s (record s { phase = ended r })
  exits :
      (s : Life) (r : ℤ) (h : HostThread)
      → IsAlive s.phase
      → exit_thread r (some s.host) ≡ some h
      → Step s (record { host = h; phase = ended r })
  stops :
      (s : Life)
      → IsAlive s.phase
      → test_cancel s.host ≡ true
      → Step s (record s { phase = ended s.host.exit_result })
  joins :
      (s : Life) (r : ℤ) (exits : Bool)
      → s.phase ≡ ended r
      → Step s (joined_life s (join exits s.host))
  cancels : (s : Life) → Step s (record s { host = cancel s.host })
  detaches : (s : Life) → Step s (record s { host = detach s.host })
  cleans : (s : Life) (fn : ℕ) → Step s (record s { host = (set_cleanup fn s.host).0 })
  frees : (s : Life) (fn : ℕ) → Step s (record s { host = (set_deallocator fn s.host).0 })
  ranks : (s : Life) (priority : ℤ) → Step s (record s { host = (set_priority priority s.host).0 })
  binds : (s : Life) (affinity : ℕ) → Step s (record s { host = (set_affinity affinity s.host).0 })
  names : (s : Life) (name : ℕ) → Step s (record s { host = set_name name s.host })
  allows :
      (s : Life) (state : ℤ) (h : HostThread)
      → (set_cancel_state state (some s.host)).0 ≡ some h
      → Step s (record s { host = h })

pub data Reach (s : Life) : Life → Type 0 where
  unmoved : Reach s s
  moved : {t u : Life} → Reach s t → Step t u → Reach s u

abbrev pub start : Life
start = record { host = fresh; phase = absent }
