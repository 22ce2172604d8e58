-- ===== src/Thread/Tests.antt =====
-- A thread that was suspended twice before it starts, and one that is created, runs, ends with 7, is
-- cancelled and joined, and created anew.
use coreinit_nx.Base.{◌≡◌, refl, true, false, some, leb}
use coreinit_nx.Base.Int.{pos, ◌-ℤ◌}
use coreinit_nx.Thread.{
  HostThread, fresh, create_thread, resume, join, finish, cancel, is_terminated, test_cancel,
}
use coreinit_nx.Thread.Life.{resumes, resumes_start}
use coreinit_nx.Thread.Cycle.{
  Phase, absent, ready, running, finishing, ended, Life, creates, returns, ends, Reach, unmoved,
  moved, start, created_life, resumed_life, joined_life,
}
use coreinit_nx.Thread.Cycle
use coreinit_nx.Thread.Results.{join_result, is_terminated_lem}

abbrev held : HostThread
held = record fresh { created = true; suspend_count = pos 2 }

resumes_start_example : (resumes 3 held).started ≡ leb 2 3
resumes_start_example = resumes_start 3 1 held refl refl refl

abbrev make : HostThread → HostThread
make h = (create_thread (λ cpu. true) 0x100 0x40 (pos 0) 0 0x9000 0x1000 (pos 16) 0 h).0

abbrev made : Life
made = created_life (make fresh)

made-Reach : Reach start made
made-Reach =
    moved unmoved
      (creates start (λ cpu. true) 0x100 0x40 (pos 0) 0 0x9000 0x1000 (pos 16) 0 (λ a. a))

abbrev over : Life
over =
    let on = resumed_life made (resume true made.host).0 in
    record { host = finish (pos 7) on.host; phase = ended (pos 7) }

over-Reach : Reach start over
unfolding create_thread resume finish ◌-ℤ◌
over-Reach =
    let on = resumed_life made (resume true made.host).0 in
    let done : Life = record { host = finish (pos 7) on.host; phase = finishing (pos 7) } in
    moved (moved (moved made-Reach (Cycle.resumes made true)) (returns on (pos 7) refl))
      (ends done (pos 7) refl)

over_open : (over.host.detached ≡ false)
unfolding create_thread resume finish ◌-ℤ◌
over_open = refl

join_result_example : (join true over.host).1 ≡ (1, some (pos 7))
join_result_example = join_result over (pos 7) over-Reach refl over_open

is_terminated_lem_example : is_terminated over.host ≡ 0
is_terminated_lem_example = is_terminated_lem over over-Reach

abbrev doomed : Life
doomed = record over { host = cancel over.host }

abbrev gone : Life
gone = joined_life doomed (join true doomed.host)

abbrev reborn : Life
reborn = created_life (make gone.host)

still_cancelled : test_cancel reborn.host ≡ true
unfolding create_thread resume finish cancel join test_cancel ◌-ℤ◌
still_cancelled = refl
